-- ===== src/MrSet/Api.antt =====
-- src/utrans/utrans_mr_set.c: the functions of the set. Their callers pass the address of a field,
-- so the guards against a null `pmr_set` are left out. The size is an `int` that counts nodes.
use asystem_astate.Base.{
  ℕ, ◌+◌, ◌-◌, Bool, true, false, Option, none, some, List, ◌||◌, ◌==◌, if◌then◌else◌, ◌>>=◌, ℤ,
  pos, negsuc, length,
}
use asystem_astate.MrSet.Node.{AvlNode, null}
use asystem_astate.MrSet.Tree.{
  avl_insert, avl_find, avl_scan, avl_delete_node, avl_destroy, avl_traverse,
}

-- `mr_set_t`
pub record MrSet : Type 0 where
  pub root : AvlNode
  pub size : ℕ

unfoldable pub mr_set_init : MrSet
mr_set_init = record { root = null; size = 0 }

-- The set after the call and the value that it returns. `alloc`: does `malloc` succeed?
unfoldable pub mr_set_insert : Bool → MrSet → ℕ → ℕ → ℕ → Option (MrSet × ℤ)
mr_set_insert alloc s addr len pitem = if len == 0 || pitem == 0 then some (s, negsuc 0) else (do
  r ← avl_insert alloc s.root (record { addr = addr; len = len; value = pitem }) false
  some (
      if r.1
      then (record s { root = r.0 }, pos 1)
      else (record { root = r.0; size = s.size + 1 }, pos 0)))

-- 0 is NULL.
unfoldable pub mr_set_find : MrSet → ℕ → ℕ → ℕ
mr_set_find s addr len =
    if len == 0 then 0 else elim (avl_find s.root addr len) [ none ↦ 0 | some x ↦ x.value ]

-- The set and the result of `utrans_mr_set_remove`, from what `avl_delete_node` gives.
unfoldable pub drop_item : MrSet → AvlNode → Option ℕ → MrSet × ℕ
drop_item s t none = (record s { root = t }, 0)
drop_item s t (some item) =
    (record { root = t; size = if item == 0 then s.size else s.size - 1 }, item)

unfoldable pub mr_set_remove : MrSet → ℕ → ℕ → Option (MrSet × ℕ)
unfolding drop_item
mr_set_remove s addr len = if len == 0 then some (s, 0) else elim (avl_find s.root addr len) [
  | none ↦ some (s, 0)
  | some x ↦ do r ← avl_delete_node s.root x.addr; some (drop_item s r.0 r.1)
]

-- The array (`none`: NULL) and `*psize` after the call.
unfoldable pub mr_set_getall : Bool → MrSet → ℕ → Option (List ℕ) × ℕ
mr_set_getall alloc s psize =
    if s.size == 0
    then (none, psize)
    else if alloc
    then (let items = avl_scan s.root in (some items, length items))
    else (none, s.size)

unfoldable pub mr_set_traverse {ℓ} : {S : Type ℓ} → MrSet → Option (ℕ → S → ℤ × S) → S → ℤ × S
mr_set_traverse s cb st = avl_traverse true cb s.root st

unfoldable pub mr_set_getsize : MrSet → ℕ
mr_set_getsize s = s.size

-- The state of the callback after the call, the items of the nodes that are freed, and the set.
unfoldable pub mr_set_destroy {ℓ} :
    {S : Type ℓ} → MrSet → Option (ℕ → S → ℤ × S) → S → S × List ℕ × MrSet
mr_set_destroy s none st = (st, avl_destroy s.root, record { root = null; size = 0 })
mr_set_destroy s (some cb) st = (
  (avl_traverse false (some cb) s.root st).1,
  avl_destroy s.root,
  record { root = null; size = 0 },
)
