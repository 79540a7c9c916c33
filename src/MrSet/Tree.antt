-- ===== src/MrSet/Tree.antt =====
-- src/utrans/utrans_mr_set.c: the recursive functions on the region tree.
use asystem_astate.Base.{
  ℕ, ◌+◌, Bool, true, false, ◌&&◌, not, Option, none, some, List, [], ◌∷◌, ◌++◌, ltb, leb, ◌==◌,
  if◌then◌else◌, ◌>>=◌, ℤ, pos, is_zero,
}
use asystem_astate.MrSet.Node.{
  Region, AvlNode, null, node, add64, avl_height, update_height, avl_ll_rotation, avl_rr_rotation,
  avl_lr_rotation, avl_rl_rotation,
}

-- `avl_insert` after the call on the right child. Heights are small, so `int` subtraction is exact.
unfoldable pub balance_right : ℕ → AvlNode → Option AvlNode
balance_right key null = none
balance_right key (node x left null h) =
    if avl_height null == avl_height left + 2 then none else some (node x left null h)
balance_right key (node x left (node y yl yr yh) h) =
    let t = node x left (node y yl yr yh) h in
    if yh == avl_height left + 2
    then (if ltb y.addr key then avl_rr_rotation t else avl_rl_rotation t)
    else some t

-- `avl_insert` after the call on the left child.
unfoldable pub balance_left : ℕ → AvlNode → Option AvlNode
balance_left key null = none
balance_left key (node x null right h) =
    if avl_height null == avl_height right + 2 then none else some (node x null right h)
balance_left key (node x (node y yl yr yh) right h) =
    let t = node x (node y yl yr yh) right h in
    if yh == avl_height right + 2
    then (if ltb key y.addr then avl_ll_rotation t else avl_lr_rotation t)
    else some t

-- `alloc` says whether `malloc` succeeds; the flag is `*poper_fail`, before and after the call.
unfoldable pub avl_insert : Bool → AvlNode → Region → Bool → Option (AvlNode × Bool)
avl_insert alloc t x true = some (t, true)
avl_insert true null x false = do t ← update_height (node x null null 0); some (t, false)
avl_insert false null x false = some (null, true)
avl_insert alloc (node y left right h) x false =
    let go_right = (do
      r ← avl_insert alloc right x false
      t ← balance_right x.addr (node y left r.0 h)
      t' ← update_height t
      some (t', r.1)) in
    let go_left = (do
      r ← avl_insert alloc left x false
      t ← balance_left x.addr (node y r.0 right h)
      t' ← update_height t
      some (t', r.1)) in
    if leb (add64 y.addr y.len) x.addr
    then go_right
    else if leb (add64 x.addr x.len) y.addr
    then go_left
    else some (node y left right h, true)

-- `avl_max` of the node with region `x` and the given right child.
unfoldable pub avl_max : Region → AvlNode → Region
avl_max x null = x
avl_max x (node y left right h) = avl_max y right

-- `avl_min` of the node with region `x` and the given left child.
unfoldable pub avl_min : Region → AvlNode → Region
avl_min x null = x
avl_min x (node y left right h) = avl_min y left

unfoldable pub avl_find : AvlNode → ℕ → ℕ → Option Region
avl_find null addr len = none
avl_find (node x left right h) addr len =
    let in_left = avl_find left addr len in
    let in_right = avl_find right addr len in
    if leb (add64 addr len) x.addr
    then in_left
    else if leb (add64 x.addr x.len) addr
    then in_right
    else if leb x.addr addr && leb (add64 addr len) (add64 x.addr x.len)
    then some x
    else none

-- The items in the order in which `avl_scan` writes them to the array.
unfoldable pub avl_scan : AvlNode → List ℕ
avl_scan null = []
avl_scan (node x left right h) = avl_scan left ++ x.value ∷ avl_scan right

-- `avl_delete_node` after the call on the left child.
unfoldable pub rebalance_right : AvlNode → Option AvlNode
rebalance_right null = none
rebalance_right (node x left null h) =
    if avl_height null == avl_height left + 2 then none else some (node x left null h)
rebalance_right (node x left (node y yl yr yh) h) =
    let t = node x left (node y yl yr yh) h in
    if yh == avl_height left + 2
    then (if ltb (avl_height yr) (avl_height yl) then avl_rl_rotation t else avl_rr_rotation t)
    else some t

-- `avl_delete_node` after the call on the right child.
unfoldable pub rebalance_left : AvlNode → Option AvlNode
rebalance_left null = none
rebalance_left (node x null right h) =
    if avl_height null == avl_height right + 2 then none else some (node x null right h)
rebalance_left (node x (node y yl yr yh) right h) =
    let t = node x (node y yl yr yh) right h in
    if yh == avl_height right + 2
    then (if ltb (avl_height yl) (avl_height yr) then avl_lr_rotation t else avl_ll_rotation t)
    else some t

-- The last case of `avl_delete_node`, at the node to remove. `left_del` and `right_del` are the
-- calls of `avl_delete_node` on the children.
unfoldable pub delete_root :
    Region
    → AvlNode
    → AvlNode
    → ℕ
    → (ℕ → Option (AvlNode × Option ℕ))
    → (ℕ → Option (AvlNode × Option ℕ))
    → Option AvlNode
unfolding avl_max avl_min
delete_root x null right h left_del right_del = some right
delete_root x (node y yl yr yh) null h left_del right_del = some (node y yl yr yh)
delete_root x (node y yl yr yh) (node z zl zr zh) h left_del right_del =
    if ltb zh yh
    then (do r ← left_del (avl_max y yr).addr; some (node (avl_max y yr) r.0 (node z zl zr zh) h))
    else (do r ← right_del (avl_min z zl).addr; some (node (avl_min z zl) (node y yl yr yh) r.0 h))

-- The tree without the node at address `key`, and what is written to `*pitem_ret`.
unfoldable pub avl_delete_node : AvlNode → ℕ → Option (AvlNode × Option ℕ)
avl_delete_node null key = some (null, none)
avl_delete_node (node x left right h) key =
    let go_left = (do
      r ← avl_delete_node left key
      t ← rebalance_right (node x r.0 right h)
      some (t, r.1)) in
    let go_right = (do
      r ← avl_delete_node right key
      t ← rebalance_left (node x left r.0 h)
      some (t, r.1)) in
    let here = (do
      t ← delete_root x left right h (avl_delete_node left) (avl_delete_node right)
      some (t, some x.value)) in
    if ltb key x.addr then go_left else if ltb x.addr key then go_right else here

-- The items of the nodes in the order in which `avl_destroy` frees them, which is also the order
-- in which it writes them to an array.
unfoldable pub avl_destroy : AvlNode → List ℕ
avl_destroy null = []
avl_destroy (node x left right h) = avl_destroy left ++ (avl_destroy right ++ x.value ∷ [])

-- The callback is given an item and the state that it shares with its caller through `cb_arg`.
-- It returns its `int` and the new state. `none` is a null callback.
module _ {ℓ} {S : Type ℓ} where
  unfoldable pub call_back : Option (ℕ → S → ℤ × S) → ℕ → S → ℤ × S
  call_back none item s = (pos 0, s)
  call_back (some cb) item s = cb item s

  unfoldable pub avl_traverse : Bool → Option (ℕ → S → ℤ × S) → AvlNode → S → ℤ × S
  unfolding call_back
  avl_traverse judge cb null s = (pos 0, s)
  avl_traverse judge cb (node x left right h) s =
      let r₁ = avl_traverse judge cb left s in
      let r₂ = call_back cb x.value r₁.1 in
      let r₃ = avl_traverse judge cb right r₂.1 in
      if judge && not (is_zero r₁.0)
      then r₁
      else if judge && not (is_zero r₂.0)
      then r₂
      else if judge && not (is_zero r₃.0)
      then r₃
      else (pos 0, r₃.1)
