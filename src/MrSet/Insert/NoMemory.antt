-- ===== src/MrSet/Insert/NoMemory.antt =====
-- `avl_insert` where `malloc` fails: an AVL tree is unchanged. Another tree keeps its regions, unless
-- the call faults.
use asystem_astate.Base.{
  ℕ, ◌≡◌, refl, sym, ◌∙◌, ap, Bool, true, false, Option, none, some, ◌∷◌, ◌++◌, inl, inr, leb,
  Bool-cases, ◌>>=◌,
}
use asystem_astate.MrSet.Node.{Region, AvlNode, null, node, add64, update_height, with_height}
use asystem_astate.MrSet.Tree.{avl_insert, balance_right, balance_left}
use asystem_astate.MrSet.Sorted.{regions}
use asystem_astate.MrSet.Shape.{Keeps, update_height-Keeps, balance_right-Keeps, balance_left-Keeps}
use asystem_astate.MrSet.Insert.Balanced.{IsAvl}
use asystem_astate.MrSet.Insert.Avl.{balance_right_same, balance_left_same}

update_height_same :
    (y : Region) (l r : AvlNode) (h : ℕ)
    → IsAvl (node y l r h)
    → update_height (node y l r h) ≡ some (node y l r h)
unfolding update_height with_height
update_height_same y l r h v = ap (λ k. some (node y l r k)) (sym v.3)

-- On an AVL tree the call does not fault: it sets the flag, and leaves the tree as it is.
pub avl_insert_no_memory :
    (t : AvlNode) (x : Region) → IsAvl t → avl_insert false t x false ≡ some (t, true)
unfolding avl_insert
avl_insert_no_memory null x v = refl
avl_insert_no_memory (node y l r h) x v = elim (Bool-cases (leb (add64 y.addr y.len) x.addr)) [
  | inl e ↦
      rw
        (
          e,
          avl_insert_no_memory r x v.1,
          balance_right_same x.addr y l r h v,
          update_height_same y l r h v,
        )
        refl
  | inr e ↦ elim (Bool-cases (leb (add64 x.addr x.len) y.addr)) [
    | inl e₂ ↦
        rw
          (
            e,
            e₂,
            avl_insert_no_memory l x v.0,
            balance_left_same x.addr y l r h v,
            update_height_same y l r h v,
          )
          refl
    | inr e₂ ↦ rw (e, e₂) refl
  ]
]

-- The flag is set, and no region has changed. Nothing is said of a fault.
abbrev pub Refuses : AvlNode → Option (AvlNode × Bool) → Type 0
Refuses t none = Unit
Refuses t (some (t', fail)) = (fail ≡ true) × (regions t' ≡ regions t)

Refuses-finish :
    (t c : AvlNode) (f : Bool) (balance : AvlNode → Option AvlNode)
    → ((s : AvlNode) → Keeps s (balance s))
    → f ≡ true
    → regions c ≡ regions t
    → Refuses t (do s ← balance c; s' ← update_height s; some (s', f))
Refuses-finish t c f balance keeps e k = go (balance c) (keeps c)
  where
    go₂ :
        (s : AvlNode)
        → regions s ≡ regions c
        → (o : Option AvlNode) → Keeps s o
        → Refuses t (o >>= λ s'. some (s', f))
    go₂ s h none m = tt
    go₂ s h (some s') m = (e, m ∙ h ∙ k)

    go :
        (o : Option AvlNode)
        → Keeps c o
        → Refuses t (o >>= λ s. update_height s >>= λ s'. some (s', f))
    go none h = tt
    go (some s) h = go₂ s h (update_height s) (update_height-Keeps s)

module _ (x y : Region) (left right : AvlNode) (h : ℕ) where
  Refuses-rightward :
      (o : Option (AvlNode × Bool))
      → Refuses right o
      → Refuses (node y left right h) (
          o >>= λ r. balance_right x.addr (node y left r.0 h) >>= λ t.
          update_height t >>= λ t'. some (t', r.1))
  Refuses-rightward none i = tt
  Refuses-rightward (some (c, f)) i =
      Refuses-finish (node y left right h) (node y left c h) f (balance_right x.addr)
        (balance_right-Keeps x.addr) i.0 (ap (λ l. regions left ++ y ∷ l) i.1)

  Refuses-leftward :
      (o : Option (AvlNode × Bool))
      → Refuses left o
      → Refuses (node y left right h) (
          o >>= λ r. balance_left x.addr (node y r.0 right h) >>= λ t.
          update_height t >>= λ t'. some (t', r.1))
  Refuses-leftward none i = tt
  Refuses-leftward (some (c, f)) i =
      Refuses-finish (node y left right h) (node y c right h) f (balance_left x.addr)
        (balance_left-Keeps x.addr) i.0 (ap (λ l. l ++ y ∷ regions right) i.1)

pub avl_insert-Refuses : (t : AvlNode) (x : Region) → Refuses t (avl_insert false t x false)
unfolding avl_insert
avl_insert-Refuses null x = (refl, refl)
avl_insert-Refuses (node y left right h) x = elim (Bool-cases (leb (add64 y.addr y.len) x.addr)) [
  | inl e ↦ rw e (
      Refuses-rightward x y left right h (avl_insert false right x false)
        (avl_insert-Refuses right x))
  | inr e ↦ elim (Bool-cases (leb (add64 x.addr x.len) y.addr)) [
    | inl e₂ ↦
        rw (e, e₂)
          (Refuses-leftward x y left right h (avl_insert false left x false)
            (avl_insert-Refuses left x))
    | inr e₂ ↦ rw (e, e₂) (refl, refl)
  ]
]
