-- ===== src/MrSet/Insert/Avl.antt =====
-- `avl_insert` on AVL trees: the tree stays balanced, and no call faults.
use asystem_astate.Base.{
  ℕ, ◌+◌, ◌<◌, ◌≡◌, refl, sym, subst, ap, Bool, true, false, Option, none, some, ◌⊎◌, inl, inr, leb,
  Bool-cases, ◌>>=◌, arith,
}
use asystem_astate.MrSet.Node.{
  Region, AvlNode, null, node, add64, update_height, avl_height, with_height,
}
use asystem_astate.MrSet.Tree.{avl_insert, balance_right, balance_left}
use asystem_astate.MrSet.Sorted.{
  regions, IsRegion, IsBefore, IsSorted, IsSorted-Parts, end_le_of_test, collides, insert_sorted,
}
use asystem_astate.MrSet.Insert.{insert-Inserts}
use asystem_astate.MrSet.Insert.Balanced.{
  IsAvl, Higher, Balanced, balance_right-Balanced, balance_left-Balanced,
}

-- What a call on the AVL tree `t` gives: the same tree and the flag, or a tree that is higher by at
-- most one.
abbrev Outcome : ℕ → AvlNode → AvlNode → Bool → Type 0
Outcome a t t' fail =
    ((fail ≡ true) × (t' ≡ t))
    ⊎ ((fail ≡ false)
        × ((avl_height t' ≡ avl_height t) ⊎ ((avl_height t' ≡ avl_height t + 1) × Higher a t')))

abbrev Stays : ℕ → AvlNode → Option (AvlNode × Bool) → Type 0
Stays a t o =
    (t' : AvlNode) × (fail : Bool) × (o ≡ some (t', fail)) × IsAvl t' × Outcome a t t' fail

Stays-finish :
    (a : ℕ) (t : AvlNode) (o : Option AvlNode)
    → Balanced a (avl_height t) o
    → Stays a t (o >>= λ s. update_height s >>= λ s'. some (s', false))
unfolding update_height with_height
Stays-finish a t none b = absurd b
Stays-finish a t (some null) b = absurd b
Stays-finish a t (some (node y l r h)) (p, q, e, inl k) =
    (with_height y l r, false, refl, (p, q, e, refl), inr (refl, inl k))
Stays-finish a t (some (node y l r h)) (p, q, e, inr (k, n)) =
    (with_height y l r, false, refl, (p, q, e, refl), inr (refl, inr (ap (λ m. m + 1) k, n)))

-- A child that has not changed needs no balancing.
Stays-same :
    (a : ℕ) (y : Region) (l r : AvlNode) (h : ℕ) (o : Option AvlNode)
    → IsAvl (node y l r h)
    → o ≡ some (node y l r h)
    → Stays a (node y l r h) (o >>= λ s. update_height s >>= λ s'. some (s', true))
unfolding update_height with_height
Stays-same a y l r h o v e = (node y l r h, true, rw (e, v.3), v, inl (refl, refl))

pub balance_right_same :
    (a : ℕ) (y : Region) (l r : AvlNode) (h : ℕ)
    → IsAvl (node y l r h)
    → balance_right a (node y l r h) ≡ some (node y l r h)
unfolding balance_right
balance_right_same a y l null h v = ground arith
balance_right_same a y l (node z zl zr zh) h v = ground arith

pub balance_left_same :
    (a : ℕ) (y : Region) (l r : AvlNode) (h : ℕ)
    → IsAvl (node y l r h)
    → balance_left a (node y l r h) ≡ some (node y l r h)
unfolding balance_left
balance_left_same a y null r h v = ground arith
balance_left_same a y (node z zl zr zh) r h v = ground arith

module _ (a : ℕ) (y : Region) (left right : AvlNode) (h : ℕ) (v : IsAvl (node y left right h)) where
  Stays-rightward :
      (o : Option (AvlNode × Bool))
      → y.addr < a
      → Stays a right o
      → Stays a (node y left right h) (
          o >>= λ r.
          balance_right a (node y left r.0 h) >>= λ t. update_height t >>= λ t'. some (t', r.1))
  Stays-rightward o b (c, f, e, w, inl (ef, same)) =
      rw (e, ef, same)
        (Stays-same a y left right h (balance_right a (node y left right h)) v
          (balance_right_same a y left right h v))
  Stays-rightward o b (c, f, e, w, inr (ef, g)) =
      rw (e, ef)
        (Stays-finish a (node y left right h) (balance_right a (node y left c h)) (
          subst (λ k. Balanced a k (balance_right a (node y left c h))) (sym v.3)
            (balance_right-Balanced a y left c h (avl_height right) b v.0 w v.2 g)))

  Stays-leftward :
      (o : Option (AvlNode × Bool))
      → a < y.addr
      → Stays a left o
      → Stays a (node y left right h) (
          o >>= λ r.
          balance_left a (node y r.0 right h) >>= λ t. update_height t >>= λ t'. some (t', r.1))
  Stays-leftward o b (c, f, e, w, inl (ef, same)) =
      rw (e, ef, same)
        (Stays-same a y left right h (balance_left a (node y left right h)) v
          (balance_left_same a y left right h v))
  Stays-leftward o b (c, f, e, w, inr (ef, g)) =
      rw (e, ef)
        (Stays-finish a (node y left right h) (balance_left a (node y c right h)) (
          subst (λ k. Balanced a k (balance_left a (node y c right h))) (sym v.3)
            (balance_left-Balanced a y c right h (avl_height left) b v.1 w v.2 g)))

insert-Stays :
    (t : AvlNode) (x : Region)
    → IsRegion x
    → IsSorted (regions t)
    → IsAvl t
    → Stays x.addr t (avl_insert true t x false)
unfolding avl_insert update_height with_height
insert-Stays null x r s v = (
  with_height x null null,
  false,
  refl,
  (tt, tt, omega arith, refl),
  inr (refl, inr (refl, (λ q. absurd (omega arith), λ q. absurd (omega arith), λ q. refl))),
)
insert-Stays (node y left right h) x r s v =
    let ok = IsSorted-Parts (regions left) y (regions right) s in
    elim (Bool-cases (leb (add64 y.addr y.len) x.addr)) [
      | inl e ↦
          let b : IsBefore y x = end_le_of_test y x.addr ok.root e in
          rw e (
            Stays-rightward x.addr y left right h v (avl_insert true right x false)
              (omega (arith, ok.root.not_empty)) (insert-Stays right x r ok.right v.1))
      | inr e ↦ elim (Bool-cases (leb (add64 x.addr x.len) y.addr)) [
        | inl e₂ ↦
            let b : IsBefore x y = end_le_of_test x y.addr r e₂ in
            rw (e, e₂)
              (Stays-leftward x.addr y left right h v (avl_insert true left x false)
                (omega (arith, r.not_empty)) (insert-Stays left x r ok.left v.0))
        | inr e₂ ↦ rw (e, e₂) (node y left right h, true, refl, v, inl (refl, refl))
      ]
    ]

Outcome-same : (a : ℕ) (t t' : AvlNode) (f c : Bool) → Outcome a t t' f → f ≡ c → c ≡ true → t' ≡ t
Outcome-same a t t' f c (inl o) k e = o.1
Outcome-same a t t' f c (inr o) k e = absurd (cc (o.0))

-- On an AVL tree that has its regions in order, `avl_insert` does not fault, and leaves an AVL tree.
-- The flag is set exactly if the region collides with one of the tree. Then the tree is unchanged;
-- otherwise the region stands at its place among the others.
pub avl_insert_balanced :
    (t : AvlNode) (x : Region)
    → IsRegion x
    → IsSorted (regions t)
    → IsAvl t
    → (t' : AvlNode) × (avl_insert true t x false ≡ some (t', collides x (regions t)))
      × IsAvl t'
      × (collides x (regions t) ≡ true → t' ≡ t)
      × (collides x (regions t) ≡ false → regions t' ≡ insert_sorted x (regions t))
avl_insert_balanced t x r s v =
    let (t', f, e, w, out) = insert-Stays t x r s v in
    let k = rw e at (insert-Inserts t x r s) in
    (
      t',
      rw (← k.0) e,
      w,
      Outcome-same x.addr t t' f (collides x (regions t)) out k.0,
      λ c. rw c at (k.1),
    )
