-- ===== src/MrSet/Insert.antt =====
-- `avl_insert` on the list of regions: what it inserts, and when it refuses.
pub mod Fresh
pub mod Balanced
pub mod Avl
pub mod NoMemory
use asystem_astate.Base.{
  ℕ, ◌≡◌, refl, sym, ◌∙◌, ap, Bool, true, false, Option, none, some, [], ◌∷◌, ◌++◌, inl, inr, leb,
  Bool-cases, if◌then◌else◌, ◌>>=◌, All-imp, arith,
}
use asystem_astate.MrSet.Node.{Region, AvlNode, null, node, add64, update_height}
use asystem_astate.MrSet.Tree.{avl_insert, balance_right, balance_left}
use asystem_astate.MrSet.Sorted.{
  regions, IsRegion, IsBefore, IsSorted, collides, insert_sorted, Parts, IsSorted-Parts,
  collides_before, collides_here, collides_drop_after, insert_sorted_before, insert_sorted_after,
  end_le_of_test, lt_end_of_test,
}
use asystem_astate.MrSet.Shape.{Keeps, update_height-Keeps, balance_right-Keeps, balance_left-Keeps}

-- What a call that does not fault has done. The flag is set exactly if `x` collides with a region of
-- `t`; then no region changes, and otherwise `x` takes its place among them.
abbrev pub Inserts : Region → AvlNode → Option (AvlNode × Bool) → Type 0
Inserts x t none = Unit
Inserts x t (some (t', fail)) =
    (fail ≡ collides x (regions t))
    × (regions t' ≡ (if collides x (regions t) then regions t else insert_sorted x (regions t)))

-- The steps of `avl_insert` after the call on a child.
Inserts-finish :
    (x : Region) (t c : AvlNode) (f : Bool) (balance : AvlNode → Option AvlNode)
    → ((s : AvlNode) → Keeps s (balance s))
    → f ≡ collides x (regions t)
    → regions c ≡ (if collides x (regions t) then regions t else insert_sorted x (regions t))
    → Inserts x t (do s ← balance c; s' ← update_height s; some (s', f))
Inserts-finish x t c f balance keeps e k = go (balance c) (keeps c)
  where
    go₂ :
        (s : AvlNode)
        → regions s ≡ regions c
        → (o : Option AvlNode) → Keeps s o
        → Inserts x t (o >>= λ s'. some (s', f))
    go₂ s h none m = tt
    go₂ s h (some s') m = (e, m ∙ h ∙ k)

    go :
        (o : Option AvlNode)
        → Keeps c o
        → Inserts x t (o >>= λ s. update_height s >>= λ s'. some (s', f))
    go none h = tt
    go (some s) h = go₂ s h (update_height s) (update_height-Keeps s)

module _ (x y : Region) (left right : AvlNode) (h : ℕ) (r : IsRegion x)
    (ok : Parts (regions left) y (regions right)) where
  collides_right :
      IsBefore y x → collides x (regions left ++ y ∷ regions right) ≡ collides x (regions right)
  collides_right b =
      collides_before x (regions left) (y ∷ regions right) (
        All-imp (λ z (q : IsBefore z y). omega (arith, ok.root.not_empty)) (regions left) ok.before)
      ∙ collides_before x (y ∷ []) (regions right) (b, tt)

  insert_right :
      IsBefore y x
      → insert_sorted x (regions left ++ y ∷ regions right)
        ≡ regions left ++ y ∷ insert_sorted x (regions right)
  insert_right b =
      insert_sorted_before x (regions left) (y ∷ regions right) (
        All-imp (λ z (q : IsBefore z y). omega (arith, ok.root.not_empty)) (regions left) ok.before)
      ∙ ap (λ l. regions left ++ l) (insert_sorted_before x (y ∷ []) (regions right) (b, tt))

  collides_left :
      IsBefore x y → collides x (regions left ++ y ∷ regions right) ≡ collides x (regions left)
  collides_left b = collides_drop_after x (regions left) (y ∷ regions right) (
    b,
    All-imp (λ z (q : IsBefore y z). omega (arith, ok.root.not_empty)) (regions right) ok.after,
  )

  Inserts-rightward :
      (o : Option (AvlNode × Bool))
      → IsBefore y x
      → Inserts x right o
      → Inserts x (node y left right h) (
          o >>= λ r. balance_right x.addr (node y left r.0 h) >>= λ t.
          update_height t >>= λ t'. some (t', r.1))
  Inserts-rightward none b i = tt
  Inserts-rightward (some (c, f)) b i =
      Inserts-finish x (node y left right h) (node y left c h) f (balance_right x.addr)
        (balance_right-Keeps x.addr) (i.0 ∙ sym (collides_right b))
        (rw (collides_right b, insert_right b) (pick (collides x (regions right)) i.1))
    where
      pick :
          (q : Bool)
          → regions c ≡ (if q then regions right else insert_sorted x (regions right))
          → regions left ++ y ∷ regions c ≡ (
              if q
              then regions left ++ y ∷ regions right
              else regions left ++ y ∷ insert_sorted x (regions right))
      pick true e = ap (λ l. regions left ++ y ∷ l) e
      pick false e = ap (λ l. regions left ++ y ∷ l) e

  Inserts-leftward :
      (o : Option (AvlNode × Bool))
      → IsBefore x y
      → Inserts x left o
      → Inserts x (node y left right h) (
          o >>= λ r. balance_left x.addr (node y r.0 right h) >>= λ t.
          update_height t >>= λ t'. some (t', r.1))
  Inserts-leftward none b i = tt
  Inserts-leftward (some (c, f)) b i =
      Inserts-finish x (node y left right h) (node y c right h) f (balance_left x.addr)
        (balance_left-Keeps x.addr) (i.0 ∙ sym (collides_left b))
        (rw (collides_left b, insert_sorted_after x (regions left) y (regions right) ok.root b)
          (pick (collides x (regions left)) i.1))
    where
      pick :
          (q : Bool)
          → regions c ≡ (if q then regions left else insert_sorted x (regions left))
          → regions c ++ y ∷ regions right ≡ (
              if q
              then regions left ++ y ∷ regions right
              else insert_sorted x (regions left) ++ y ∷ regions right)
      pick true e = ap (λ l. l ++ y ∷ regions right) e
      pick false e = ap (λ l. l ++ y ∷ regions right) e

-- `avl_insert` either faults, or inserts the region in its place, or sets the flag.
pub insert-Inserts :
    (t : AvlNode) (x : Region)
    → IsRegion x
    → IsSorted (regions t)
    → Inserts x t (avl_insert true t x false)
unfolding avl_insert update_height
insert-Inserts null x r s = (refl, refl)
insert-Inserts (node y left right h) x r s =
    let ok = IsSorted-Parts (regions left) y (regions right) s in
    elim (Bool-cases (leb (add64 y.addr y.len) x.addr)) [
      | inl e ↦ rw e (
          Inserts-rightward x y left right h r ok (avl_insert true right x false)
            (end_le_of_test y x.addr ok.root e) (insert-Inserts right x r ok.right))
      | inr e ↦ elim (Bool-cases (leb (add64 x.addr x.len) y.addr)) [
        | inl e' ↦
            rw (e, e')
              (Inserts-leftward x y left right h r ok (avl_insert true left x false)
                (end_le_of_test x y.addr r e') (insert-Inserts left x r ok.left))
        | inr e' ↦
            let hit =
              collides_here x (regions left) y (regions right) (lt_end_of_test y x.addr ok.root e)
                (lt_end_of_test x y.addr r e') in
            rw (e, e') (sym hit, rw hit)
      ]
    ]
