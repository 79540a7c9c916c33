-- ===== src/MrSet/Find.antt =====
-- `avl_find` on the list of regions.
use asystem_astate.Base.{
  ℕ, ◌+◌, ◌^◌, ◌<◌, ◌≤◌, ◌≡◌, refl, sym, ◌∙◌, ◌&&◌, none, some, List, [], ◌∷◌, ◌++◌, inl, inr, leb,
  leb→le, leb→lt, Bool-cases, if◌then◌else◌, All, All-imp, arith,
}
use asystem_astate.MrSet.Node.{Region, AvlNode, null, node, add64}
use asystem_astate.MrSet.Tree.{avl_find}
use asystem_astate.MrSet.Sorted.{
  regions, end_of, IsRegion, IsBefore, IsSorted, containing, Parts, IsSorted-Parts, end_le_of_test,
  lt_end_of_test,
}

module _ (addr len : ℕ) (some_len : 0 < len) where
  -- Regions that end before `addr` contain nothing of the range.
  containing_before :
      (xs ys : List Region)
      → All (λ y. end_of y ≤ addr) xs
      → containing addr len (xs ++ ys) ≡ containing addr len ys
  containing_before [] ys h = refl
  containing_before (y ∷ xs) ys h = ground (arith, containing_before xs ys h.1)

  -- Nor do regions that start after `addr`.
  containing_after :
      (ys : List Region) → All (λ y. addr < y.addr) ys → containing addr len ys ≡ none
  containing_after [] h = refl
  containing_after (y ∷ ys) h = ground (arith, containing_after ys h.1)

  containing_drop_after :
      (xs ys : List Region)
      → All (λ y. addr < y.addr) ys
      → containing addr len (xs ++ ys) ≡ containing addr len xs
  containing_drop_after [] ys h = containing_after ys h
  containing_drop_after (y ∷ xs) ys h = ground (arith, containing_drop_after xs ys h)

  containing_short :
      (ys : List Region) → All (λ y. end_of y < addr + len) ys → containing addr len ys ≡ none
  containing_short [] h = refl
  containing_short (y ∷ ys) h = ground (arith, containing_short ys h.1)

  -- Where the range meets `x`, only `x` can contain it.
  containing_meets :
      (xs : List Region) (x : Region) (ys : List Region)
      → Parts xs x ys
      → addr < end_of x
      → x.addr < addr + len
      → containing addr len (xs ++ x ∷ ys)
        ≡ (if leb x.addr addr && leb (addr + len) (end_of x) then some x else none)
  containing_meets xs x ys ok h k = elim (Bool-cases (leb x.addr addr)) [
    | inl e ↦
        containing_before xs (x ∷ ys)
          (All-imp (λ z (q : IsBefore z x). omega (arith, leb→le x.addr addr e)) xs ok.before)
        ∙ ground
            (arith, containing_after ys (All-imp (λ z (q : IsBefore x z). omega arith) ys ok.after))
    | inr e ↦
        containing_drop_after xs (x ∷ ys) (
          leb→lt x.addr addr e,
          All-imp (λ z (q : IsBefore x z). omega (arith, leb→lt x.addr addr e)) ys ok.after,
        )
        ∙ ground (
          arith,
          containing_short xs (All-imp (λ z (q : IsBefore z x). omega arith) xs ok.before),
        )
  ]

  module _ (fits : addr + len < 2 ^ 64) where
    probe : Region
    probe = record { addr = addr; len = len; value = 1 }

    probe-IsRegion : IsRegion probe
    unfolding probe
    probe-IsRegion = record { not_empty = some_len; fits = fits; has_item = omega arith }

    -- On a tree that has its regions in order, `avl_find` finds the region that contains the whole
    -- range, if there is one.
    pub find-eq-containing :
        (t : AvlNode) → IsSorted (regions t) → avl_find t addr len ≡ containing addr len (regions t)
    unfolding avl_find probe
    find-eq-containing null s = refl
    find-eq-containing (node x left right h) s =
        let ok = IsSorted-Parts (regions left) x (regions right) s in
        elim (Bool-cases (leb (add64 addr len) x.addr)) [
          | inl e ↦
              let b : addr + len ≤ x.addr = end_le_of_test probe x.addr probe-IsRegion e in
              rw e (
                find-eq-containing left ok.left
                ∙ sym (
                    containing_drop_after (regions left) (x ∷ regions right) (
                      omega arith,
                      All-imp (λ z (q : IsBefore x z). omega arith) (regions right) ok.after,
                    )))
          | inr e ↦ elim (Bool-cases (leb (add64 x.addr x.len) addr)) [
            | inl e₂ ↦
                let b : end_of x ≤ addr = end_le_of_test x addr ok.root e₂ in
                rw (e, e₂)
                  (find-eq-containing right ok.right
                    ∙ sym (containing_before (x ∷ []) (regions right) (b, tt))
                    ∙ sym (
                        containing_before (regions left) (x ∷ regions right)
                          (All-imp (λ z (q : IsBefore z x). omega arith) (regions left) ok.before)))
            | inr e₂ ↦
                let m =
                  containing_meets (regions left) x (regions right) ok
                    (lt_end_of_test x addr ok.root e₂)
                    (lt_end_of_test probe x.addr probe-IsRegion e) in
                rw (e, e₂, m) (ground (arith, ok.root.fits))
          ]
        ]
