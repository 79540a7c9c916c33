-- ===== src/Helpers/Sorting.antt =====
-- `sort_strs` sorts.
use asystem_astate.Base.{
  ℕ, zero, suc, true, false, List, [], ◌∷◌, length, ◌≡◌, refl, sym, ap, inl, inr, Bool-cases, All,
  arith, subst,
}
use mathlib.Core.List.{Permᴰ}
use asystem_astate.Helpers.Strings.{Str, strcmp_gt, sweep, sort_strs}

-- `strcmp(a, b) <= 0`
abbrev pub NotAfter : Str → Str → Type 0
NotAfter a b = strcmp_gt a b ≡ false

abbrev pub IsSortedStrs : List Str → Type 0
IsSortedStrs [] = Unit
IsSortedStrs (x ∷ xs) = All (NotAfter x) xs × IsSortedStrs xs

NotAfter-of_gt : (a b : Str) → strcmp_gt a b ≡ true → NotAfter b a
unfolding strcmp_gt
NotAfter-of_gt [] b h = absurd (ground (arith, h))
NotAfter-of_gt (x ∷ a) [] h = refl
NotAfter-of_gt (x ∷ a) (y ∷ b) h = ground (arith, NotAfter-of_gt a b)

NotAfter-trans : (a b c : Str) → NotAfter a b → NotAfter b c → NotAfter a c
unfolding strcmp_gt
NotAfter-trans [] b c h k = refl
NotAfter-trans (x ∷ a) [] c h k = absurd (ground (arith, h))
NotAfter-trans (x ∷ a) (y ∷ b) [] h k = absurd (ground (arith, k))
NotAfter-trans (x ∷ a) (y ∷ b) (z ∷ c) h k = ground (arith, NotAfter-trans a b c)

-- The sweep leaves a least string in front.
sweep-All :
    (x : Str) (ys : List Str)
    → NotAfter (sweep x ys).0 x × All (NotAfter (sweep x ys).0) (sweep x ys).1
unfolding sweep
sweep-All x [] = (reflexive x, tt)
  where
    reflexive : (x : Str) → NotAfter x x
    reflexive x = elim (Bool-cases (strcmp_gt x x)) [ inl e ↦ NotAfter-of_gt x x e | inr e ↦ e ]
sweep-All x (y ∷ ys) = elim (Bool-cases (strcmp_gt x y)) [
  | inl e ↦
      let r = sweep-All y ys in
      let l = NotAfter-trans (sweep y ys).0 y x r.0 (NotAfter-of_gt x y e) in rw e (l, (l, r.1))
  | inr e ↦ let r = sweep-All x ys in rw e (r.0, (NotAfter-trans (sweep x ys).0 x y r.0 e, r.1))
]

sweep-Permᴰ : (x : Str) (ys : List Str) → Permᴰ ((sweep x ys).0 ∷ (sweep x ys).1) (x ∷ ys)
unfolding sweep
sweep-Permᴰ x [] = Permᴰ.cons refl Permᴰ.nil
sweep-Permᴰ x (y ∷ ys) = elim (Bool-cases (strcmp_gt x y)) [
  | inl e ↦ rw e (Permᴰ.trans (Permᴰ.swap refl refl) (Permᴰ.cons refl (sweep-Permᴰ y ys)))
  | inr e ↦ rw e (
      Permᴰ.trans (Permᴰ.trans (Permᴰ.swap refl refl) (Permᴰ.cons refl (sweep-Permᴰ x ys)))
        (Permᴰ.swap refl refl))
]

length-sweep : (x : Str) (ys : List Str) → length (sweep x ys).1 ≡ length ys
unfolding sweep
length-sweep x [] = refl
length-sweep x (y ∷ ys) = elim (Bool-cases (strcmp_gt x y)) [
  | inl e ↦ rw e (ap suc (length-sweep y ys))
  | inr e ↦ rw e (ap suc (length-sweep x ys))
]

sort_strs-Permᴰ : (n : ℕ) (strs : List Str) → Permᴰ (sort_strs n strs) strs
unfolding sort_strs
sort_strs-Permᴰ zero [] = Permᴰ.nil
sort_strs-Permᴰ zero (x ∷ strs) = Permᴰ.cons refl (sort_strs-Permᴰ zero strs)
sort_strs-Permᴰ (suc n) [] = Permᴰ.nil
sort_strs-Permᴰ (suc n) (x ∷ strs) =
    Permᴰ.trans (Permᴰ.cons refl (sort_strs-Permᴰ n (sweep x strs).1)) (sweep-Permᴰ x strs)

All-Permᴰ : (P : Str → Type 0) {xs ys : List Str} → Permᴰ xs ys → All P ys → All P xs
All-Permᴰ P Permᴰ.nil h = tt
All-Permᴰ P (Permᴰ.cons e d) h = (subst P (sym e) h.0, All-Permᴰ P d h.1)
All-Permᴰ P (Permᴰ.swap e f) h = (subst P (sym e) h.1.0, (subst P (sym f) h.0, h.1.1))
All-Permᴰ P (Permᴰ.trans d c) h = All-Permᴰ P d (All-Permᴰ P c h)

sorted_of_length : (n : ℕ) (strs : List Str) → length strs ≡ n → IsSortedStrs (sort_strs n strs)
unfolding sort_strs
sorted_of_length zero [] e = tt
sorted_of_length zero (x ∷ strs) e = absurd (omega (arith, e))
sorted_of_length (suc n) [] e = tt
sorted_of_length (suc n) (x ∷ strs) e = (
  All-Permᴰ (NotAfter (sweep x strs).0) (sort_strs-Permᴰ n (sweep x strs).1) (sweep-All x strs).1,
  sorted_of_length n (sweep x strs).1 (omega (arith, length-sweep x strs, e)),
)

-- Sorting an array of strings gives a permutation of it in the order of `strcmp`.
pub sort_strs-IsSortedStrs :
    (strs : List Str)
    → IsSortedStrs (sort_strs (length strs) strs) × Permᴰ (sort_strs (length strs) strs) strs
sort_strs-IsSortedStrs strs =
    (sorted_of_length (length strs) strs refl, sort_strs-Permᴰ (length strs) strs)
