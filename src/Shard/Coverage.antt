-- ===== src/Shard/Coverage.antt =====
-- `CheckCandidatesCoverage` decides whether the candidates hold every element of the target.
use asystem_astate.Base.{
  ℕ, ◌+◌, ◌≤◌, ◌<◌, Bool, true, false, ◌&&◌, leb, if◌then◌else◌, List, [], ◌∷◌, ◌++◌, ◌⊎◌, inl, inr,
  ◌↔◌, ◌≡◌, refl, sym, ◌∙◌, Bool-cases, leb→lt, le→leb, All, arith,
}
use asystem_astate.Shard.Types.{
  ShardedKey, ATensor, Shard, Error, missing_interval, no_coverage, ok, throws,
}
use asystem_astate.Shard.Cover.{
  all_intervals, sort_by_start, merge_onto, is_covered, check_targets, check_sorted,
  check_candidates_coverage,
}
use asystem_astate.Shard.Rows.{Covers, Inside, Shaped}
use asystem_astate.Shard.Intervals.{HoldsAt, shard_intervals}
use asystem_astate.Shard.Merge.{
  StartsFrom, IsSeparated, IsSortedByStart, sort-IsSortedByStart, sort-Covers, merge-Covers,
  merge-IsSeparated,
}

-- Some candidate holds an element at position `k`.
abbrev pub HeldBy : List Shard → ℕ → Type 0
HeldBy [] k = ⊥
HeldBy (c ∷ cs) k = HoldsAt c.0 c.1 k ⊎ HeldBy cs k

abbrev pub AllShaped : List Shard → Type 0
AllShaped = All (λ (c : Shard). Shaped c.0 c.1)

-- The candidates hold every element of the target.
abbrev pub Covered : List Shard → ShardedKey → ATensor → Type 0
Covered candidates key tensor = (k : ℕ) → HoldsAt key tensor k → HeldBy candidates k

append-Covers : (is js : List (ℕ × ℕ)) (k : ℕ) → Covers (is ++ js) k ↔ (Covers is k ⊎ Covers js k)
append-Covers [] js k = (λ h. inr h, right)
  where
    right : ⊥ ⊎ Covers js k → Covers js k
    right (inr h) = h
    right (inl h) = absurd h
append-Covers (i ∷ is) js k = grind (arith, append-Covers is js k)

all_intervals-Covers :
    (candidates : List Shard)
    → AllShaped candidates
    → (is : List (ℕ × ℕ)) × (all_intervals candidates ≡ ok is)
      × ((k : ℕ) → Covers is k ↔ HeldBy candidates k)
unfolding all_intervals
all_intervals-Covers [] h = ([], refl, λ k. (λ c. c, λ c. c))
all_intervals-Covers (c ∷ candidates) h =
    let (is, e, f, _) = shard_intervals c.0 c.1 h.0 in
    let (js, e', g) = all_intervals-Covers candidates h.1 in
    (is ++ js, rw (e, e') refl, λ k. under (append-Covers is js k) (f k) (g k))
  where
    under : {A B C D E : Type 0} → (A ↔ (B ⊎ C)) → (B ↔ D) → (C ↔ E) → A ↔ (D ⊎ E)
    under f g h = grind (arith, f, g, h)

is_covered-Covers :
    (is : List (ℕ × ℕ)) (target : ℕ × ℕ) (k : ℕ)
    → is_covered is target ≡ true
    → Inside target k
    → Covers is k
unfolding is_covered
is_covered-Covers [] target k h i = absurd (ground (arith, h))
is_covered-Covers (j ∷ is) target k h i = elim (Bool-cases (leb j.0 target.0 && leb target.1 j.1)) [
  | inl e ↦ inl (inside j.0 j.1 target.0 target.1 e i)
  | inr e ↦ inr (is_covered-Covers is target k (sym (rw e refl) ∙ h) i)
]
  where
    inside : (a b c d : ℕ) → (leb a c && leb d b) ≡ true → Inside (c, d) k → Inside (a, b) k
    inside a b c d e i = ground arith

StartsFrom-le : (a : ℕ) (is : List (ℕ × ℕ)) (k : ℕ) → StartsFrom a is → Covers is k → a ≤ k
StartsFrom-le a [] k s h = absurd h
StartsFrom-le a (i ∷ is) k s (inl h) = omega (arith, s.0, h.0)
StartsFrom-le a (i ∷ is) k s (inr h) = StartsFrom-le a is k s.1 h

-- An interval that separated intervals cover lies in one of them.
Covers-is_covered :
    (is : List (ℕ × ℕ)) (target : ℕ × ℕ)
    → IsSeparated is
    → target.0 < target.1
    → ((k : ℕ) → Inside target k → Covers is k)
    → is_covered is target ≡ true
unfolding is_covered
Covers-is_covered [] target s lt h = absurd (h target.0 (omega arith, lt))
Covers-is_covered (j ∷ is) target s lt h = elim (h target.0 (omega arith, lt)) [
  | inl i ↦ elim (Bool-cases (leb target.1 j.1)) [
    | inl e ↦ rw (le→leb j.0 target.0 i.0, e) refl
    | inr e ↦ absurd (gap i.1 (h j.1 (omega (arith, i.1), leb→lt target.1 j.1 e)))
  ]
  | inr c ↦ otherwise (leb j.0 target.0 && leb target.1 j.1) (
      Covers-is_covered is target s.1 lt
        (λ k l. behind k (StartsFrom-le (j.1 + 1) is target.0 s.0 c) l (h k l)))
]
  where
    gap : target.0 < j.1 → Covers (j ∷ is) j.1 → ⊥
    gap lt (inl i) = omega (arith, i.1)
    gap lt (inr c) = omega (arith, StartsFrom-le (j.1 + 1) is j.1 s.0 c)

    behind : (k : ℕ) → j.1 + 1 ≤ target.0 → Inside target k → Covers (j ∷ is) k → Covers is k
    behind k b l (inl i) = absurd (omega (arith, b, l.0, i.1))
    behind k b l (inr c) = c

    otherwise : (b : Bool) → {c : Bool} → c ≡ true → (if b then true else c) ≡ true
    otherwise true e = refl
    otherwise false e = e

-- The targets are all contained in merged intervals, or one is not and the test throws.
check_targets-cases :
    (merged targets : List (ℕ × ℕ))
    → All (λ (i : ℕ × ℕ). i.0 < i.1) targets
    → ((check_targets merged targets ≡ ok tt) × ((k : ℕ) → Covers targets k → Covers merged k))
      ⊎ (((e : Error) × (check_targets merged targets ≡ throws e))
          × (t : ℕ × ℕ) × (t.0 < t.1)
          × (is_covered merged t ≡ false)
          × ((k : ℕ) → Inside t k → Covers targets k))
unfolding check_targets
check_targets-cases merged [] w = inl (refl, λ k h. absurd h)
check_targets-cases merged (t ∷ targets) w = elim (Bool-cases (is_covered merged t)) [
  | inl c ↦ rw c (elim (check_targets-cases merged targets w.1) [
    | inl r ↦ inl (r.0, covers c r.1)
    | inr (r, u, l, e, f) ↦ inr (r, u, l, e, λ k i. inr (f k i))
  ])
  | inr c ↦ inr ((missing_interval t.0 t.1, rw c refl), t, w.0, c, λ k i. inl i)
]
  where
    covers :
        is_covered merged t ≡ true
        → ((k : ℕ) → Covers targets k → Covers merged k)
        → (k : ℕ) → Covers (t ∷ targets) k
        → Covers merged k
    covers c f k (inl i) = is_covered-Covers merged t k c i
    covers c f k (inr h) = f k h

-- The test on sorted intervals.
check_sorted-cases :
    (is targets : List (ℕ × ℕ)) (k₀ : ℕ)
    → IsSortedByStart is
    → All (λ (i : ℕ × ℕ). i.0 < i.1) targets
    → Covers targets k₀
    → ((check_sorted is targets ≡ ok tt) × ((k : ℕ) → Covers targets k → Covers is k))
      ⊎ (((e : Error) × (check_sorted is targets ≡ throws e))
          × (((k : ℕ) → Covers targets k → Covers is k) → ⊥))
unfolding check_sorted
check_sorted-cases [] targets k₀ s w c = inr ((no_coverage, refl), λ f. f k₀ c)
check_sorted-cases (i ∷ is) targets k₀ s w c =
    elim (check_targets-cases (merge_onto i is) targets w) [
      | inl r ↦ inl (r.0, λ k h. (merge-Covers i is k s).0 (r.1 k h))
      | inr (r, t, l, e, f) ↦ inr (
        r,
        λ g. differ (
            sym e
            ∙ Covers-is_covered (merge_onto i is) t (merge-IsSeparated i is s) l
                (λ k h. (merge-Covers i is k s).1 (g k (f k h)))),
      )
    ]
  where
    differ : false ≡ true → ⊥
    differ e = ground (arith, e)

-- Take a target with an element, and candidates, all with vectors that have one element for each
-- dimension. CheckCandidatesCoverage compares row-major positions, each in the global shape of its
-- own shard: it returns if every position of an element of the target is that of an element of a
-- candidate, and throws if one is not. That the shards have one shape or lie in it is not assumed.
pub check_candidates_coverage-decides :
    (candidates : List Shard) (key : ShardedKey) (tensor : ATensor) (k₀ : ℕ)
    → AllShaped candidates
    → Shaped key tensor
    → HoldsAt key tensor k₀
    → (Covered candidates key tensor × (check_candidates_coverage candidates key tensor ≡ ok tt))
      ⊎ ((Covered candidates key tensor → ⊥)
          × (e : Error) × (check_candidates_coverage candidates key tensor ≡ throws e))
unfolding check_candidates_coverage
check_candidates_coverage-decides candidates key tensor k₀ hc ht h₀ =
    let (ts, et, ft, nonempty) = shard_intervals key tensor ht in
    let (is, ei, fi) = all_intervals-Covers candidates hc in
    rw (et, ei)
      (elim (check_sorted-cases (sort_by_start is) ts k₀ (sort-IsSortedByStart is) (nonempty k₀ h₀)
        ((ft k₀).1 h₀)) [
          | inl r ↦ inl (λ k h. (fi k).0 ((sort-Covers is k).0 (r.1 k ((ft k).1 h))), r.0)
          | inr r ↦
              inr
                (λ g. r.1 (λ k c. (sort-Covers is k).1 ((fi k).1 (g k ((ft k).0 c)))), r.0.0, r.0.1)
        ])
