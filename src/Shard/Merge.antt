-- ===== src/Shard/Merge.antt =====
-- Sorting and merging intervals keeps what they cover, and leaves gaps between them.
use asystem_astate.Base.{
  ℕ, ◌+◌, ◌≤◌, ◌<◌, ltb, leb, max, List, [], ◌∷◌, ◌⊎◌, inl, inr, ◌↔◌, Bool-cases, ltb→lt, ltb→le,
  leb→le, leb→lt, All, All-imp, arith,
}
use asystem_astate.Shard.Cover.{insert_by_start, sort_by_start, merge_onto}
use asystem_astate.Shard.Rows.{Covers, Inside}

-- Every interval starts at `a` or later.
abbrev pub StartsFrom : ℕ → List (ℕ × ℕ) → Type 0
StartsFrom a = All (λ (i : ℕ × ℕ). a ≤ i.0)

abbrev pub IsSortedByStart : List (ℕ × ℕ) → Type 0
IsSortedByStart [] = Unit
IsSortedByStart (i ∷ is) = StartsFrom i.0 is × IsSortedByStart is

-- Sorted, with a gap after every interval.
abbrev pub IsSeparated : List (ℕ × ℕ) → Type 0
IsSeparated [] = Unit
IsSeparated (i ∷ is) = StartsFrom (i.1 + 1) is × IsSeparated is

StartsFrom-imp : (a b : ℕ) (is : List (ℕ × ℕ)) → a ≤ b → StartsFrom b is → StartsFrom a is
StartsFrom-imp a b is h = All-imp (λ i k. omega (arith, h, k)) is

StartsFrom-insert :
    (a : ℕ) (i : ℕ × ℕ) (is : List (ℕ × ℕ))
    → a ≤ i.0
    → StartsFrom a is
    → StartsFrom a (insert_by_start i is)
unfolding insert_by_start
StartsFrom-insert a i [] h k = (h, tt)
StartsFrom-insert a i (j ∷ is) h k = elim (Bool-cases (ltb j.0 i.0)) [
  | inl e ↦ rw e (k.0, StartsFrom-insert a i is h k.1)
  | inr e ↦ rw e (h, k)
]

insert-IsSortedByStart :
    (i : ℕ × ℕ) (is : List (ℕ × ℕ)) → IsSortedByStart is → IsSortedByStart (insert_by_start i is)
unfolding insert_by_start
insert-IsSortedByStart i [] h = (tt, tt)
insert-IsSortedByStart i (j ∷ is) h = elim (Bool-cases (ltb j.0 i.0)) [
  | inl e ↦ rw e (
    StartsFrom-insert j.0 i is (omega (arith, ltb→lt j.0 i.0 e)) h.0,
    insert-IsSortedByStart i is h.1,
  )
  | inr e ↦ let le = ltb→le j.0 i.0 e in rw e ((le, StartsFrom-imp i.0 j.0 is le h.0), h)
]

pub sort-IsSortedByStart : (is : List (ℕ × ℕ)) → IsSortedByStart (sort_by_start is)
unfolding sort_by_start
sort-IsSortedByStart [] = tt
sort-IsSortedByStart (i ∷ is) =
    insert-IsSortedByStart i (sort_by_start is) (sort-IsSortedByStart is)

insert-Covers :
    (i : ℕ × ℕ) (is : List (ℕ × ℕ)) (k : ℕ)
    → Covers (insert_by_start i is) k ↔ (Inside i k ⊎ Covers is k)
unfolding insert_by_start
insert-Covers i [] k = (λ h. h, λ h. h)
insert-Covers i (j ∷ is) k = elim (Bool-cases (ltb j.0 i.0)) [
  | inl e ↦ rw e (swap (insert-Covers i is k))
  | inr e ↦ rw e (λ h. h, λ h. h)
]
  where
    swap : {A B C D : Type 0} → (A ↔ (B ⊎ C)) → ((D ⊎ A) ↔ (B ⊎ D ⊎ C))
    swap f = grind (arith, f)

pub sort-Covers : (is : List (ℕ × ℕ)) (k : ℕ) → Covers (sort_by_start is) k ↔ Covers is k
unfolding sort_by_start
sort-Covers [] k = (λ h. h, λ h. h)
sort-Covers (i ∷ is) k = under (insert-Covers i (sort_by_start is) k) (sort-Covers is k)
  where
    under : {A B C D : Type 0} → (A ↔ (B ⊎ C)) → (C ↔ D) → A ↔ (B ⊎ D)
    under f g = grind (arith, f, g)

-- Two intervals that meet.
joined :
    (a b c d k : ℕ) → a ≤ c → c ≤ b → Inside (a, max b d) k ↔ (Inside (a, b) k ⊎ Inside (c, d) k)
joined a b c d k h g = (λ i. split i.0 i.1, unite)
  where
    split : a ≤ k → k < max b d → Inside (a, b) k ⊎ Inside (c, d) k
    split l u = grind (arith, l, u, g)

    unite : Inside (a, b) k ⊎ Inside (c, d) k → Inside (a, max b d) k
    unite (inl i) = (i.0, omega (arith, i.1))
    unite (inr i) = (omega (arith, h, i.0), omega (arith, i.1))

-- What the merged intervals cover is what the intervals cover.
pub merge-Covers :
    (last : ℕ × ℕ) (is : List (ℕ × ℕ)) (k : ℕ)
    → IsSortedByStart (last ∷ is)
    → Covers (merge_onto last is) k ↔ Covers (last ∷ is) k
unfolding merge_onto
merge-Covers last [] k s = (λ h. h, λ h. h)
merge-Covers last (i ∷ is) k s = elim (Bool-cases (leb i.0 last.1)) [
  | inl e ↦ rw e (
      regroup (merge-Covers (last.0, max last.1 i.1) is k (s.0.1, s.1.1))
        (joined last.0 last.1 i.0 i.1 k s.0.0 (leb→le i.0 last.1 e)))
  | inr e ↦ rw e (behind (merge-Covers i is k s.1))
]
  where
    regroup : {A B C D E : Type 0} → (A ↔ (B ⊎ C)) → (B ↔ (D ⊎ E)) → A ↔ (D ⊎ E ⊎ C)
    regroup f g = grind (arith, f, g)

    behind : {A B C : Type 0} → (A ↔ B) → (C ⊎ A) ↔ (C ⊎ B)
    behind f = grind (arith, f)

StartsFrom-merge :
    (a : ℕ) (last : ℕ × ℕ) (is : List (ℕ × ℕ))
    → a ≤ last.0
    → StartsFrom a is
    → StartsFrom a (merge_onto last is)
unfolding merge_onto
StartsFrom-merge a last [] h k = (h, tt)
StartsFrom-merge a last (i ∷ is) h k = elim (Bool-cases (leb i.0 last.1)) [
  | inl e ↦ rw e (StartsFrom-merge a (last.0, max last.1 i.1) is h k.1)
  | inr e ↦ rw e (h, StartsFrom-merge a i is k.0 k.1)
]

pub merge-IsSeparated :
    (last : ℕ × ℕ) (is : List (ℕ × ℕ))
    → IsSortedByStart (last ∷ is)
    → IsSeparated (merge_onto last is)
unfolding merge_onto
merge-IsSeparated last [] s = (tt, tt)
merge-IsSeparated last (i ∷ is) s = elim (Bool-cases (leb i.0 last.1)) [
  | inl e ↦ rw e (merge-IsSeparated (last.0, max last.1 i.1) is (s.0.1, s.1.1))
  | inr e ↦
      let gap = leb→lt i.0 last.1 e in
      rw e (
        StartsFrom-merge (last.1 + 1) i is (omega (arith, gap))
            (StartsFrom-imp (last.1 + 1) i.0 is (omega (arith, gap)) s.1.0),
        merge-IsSeparated i is s.1,
      )
]
