-- ===== src/Helpers/Patterns.antt =====
-- `match_patterns` tries the patterns between the commas.
use asystem_astate.Base.{
  ℕ, zero, suc, ◌<◌, Bool, true, false, not, ◌&&◌, ◌||◌, ◌==◌, if◌then◌else◌, Option, none, some,
  List, [], ◌∷◌, length, ◌≡◌, refl, ◌⊎◌, inl, inr, Bool-cases, arith,
}
use asystem_astate.Helpers.Strings.{Str, split_at_comma, is_empty, match_turn, match_patterns}

-- The fields between the commas; the first one, and the others.
abbrev pub fields : Str → Str × List Str
fields [] = ([], [])
fields (c ∷ cs) = let r = fields cs in if c == 44 then ([], r.0 ∷ r.1) else (c ∷ r.0, r.1)

-- A field matches. An empty field counts only if it is the last one.
abbrev pub some_match : (Str → Bool) → Str → List Str → Bool
some_match accepts field [] = accepts field
some_match accepts field (next ∷ later) =
    (not (is_empty field) && accepts field) || some_match accepts next later

-- How the fields of a string relate to its first comma.
split-fields :
    (s : Str)
    → ((split_at_comma s).1 ≡ none) × (fields s ≡ (s, []))
      ⊎ ((rest : Str) × ((split_at_comma s).1 ≡ some rest)
          × (length rest < length s)
          × (fields s ≡ ((split_at_comma s).0, (fields rest).0 ∷ (fields rest).1)))
unfolding split_at_comma
split-fields [] = inl (refl, refl)
split-fields (c ∷ cs) = elim (Bool-cases (c == 44)) [
  | inl e ↦ rw e (inr (cs, refl, omega arith, refl))
  | inr e ↦ rw e (elim (split-fields cs) [
    | inl r ↦ inl (r.0, rw r.1 refl)
    | inr (rest, f, l, g) ↦ inr (rest, f, omega (arith, l), rw g refl)
  ])
]

-- With more fuel than the list of patterns has characters, the loop returns whether a pattern
-- between commas matches, of which an empty one counts only behind the last comma.
pub match_patterns-some_match :
    (fnmatch : Str → Str → Bool) (str : Str) (fuel : ℕ) (patterns : Str)
    → length patterns < fuel
    → match_patterns fnmatch str fuel patterns
      ≡ some (some_match (λ p. fnmatch p str) (fields patterns).0 (fields patterns).1)
unfolding match_patterns match_turn
match_patterns-some_match fnmatch str zero patterns l = absurd (omega (arith, l))
match_patterns-some_match fnmatch str (suc fuel) patterns l = elim (split-fields patterns) [
  | inl r ↦ rw (r.0, r.1) refl
  | inr (rest, f, b, g) ↦
      rw (f, g)
        (step
          (not (is_empty (split_at_comma patterns).0) && fnmatch (split_at_comma patterns).0 str)
          (match_patterns-some_match fnmatch str fuel rest (omega (arith, b, l))))
]
  where
    step :
        (matches : Bool)
        → {o : Option Bool} {later : Bool} → o ≡ some later
        → (if matches then some true else o) ≡ some (matches || later)
    step true e = refl
    step false e = e
