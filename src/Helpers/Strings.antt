-- ===== src/Helpers/Strings.antt =====
-- `sort_strs` and `match_patterns`. A string is the list of its bytes, without the NUL at its end.
use asystem_astate.Base.{
  ℕ, zero, suc, Bool, true, false, not, ◌&&◌, ltb, ◌==◌, if◌then◌else◌, Option, none, some, List,
  [], ◌∷◌,
}

abbrev pub Str : Type 0
Str = List ℕ

-- `strcmp(a, b) > 0`
unfoldable pub strcmp_gt : Str → Str → Bool
strcmp_gt [] b = false
strcmp_gt (x ∷ a) [] = true
strcmp_gt (x ∷ a) (y ∷ b) =
    let rest = strcmp_gt a b in if ltb y x then true else if x == y then rest else false

-- The inner loop of `sort_strs`: `strs[i]`, and the strings behind it, after the loop.
unfoldable pub sweep : Str → List Str → Str × List Str
sweep x [] = (x, [])
sweep x (y ∷ ys) =
    let swapped = sweep y ys in
    let kept = sweep x ys in
    if strcmp_gt x y then (swapped.0, x ∷ swapped.1) else (kept.0, y ∷ kept.1)

-- The outer loop, over the `num_strs` strings of the array.
unfoldable pub sort_strs : ℕ → List Str → List Str
sort_strs zero strs = strs
sort_strs (suc num_strs) [] = []
sort_strs (suc num_strs) (x ∷ strs) = (sweep x strs).0 ∷ sort_strs num_strs (sweep x strs).1

-- `strchr(start, ',')`: what is before the comma, and behind it if there is one.
unfoldable pub split_at_comma : Str → Str × Option Str
split_at_comma [] = ([], none)
split_at_comma (c ∷ cs) =
    let r = split_at_comma cs in if c == 44 then ([], some cs) else (c ∷ r.0, r.1)

unfoldable pub is_empty : Str → Bool
is_empty [] = true
is_empty (c ∷ cs) = false

-- `fnmatch pattern str` says that the C function returns 0.
module _ (fnmatch : Str → Str → Bool) (str : Str) where
  -- One turn of the loop: the pattern before the comma, and what is behind the comma, if there is
  -- one. `again` is the next turn.
  unfoldable pub match_turn : Str → Str → Option Str → (Str → Option Bool) → Option Bool
  unfolding is_empty
  match_turn start pattern none again = some (fnmatch start str)
  match_turn start pattern (some rest) again =
      if not (is_empty pattern) && fnmatch pattern str then some true else again rest

  -- `none` is for too little fuel.
  unfoldable pub match_patterns : ℕ → Str → Option Bool
  match_patterns zero start = none
  match_patterns (suc fuel) start =
      match_turn start (split_at_comma start).0 (split_at_comma start).1 (match_patterns fuel)
