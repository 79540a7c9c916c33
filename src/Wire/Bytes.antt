-- ===== src/Wire/Bytes.antt =====
-- `memcpy` between integers and a buffer, on a little-endian machine. A buffer is a list of bytes;
-- `none` is an access past its end, or past the end of an array.
use asystem_astate.Base.{
  ℕ, zero, suc, ◌+◌, ◌*◌, ◌/◌, ◌%◌, Bool, true, false, ◌==◌, not, Option, none, some, ◌>>=◌, List,
  [], ◌∷◌, ◌++◌,
}

-- The low `n` bytes of an integer.
unfoldable pub put_int : ℕ → ℕ → List ℕ
put_int zero x = []
put_int (suc n) x = x % 256 ∷ put_int n (x / 256)

-- The first `n` elements of an array of `int64_t`.
unfoldable pub put_array : ℕ → List ℕ → Option (List ℕ)
put_array zero xs = some []
put_array (suc n) [] = none
put_array (suc n) (x ∷ xs) = do bs ← put_array n xs; some (put_int 8 x ++ bs)

abbrev pub put_bool : Bool → List ℕ
put_bool true = 1 ∷ []
put_bool false = 0 ∷ []

-- The fields one after the other, in front of the rest of a buffer.
abbrev pub chain : List (List ℕ) → List ℕ → List ℕ
chain [] rest = rest
chain (c ∷ cs) rest = c ++ chain cs rest

-- An integer of `n` bytes from the buffer, and the rest of the buffer.
unfoldable pub get_int : ℕ → List ℕ → Option (ℕ × List ℕ)
get_int zero bs = some (0, bs)
get_int (suc n) [] = none
get_int (suc n) (b ∷ bs) = do r ← get_int n bs; some (b + 256 * r.0, r.1)

unfoldable pub get_array : ℕ → List ℕ → Option (List ℕ × List ℕ)
get_array zero bs = some ([], bs)
get_array (suc n) bs = do x ← get_int 8 bs; r ← get_array n x.1; some (x.0 ∷ r.0, r.1)

unfoldable pub get_bool : List ℕ → Option (Bool × List ℕ)
get_bool [] = none
get_bool (b ∷ bs) = some (not (b == 0), bs)
