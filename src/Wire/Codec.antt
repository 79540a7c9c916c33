-- ===== src/Wire/Codec.antt =====
-- Integers, arrays and flags are read back from the bytes that they are put into.
use asystem_astate.Base.{
  ℕ, zero, suc, ◌*◌, ◌/◌, ◌%◌, ◌^◌, ◌<◌, Bool, true, false, some, List, [], ◌∷◌, ◌++◌, length,
  length-append, append_assoc, All, ◌≡◌, refl, ap, arith,
}
use native.Mathlib.Nat.{pow-suc}
use asystem_astate.Wire.Bytes.{put_int, put_array, put_bool, get_int, get_array, get_bool}

pub put-get-int :
    (n x : ℕ) (rest : List ℕ) → x < 256 ^ n → get_int n (put_int n x ++ rest) ≡ some (x, rest)
unfolding get_int put_int
put-get-int zero x rest h = ap (λ (y : ℕ). some (y, rest)) (omega (arith, h))
put-get-int (suc n) x rest h =
    rw (put-get-int n (x / 256) rest (omega (arith, h, pow-suc 256 n)))
      (ap (λ (y : ℕ). some (y, rest)) (omega arith))

pub length-put_int : (n x : ℕ) → length (put_int n x) ≡ n
unfolding put_int
length-put_int zero x = refl
length-put_int (suc n) x = ap suc (length-put_int n (x / 256))

pub put-get-bool : (b : Bool) (rest : List ℕ) → get_bool (put_bool b ++ rest) ≡ some (b, rest)
unfolding get_bool
put-get-bool true rest = refl
put-get-bool false rest = refl

-- The low four bytes of a larger integer.
pub put_int-low : (x : ℕ) → put_int 4 x ≡ put_int 4 (x % 2 ^ 32)
unfolding put_int
put_int-low x = cc (byte₀, byte₁, byte₂, byte₃)
  where
    byte₀ : x % 256 ≡ x % 2 ^ 32 % 256
    byte₀ = omega arith

    byte₁ : x / 256 % 256 ≡ x % 2 ^ 32 / 256 % 256
    byte₁ = omega arith

    byte₂ : x / 256 / 256 % 256 ≡ x % 2 ^ 32 / 256 / 256 % 256
    byte₂ = omega arith

    byte₃ : x / 256 / 256 / 256 % 256 ≡ x % 2 ^ 32 / 256 / 256 / 256 % 256
    byte₃ = omega arith

pub put-get-array :
    (n : ℕ) (xs rest : List ℕ)
    → length xs ≡ n
    → All (λ (x : ℕ). x < 2 ^ 64) xs
    → (bs : List ℕ) × (put_array n xs ≡ some bs)
      × (get_array n (bs ++ rest) ≡ some (xs, rest))
      × (length bs ≡ 8 * n)
unfolding get_array put_array
put-get-array zero [] rest e h = ([], refl, refl, refl)
put-get-array zero (x ∷ xs) rest e h = absurd (omega (arith, e))
put-get-array (suc n) [] rest e h = absurd (omega (arith, e))
put-get-array (suc n) (x ∷ xs) rest e h =
    let (bs, p, g, l) = put-get-array n xs rest (omega (arith, e)) h.1 in
    (
      put_int 8 x ++ bs,
      rw p refl,
      rw (append_assoc (put_int 8 x) bs rest, put-get-int 8 x (bs ++ rest) h.0, g) refl,
      rw (length-append, length-put_int 8 x, l) (omega arith),
    )
