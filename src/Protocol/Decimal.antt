-- ===== src/Protocol/Decimal.antt =====
-- `std::to_string` of an unsigned integer, and `std::stoull`.
use Prim.Native.Char.{Char, code}
use Prim.Native.String.{String, [], ◌∷◌}
use native.Mathlib.Nat.{pow-suc}
use asystem_astate.Base.{
  ℕ, zero, suc, ◌+◌, ◌-◌, ◌*◌, ◌/◌, ◌%◌, ◌^◌, ◌<◌, ◌≡◌, refl, ap, ◌∙◌, inl, inr, Bool-cases, ltb→lt,
  Bool, true, ◌&&◌, ◌||◌, ltb, leb, ◌==◌, if◌then◌else◌, Option, none, some, ◌>>=◌, arith,
}

-- The digit of a number below 10.
unfoldable pub digit : ℕ → Char
digit zero = "0"
digit (suc zero) = "1"
digit (suc (suc zero)) = "2"
digit (suc (suc (suc zero))) = "3"
digit (suc (suc (suc (suc zero)))) = "4"
digit (suc (suc (suc (suc (suc zero))))) = "5"
digit (suc (suc (suc (suc (suc (suc zero)))))) = "6"
digit (suc (suc (suc (suc (suc (suc (suc zero))))))) = "7"
digit (suc (suc (suc (suc (suc (suc (suc (suc zero)))))))) = "8"
digit (suc (suc (suc (suc (suc (suc (suc (suc (suc n))))))))) = "9"

-- The decimal digits in front of a text, on fuel. With `fuel` turns, a number below 10 ^ `fuel` is
-- complete.
unfoldable pub push_digits : ℕ → ℕ → String → String
push_digits zero n rest = rest
push_digits (suc fuel) n rest =
    let more = push_digits fuel (n / 10) (digit (n % 10) ∷ rest) in
    if ltb n 10 then digit n ∷ rest else more

-- 20 digits are enough for 64 bits.
unfoldable pub to_string : ℕ → String
to_string n = push_digits 20 n []

unfoldable pub is_digit : Char → Bool
is_digit c = leb 48 (code c) && leb (code c) 57

-- The number that the leading digits continue.
unfoldable pub read_digits : ℕ → String → ℕ
read_digits n [] = n
read_digits n (c ∷ rest) =
    let more = read_digits (n * 10 + (code c - 48)) rest in if is_digit c then more else n

-- Digits, of which there must be one; too large a number throws.
unfoldable pub read_number : String → Option ℕ
read_number [] = none
read_number (c ∷ rest) =
    let n = read_digits 0 (c ∷ rest) in
    if is_digit c then (if ltb n (2 ^ 64) then some n else none) else none

-- Behind a sign; a minus gives the number's negative modulo 2 ^ 64.
unfoldable pub read_signed : String → Option ℕ
read_signed [] = none
read_signed (c ∷ rest) =
    if code c == 43
    then read_number rest
    else if code c == 45
    then (do n ← read_number rest; some ((2 ^ 64 - n) % 2 ^ 64))
    else read_number (c ∷ rest)

-- Behind white space.
unfoldable pub stoull : String → Option ℕ
stoull [] = none
stoull (c ∷ rest) =
    let skipped = stoull rest in
    if code c == 32 || (leb 9 (code c) && leb (code c) 13) then skipped else read_signed (c ∷ rest)

-- The first character of a number is a digit.
data StartsWithDigit : String → Type 0 where
  starts : (c : Char) (rest : String) → is_digit c ≡ true → StartsWithDigit (c ∷ rest)

digit-code : (n : ℕ) → n < 10 → code (digit n) ≡ 48 + n
unfolding digit
digit-code zero h = refl
digit-code (suc zero) h = refl
digit-code (suc (suc zero)) h = refl
digit-code (suc (suc (suc zero))) h = refl
digit-code (suc (suc (suc (suc zero)))) h = refl
digit-code (suc (suc (suc (suc (suc zero))))) h = refl
digit-code (suc (suc (suc (suc (suc (suc zero)))))) h = refl
digit-code (suc (suc (suc (suc (suc (suc (suc zero))))))) h = refl
digit-code (suc (suc (suc (suc (suc (suc (suc (suc zero)))))))) h = refl
digit-code (suc (suc (suc (suc (suc (suc (suc (suc (suc zero))))))))) h = refl
digit-code (suc (suc (suc (suc (suc (suc (suc (suc (suc (suc n)))))))))) h =
    absurd (omega (arith, h))

is_digit-digit : (n : ℕ) → n < 10 → is_digit (digit n) ≡ true
unfolding is_digit
is_digit-digit n h = rw (digit-code n h) (ground arith)

read-digit :
    (m n : ℕ) (rest : String)
    → n < 10
    → read_digits m (digit n ∷ rest) ≡ read_digits (m * 10 + n) rest
unfolding read_digits
read-digit m n rest h =
    rw (is_digit-digit n h) (ap (λ (k : ℕ). read_digits k rest) (omega (arith, digit-code n h)))

read-push :
    (fuel n : ℕ) (rest : String)
    → n < 10 ^ fuel
    → read_digits 0 (push_digits fuel n rest) ≡ read_digits n rest
unfolding push_digits
read-push zero n rest h = ap (λ (k : ℕ). read_digits k rest) (omega (arith, h))
read-push (suc fuel) n rest h = elim (Bool-cases (ltb n 10)) [
  | inl small ↦
      rw small
        (read-digit 0 n rest (ltb→lt n 10 small) ∙ ap (λ (k : ℕ). read_digits k rest) (omega arith))
  | inr large ↦ rw large (
      read-push fuel (n / 10) (digit (n % 10) ∷ rest) (omega (arith, h, pow-suc 10 fuel))
      ∙ read-digit (n / 10) (n % 10) rest (omega arith)
      ∙ ap (λ (k : ℕ). read_digits k rest) (omega arith))
]

starts-push :
    (fuel n : ℕ) (rest : String)
    → (fuel ≡ 0 → StartsWithDigit rest)
    → StartsWithDigit (push_digits fuel n rest)
unfolding push_digits
starts-push zero n rest s = s refl
starts-push (suc fuel) n rest s = elim (Bool-cases (ltb n 10)) [
  | inl small ↦ rw small (starts (digit n) rest (is_digit-digit n (ltb→lt n 10 small)))
  | inr large ↦ rw large (
      starts-push fuel (n / 10) (digit (n % 10) ∷ rest)
        (λ _. starts (digit (n % 10)) rest (is_digit-digit (n % 10) (omega arith))))
]

stoull-digits :
    (text : String)
    → StartsWithDigit text
    → read_digits 0 text < 2 ^ 64
    → stoull text ≡ some (read_digits 0 text)
unfolding stoull read_signed read_number is_digit
stoull-digits text (starts c rest d) h = ground arith

pub stoull-to_string : (n : ℕ) → n < 2 ^ 64 → stoull (to_string n) ≡ some n
unfolding to_string read_digits
stoull-to_string n h =
    let e = read-push 20 n [] (omega (arith, h)) in
    let s = starts-push 20 n [] (λ z. absurd (omega (arith, z))) in
    stoull-digits (push_digits 20 n []) s (rw e h) ∙ ap some e
