-- ===== src/Protocol/Roundtrip/Keys.antt =====
-- The keys of tensors, as JSON and as its text.
use text.Mathlib.Text.{◌==◌ as same_text}
use text.Mathlib.TextEquality.{eq_iff}
use asystem_astate.Base.{
  ℕ, ◌^◌, ◌<◌, ◌≡◌, refl, ap, sym, ◌∙◌, true, eq→==, inl, inr, Bool-cases, some, some-injective,
  List, [], ◌∷◌, map, length, All, arith,
}
use asystem_astate.Shard.Types.{ShardedKey}
use asystem_astate.Protocol.Json.{Json, IsJson, check_required_field, check_field_type}
use asystem_astate.Protocol.Keys.{same_numbers, same_key, key_to_json, read_dims, key_from_json}
use asystem_astate.Protocol.Publish.{key_text}

-- The numbers are `int64_t`, and there are as many offsets as dimensions.
pub record IsKey (key : ShardedKey) : Type 0 where
  pub shape_words : All (λ (x : ℕ). x < 2 ^ 64) key.global_shape
  pub offset_words : All (λ (x : ℕ). x < 2 ^ 64) key.global_offset
  pub dims : length key.global_shape ≡ length key.global_offset

same_numbers_refl : (xs : List ℕ) → same_numbers xs xs ≡ true
unfolding same_numbers
same_numbers_refl [] = refl
same_numbers_refl (x ∷ xs) = rw (eq→== x x refl, same_numbers_refl xs) refl

same_numbers-eq : (xs ys : List ℕ) → same_numbers xs ys ≡ true → xs ≡ ys
unfolding same_numbers
same_numbers-eq [] [] h = refl
same_numbers-eq [] (y ∷ ys) h = absurd (cc h)
same_numbers-eq (x ∷ xs) [] h = absurd (cc h)
same_numbers-eq (x ∷ xs) (y ∷ ys) h = let same = same_numbers-eq xs ys in ground (arith, same)

pub same_key_refl : (k : ShardedKey) → same_key k k ≡ true
unfolding same_key
same_key_refl k =
    rw
      (
        (eq_iff k.key k.key).1 refl,
        same_numbers_refl k.global_shape,
        same_numbers_refl k.global_offset,
      )
      refl

key-ext :
    {a b : ShardedKey}
    → a.key ≡ b.key
    → a.global_shape ≡ b.global_shape
    → a.global_offset ≡ b.global_offset
    → a ≡ b
key-ext p q r = λ i. record { key = p i; global_shape = q i; global_offset = r i }

pub same_key-eq : (a b : ShardedKey) → same_key a b ≡ true → a ≡ b
unfolding same_key
same_key-eq a b h =
    let texts : same_text a.key b.key ≡ true = ground (arith, h) in
    let shapes : same_numbers a.global_shape b.global_shape ≡ true = ground (arith, h) in
    let offsets : same_numbers a.global_offset b.global_offset ≡ true = ground (arith, h) in
    key-ext ((eq_iff a.key b.key).0 texts) (same_numbers-eq a.global_shape b.global_shape shapes)
      (same_numbers-eq a.global_offset b.global_offset offsets)

module _ (json : Json) (laws : IsJson json) where
  read_dims-map :
      (xs : List ℕ)
      → All (λ (x : ℕ). x < 2 ^ 64) xs
      → read_dims json (map json.of_int64 xs) ≡ some xs
  unfolding read_dims
  read_dims-map [] h = refl
  read_dims-map (x ∷ xs) h =
      rw (laws.is_int64_int64 x, laws.as_int64_int64 x h.0, read_dims-map xs h.1) refl

  pub key-read : (k : ShardedKey) → IsKey k → key_from_json json (key_to_json json k) ≡ some k
  unfolding key_from_json key_to_json check_required_field check_field_type
  key-read k h = simp (
    laws.is_member_object,
    laws.member_object,
    laws.type_string,
    laws.type_array,
    laws.as_string_string,
    laws.elements_array,
    read_dims-map k.global_shape h.shape_words,
    read_dims-map k.global_offset h.offset_words,
    eq→== (length k.global_shape) (length k.global_offset) h.dims,
  )

  int64s-signed : (xs : List ℕ) → All laws.IsSigned (map json.of_int64 xs)
  int64s-signed [] = tt
  int64s-signed (x ∷ xs) = (laws.int64_signed x, int64s-signed xs)

  pub parse-text : (k : ShardedKey) → json.parse (key_text json k) ≡ some (key_to_json json k)
  unfolding key_to_json
  parse-text k = laws.read_back _ (
      laws.object_signed _ (
        laws.string_signed k.key,
        (
          laws.array_signed _ (int64s-signed k.global_shape),
          (laws.array_signed _ (int64s-signed k.global_offset), tt),
        ),
      ))

  -- Different keys have different texts.
  pub text-injective :
      (a b : ShardedKey) → IsKey a → IsKey b → key_text json a ≡ key_text json b → a ≡ b
  text-injective a b h k e = some-injective a b (
      sym (key-read a h)
      ∙ ap (key_from_json json)
          (some-injective _ _ (sym (parse-text a) ∙ ap json.parse e ∙ parse-text b))
      ∙ key-read b k)

  pub same_text-text :
      (a b : ShardedKey)
      → IsKey a
      → IsKey b
      → same_text (key_text json a) (key_text json b) ≡ same_key a b
  same_text-text a b h k = elim (Bool-cases (same_key a b)) [
    | inl same ↦
        rw same (
          (eq_iff (key_text json a) (key_text json b)).1
            (ap (key_text json) (same_key-eq a b same)))
    | inr differ ↦ elim (Bool-cases (same_text (key_text json a) (key_text json b))) [
      | inl t ↦
          let e = text-injective a b h k ((eq_iff (key_text json a) (key_text json b)).0 t) in
          absurd (cc (differ, ap (same_key a) e, same_key_refl a))
      | inr f ↦ f ∙ sym differ
    ]
  ]
