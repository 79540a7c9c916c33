-- ===== src/Protocol/Keys.antt =====
-- `ShardedKey` as JSON, and its equality.
use text.Mathlib.Text.{◌==◌ as same_text}
use asystem_astate.Base.{
  ℕ, Bool, true, false, ◌&&◌, ◌==◌, if◌then◌else◌, Option, none, some, ◌>>=◌, List, [], ◌∷◌, map,
  length,
}
use asystem_astate.Shard.Types.{ShardedKey}
use asystem_astate.Protocol.Json.{
  Json, string_value, array_value, check_required_field, check_field_type,
}

unfoldable pub same_numbers : List ℕ → List ℕ → Bool
same_numbers [] [] = true
same_numbers [] (y ∷ ys) = false
same_numbers (x ∷ xs) [] = false
same_numbers (x ∷ xs) (y ∷ ys) = x == y && same_numbers xs ys

-- `operator==`
unfoldable pub same_key : ShardedKey → ShardedKey → Bool
same_key a b =
    same_text a.key b.key
    && same_numbers a.global_shape b.global_shape
    && same_numbers a.global_offset b.global_offset

module _ (json : Json) where
  open json use {
    Value, object, array, member, elements, of_string, of_int64, as_string, as_int64, is_int64,
  }

  unfoldable pub key_to_json : ShardedKey → Value
  key_to_json key = object (
      ("key", of_string key.key)
      ∷ ("global_shape", array (map of_int64 key.global_shape))
      ∷ ("global_offset", array (map of_int64 key.global_offset))
      ∷ [])

  -- The loop over the elements of an array.
  unfoldable pub read_dims : List Value → Option (List ℕ)
  read_dims [] = some []
  read_dims (v ∷ vs) = do
    dim ← if is_int64 v then as_int64 v else none
    dims ← read_dims vs
    some (dim ∷ dims)

  unfoldable pub key_from_json : Value → Option ShardedKey
  key_from_json root = do
    has_key ← check_required_field json root "key"
    has_shape ← check_required_field json root "global_shape"
    has_offset ← check_required_field json root "global_offset"
    key_type ← check_field_type json root "key" string_value
    shape_type ← check_field_type json root "global_shape" array_value
    offset_type ← check_field_type json root "global_offset" array_value
    key_value ← member root "key"
    key ← as_string key_value
    shape_array ← member root "global_shape"
    shape ← read_dims (elements shape_array)
    offset_array ← member root "global_offset"
    offset ← read_dims (elements offset_array)
    if length shape == length offset
        then some (record { key = key; global_shape = shape; global_offset = offset })
        else none
