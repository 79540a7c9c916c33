-- ===== src/Protocol/Roundtrip/Tensors.antt =====
-- The descriptions of tensors.
use asystem_astate.Base.{
  ℕ, zero, suc, ◌^◌, ◌<◌, ◌≡◌, refl, ap, lt→ltb, some, List, [], ◌∷◌, map, length, All, arith,
}
use asystem_astate.Wire.Meta.{AtDevice, AtStorage, TensorMeta}
use asystem_astate.Wire.Serialize.{check_dim_num}
use asystem_astate.Protocol.Json.{
  Json, IsJson, object_value, check_required_field, check_field_type,
}
use asystem_astate.Protocol.Tensors.{
  int_of_int8, int8_of_int, first_elements, device_type_to_json, device_type_from_json,
  device_to_json, device_from_json, storage_to_json, storage_from_json, tensor_object,
  tensor_to_json, all_int64, read_array, tensor_from_json,
}

-- The fields have the widths of their types, and the arrays `dim_num` elements.
pub record IsDevice (d : AtDevice) : Type 0 where
  pub type_byte : d.device_type < 2 ^ 8
  pub index_byte : d.device_index < 2 ^ 8

pub record IsTensor (t : TensorMeta) : Type 0 where
  pub dims : t.dim_num < 2 ^ 31
  pub sizes : length t.size ≡ t.dim_num
  pub strides : length t.stride ≡ t.dim_num
  pub size_words : All (λ (x : ℕ). x < 2 ^ 64) t.size
  pub stride_words : All (λ (x : ℕ). x < 2 ^ 64) t.stride
  pub offset_word : t.storage_offset < 2 ^ 64
  pub dtype_byte : t.dtype < 2 ^ 8
  pub storage_word : t.storage.storage_size < 2 ^ 64
  pub device : IsDevice t.storage.device

int8-int : (x : ℕ) → x < 2 ^ 8 → (int_of_int8 x < 2 ^ 32) × (int8_of_int (int_of_int8 x) ≡ x)
unfolding int_of_int8 int8_of_int
int8-int x h = (ground (arith), ground (arith))

first_elements-all : (n : ℕ) (xs : List ℕ) → length xs ≡ n → first_elements n xs ≡ some xs
unfolding first_elements
first_elements-all zero [] e = refl
first_elements-all zero (x ∷ xs) e = absurd (omega (arith, e))
first_elements-all (suc n) [] e = absurd (omega (arith, e))
first_elements-all (suc n) (x ∷ xs) e = rw (first_elements-all n xs (omega (arith, e))) refl

length-map : {A : Type 0} (f : ℕ → A) (xs : List ℕ) → length (map f xs) ≡ length xs
length-map f [] = refl
length-map f (x ∷ xs) = ap suc (length-map f xs)

module _ (json : Json) (laws : IsJson json) where
  all_int64-map :
      (xs : List ℕ)
      → All (λ (x : ℕ). x < 2 ^ 64) xs
      → all_int64 json (map json.of_int64 xs) ≡ some xs
  unfolding all_int64
  all_int64-map [] h = refl
  all_int64-map (x ∷ xs) h = rw (laws.as_int64_int64 x h.0, all_int64-map xs h.1) refl

  array-read :
      (n : ℕ) (xs : List ℕ)
      → n < 2 ^ 31
      → length xs ≡ n
      → All (λ (x : ℕ). x < 2 ^ 64) xs
      → read_array json n (json.array (map json.of_int64 xs)) ≡ some xs
  unfolding read_array check_dim_num
  array-read n xs b e h =
      rw (laws.is_array_array, laws.elements_array, length-map json.of_int64 xs, e)
        (rw (lt→ltb n (2 ^ 31) b, all_int64-map xs h) (ground arith))

  device-read : (d : AtDevice) → IsDevice d → device_from_json json (device_to_json json d) ≡ some d
  unfolding device_from_json device_to_json device_type_from_json device_type_to_json
      check_required_field check_field_type
  device-read d h =
      let (type_word, type_byte) = int8-int d.device_type h.type_byte in
      let (index_word, index_byte) = int8-int d.device_index h.index_byte in
      simp (
        laws.is_member_object,
        laws.member_object,
        laws.type_int,
        laws.is_int_int,
        laws.as_int_int (int_of_int8 d.device_type) type_word,
        laws.as_int_int (int_of_int8 d.device_index) index_word,
        type_byte,
        index_byte,
      )

  device-type : (d : AtDevice) → json.type_of (device_to_json json d) ≡ object_value
  unfolding device_to_json
  device-type d = laws.type_object _

  storage-read :
      (s : AtStorage)
      → s.storage_size < 2 ^ 64
      → IsDevice s.device
      → storage_from_json json (storage_to_json json s) ≡ some s
  unfolding storage_from_json storage_to_json check_required_field check_field_type
  storage-read s w h = simp (
    laws.is_member_object,
    laws.member_object,
    device-type,
    laws.as_uint64_uint64 s.storage_size w,
    device-read s.device h,
  )

  -- If the fields of a description have the widths of their types and its arrays `dim_num` elements,
  -- then the description is written as JSON and read back with all of its fields.
  pub tensor-read :
      (t : TensorMeta)
      → IsTensor t
      → (v : json.Value) × (tensor_to_json json t ≡ some v)
        × (tensor_from_json json v ≡ some t)
        × (json.type_of v ≡ object_value)
  unfolding tensor_from_json tensor_object tensor_to_json check_required_field
  tensor-read t h =
      let (dtype_word, dtype_byte) = int8-int t.dtype h.dtype_byte in
      (
        tensor_object json t t.size t.stride,
        rw
            (
              first_elements-all t.dim_num t.size h.sizes,
              first_elements-all t.dim_num t.stride h.strides,
            )
            refl,
        simp (
          laws.is_member_object,
          laws.member_object,
          laws.as_int64_int64 t.storage_offset h.offset_word,
          laws.as_int_int t.dim_num (omega (arith, h.dims)),
          laws.as_int_int (int_of_int8 t.dtype) dtype_word,
          dtype_byte,
          laws.as_bool_bool,
          array-read t.dim_num t.size h.dims h.sizes h.size_words,
          array-read t.dim_num t.stride h.dims h.strides h.stride_words,
          storage-read t.storage h.storage_word h.device,
        ),
        laws.type_object _,
      )
