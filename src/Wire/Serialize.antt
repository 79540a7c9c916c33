-- ===== src/Wire/Serialize.antt =====
-- `SerializeTensorMeta` and `DeserializeTensorMeta`.
use asystem_astate.Base.{
  ℕ, zero, suc, Option, none, some, ◌^◌, ltb, if◌then◌else◌, ◌>>=◌, List, [], ◌∷◌,
}
use asystem_astate.Wire.Meta.{TensorMeta, total_meta_size}
use asystem_astate.Wire.Bytes.{put_int, put_array, put_bool, chain, get_int, get_array, get_bool}

-- The fields in the order in which they are written. `storage_size` is written as an `int32_t`.
abbrev pub fields : TensorMeta → List ℕ → List ℕ → List (List ℕ)
fields t sizes strides =
    put_int 4 t.dim_num
    ∷ sizes
    ∷ strides
    ∷ put_int 1 t.dtype
    ∷ put_bool t.conj
    ∷ put_bool t.neg
    ∷ put_bool t.requires_grad
    ∷ put_int 4 t.storage.storage_size
    ∷ put_int 1 t.storage.device.device_index
    ∷ put_int 1 t.storage.device.device_type
    ∷ []

-- The bytes that are written to the buffer.
unfoldable pub written : TensorMeta → Option (List ℕ)
written t = do
  sizes ← put_array t.dim_num t.size
  strides ← put_array t.dim_num t.stride
  some (chain (fields t sizes strides) [])

-- Bytes written from the start of a buffer; `none` if the buffer is too small.
unfoldable pub overwrite : List ℕ → List ℕ → Option (List ℕ)
overwrite [] buffer = some buffer
overwrite (b ∷ bs) [] = none
overwrite (b ∷ bs) (old ∷ buffer) = do rest ← overwrite bs buffer; some (b ∷ rest)

-- `SerializeTensorMeta` into a buffer: the buffer after the call, and the size that is returned.
unfoldable pub serialize_tensor_meta : TensorMeta → List ℕ → Option (List ℕ × ℕ)
serialize_tensor_meta t buffer = do
  bs ← written t
  buffer' ← overwrite bs buffer
  some (buffer', total_meta_size t)

unfoldable pub zeros : ℕ → List ℕ
zeros zero = []
zeros (suc n) = 0 ∷ zeros n

-- `SerializeTensorMeta` into a string of the total size.
unfoldable pub serialize_to_string : TensorMeta → Option (List ℕ)
unfolding zeros
serialize_to_string t = do r ← serialize_tensor_meta t (zeros (total_meta_size t)); some r.0

-- `new int64_t[dim_num]` throws (`none`) for a negative `int32_t`.
unfoldable pub check_dim_num : ℕ → Option {0} Unit
check_dim_num dim_num = if ltb dim_num (2 ^ 31) then some tt else none

-- `DeserializeTensorMeta` from a buffer. A new `ATensor` has the storage offset 0; of its storage
-- size, which is 0, the low four bytes are overwritten.
unfoldable pub deserialize_tensor_meta : List ℕ → Option TensorMeta
deserialize_tensor_meta buffer = do
  dims ← get_int 4 buffer
  checked ← check_dim_num dims.0
  sizes ← get_array dims.0 dims.1
  strides ← get_array dims.0 sizes.1
  dtype ← get_int 1 strides.1
  conj ← get_bool dtype.1
  neg ← get_bool conj.1
  grad ← get_bool neg.1
  storage ← get_int 4 grad.1
  index ← get_int 1 storage.1
  type ← get_int 1 index.1
  some (record {
    size = sizes.0;
    stride = strides.0;
    storage_offset = 0;
    dim_num = dims.0;
    dtype = dtype.0;
    conj = conj.0;
    neg = neg.0;
    requires_grad = grad.0;
    storage = record {
      storage_size = storage.0;
      device = record { device_type = type.0; device_index = index.0 };
    };
  })

-- `DeserializeTensorMeta` from a string; the inner `none` is the null pointer that it returns for an
-- empty string. The call in its body has a string as its argument, so it is a call of itself; `none`
-- is for too little fuel.
unfoldable pub deserialize_from_string : ℕ → List ℕ → Option (Option TensorMeta)
deserialize_from_string zero text = none
deserialize_from_string (suc fuel) [] = some none
deserialize_from_string (suc fuel) (b ∷ text) = deserialize_from_string fuel (b ∷ text)
