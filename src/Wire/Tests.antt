-- ===== src/Wire/Tests.antt =====
-- A tensor of 3 rows and 5 columns whose storage is larger than 4 GiB.
use asystem_astate.Base.{
  ℕ, true, false, none, some, List, [], ◌∷◌, ◌≡◌, refl, arith, ◌^◌, ◌+◌, length,
}
use asystem_astate.Wire.Meta.{TensorMeta, total_meta_size, array_size, storage_meta_size}
use asystem_astate.Wire.Serialize.{
  serialize_tensor_meta, serialize_to_string, zeros, deserialize_tensor_meta,
  deserialize_from_string,
}
use asystem_astate.Wire.Roundtrip.{
  IsMeta, restored, serialize-deserialize, string_overload_diverges,
}

abbrev weights : TensorMeta
weights = record {
  size = 3 ∷ 5 ∷ [];
  stride = 5 ∷ 1 ∷ [];
  storage_offset = 7;
  dim_num = 2;
  dtype = 6;
  conj = false;
  neg = true;
  requires_grad = true;
  storage = record {
    storage_size = 2 ^ 32 + 60;
    device = record { device_type = 1; device_index = 3 };
  };
}

weights-IsMeta : IsMeta weights
weights-IsMeta = record {
  dims = omega arith;
  sizes = refl;
  strides = refl;
  size_words = (omega arith, (omega arith, tt));
  stride_words = (omega arith, (omega arith, tt));
  dtype_byte = omega arith;
  index_byte = omega arith;
  type_byte = omega arith;
}

weights-restored : (restored weights).storage.storage_size ≡ 60
weights-restored = refl

serialize-deserialize_example :
    (buffer' : List ℕ) × (serialize_tensor_meta weights (zeros 64)
      ≡ some (buffer', total_meta_size weights))
    × (length buffer' ≡ length (zeros 64))
    × (deserialize_tensor_meta buffer' ≡ some (restored weights))
unfolding zeros total_meta_size array_size storage_meta_size
serialize-deserialize_example =
    serialize-deserialize weights (zeros 64) weights-IsMeta (omega arith)

string_overload_diverges_example :
    (text : List ℕ) × (serialize_to_string weights ≡ some text)
    × (length text ≡ total_meta_size weights)
    × (deserialize_tensor_meta text ≡ some (restored weights))
    × (deserialize_from_string 100 text ≡ none)
string_overload_diverges_example = string_overload_diverges weights 100 weights-IsMeta
