-- ===== src/Protocol/Tensors.antt =====
-- The description of a tensor (`ATensor`) as JSON. Unlike the binary encoding it has all fields. The
-- arrays of sizes and strides are taken to be allocated.
use asystem_astate.Base.{
  ℕ, zero, suc, ◌+◌, ◌-◌, ◌%◌, ◌^◌, ◌&&◌, ltb, ◌==◌, if◌then◌else◌, Option, none, some, ◌>>=◌, List,
  [], ◌∷◌, map, length,
}
use asystem_astate.Wire.Meta.{AtDevice, AtStorage, TensorMeta}
use asystem_astate.Wire.Serialize.{check_dim_num}
use asystem_astate.Protocol.Json.{
  Json, int_value, object_value, check_required_field, check_field_type,
}

-- The `int` with the value of an `int8_t`.
unfoldable pub int_of_int8 : ℕ → ℕ
int_of_int8 x = if ltb x 128 then x else x + (2 ^ 32 - 256)

-- The `int8_t` that an `int` is cast to.
unfoldable pub int8_of_int : ℕ → ℕ
int8_of_int x = x % 256

-- The elements of an array at the indices below `n`; `none` is an access past its end.
unfoldable pub first_elements : ℕ → List ℕ → Option (List ℕ)
first_elements zero xs = some []
first_elements (suc n) [] = none
first_elements (suc n) (x ∷ xs) = do ys ← first_elements n xs; some (x ∷ ys)

module _ (json : Json) where
  open json use {
    Value, object, array, member, elements, is_int, is_array, of_bool, of_int, of_int64, of_uint64,
    as_bool, as_int, as_int64, as_uint64,
  }

  unfoldable pub device_type_to_json : ℕ → Value
  device_type_to_json device_type = of_int (int_of_int8 device_type)

  unfoldable pub device_type_from_json : Value → Option ℕ
  device_type_from_json v = if is_int v then (do type ← as_int v; some (int8_of_int type)) else none

  unfoldable pub device_to_json : AtDevice → Value
  device_to_json device = object (
      ("device_type", device_type_to_json device.device_type)
      ∷ ("device_index", of_int (int_of_int8 device.device_index))
      ∷ [])

  unfoldable pub device_from_json : Value → Option AtDevice
  device_from_json root = do
    has_type ← check_required_field json root "device_type"
    has_index ← check_required_field json root "device_index"
    type_type ← check_field_type json root "device_type" int_value
    index_type ← check_field_type json root "device_index" int_value
    type ← member root "device_type"
    device_type ← device_type_from_json type
    index ← member root "device_index"
    device_index ← as_int index
    some (record { device_type = device_type; device_index = int8_of_int device_index })

  unfoldable pub storage_to_json : AtStorage → Value
  storage_to_json storage = object (
      ("storage_size", of_uint64 storage.storage_size)
      ∷ ("device", device_to_json storage.device)
      ∷ [])

  unfoldable pub storage_from_json : Value → Option AtStorage
  storage_from_json root = do
    has_size ← check_required_field json root "storage_size"
    has_device ← check_required_field json root "device"
    device_type ← check_field_type json root "device" object_value
    size ← member root "storage_size"
    storage_size ← as_uint64 size
    device_value ← member root "device"
    device ← device_from_json device_value
    some (record { storage_size = storage_size; device = device })

  -- The object of a description, whose arrays have the given elements.
  unfoldable pub tensor_object : TensorMeta → List ℕ → List ℕ → Value
  tensor_object t sizes strides = object (
      ("storage_offset", of_int64 t.storage_offset)
      ∷ ("dim_num", of_int t.dim_num)
      ∷ ("dtype", of_int (int_of_int8 t.dtype))
      ∷ ("conj", of_bool t.conj)
      ∷ ("neg", of_bool t.neg)
      ∷ ("requires_grad", of_bool t.requires_grad)
      ∷ ("size", array (map of_int64 sizes))
      ∷ ("stride", array (map of_int64 strides))
      ∷ ("storage", storage_to_json t.storage)
      ∷ [])

  unfoldable pub tensor_to_json : TensorMeta → Option Value
  tensor_to_json t = do
    sizes ← first_elements t.dim_num t.size
    strides ← first_elements t.dim_num t.stride
    some (tensor_object t sizes strides)

  unfoldable pub all_int64 : List Value → Option (List ℕ)
  all_int64 [] = some []
  all_int64 (v ∷ vs) = do x ← as_int64 v; xs ← all_int64 vs; some (x ∷ xs)

  -- An array with as many elements as a new array of `dim_num`, a signed number, has.
  unfoldable pub read_array : ℕ → Value → Option (List ℕ)
  read_array dim_num v =
      if is_array v && (length (elements v) == dim_num)
      then (do checked ← check_dim_num dim_num; all_int64 (elements v))
      else none

  unfoldable pub tensor_from_json : Value → Option TensorMeta
  tensor_from_json root = do
    has_offset ← check_required_field json root "storage_offset"
    has_dims ← check_required_field json root "dim_num"
    has_dtype ← check_required_field json root "dtype"
    has_conj ← check_required_field json root "conj"
    has_neg ← check_required_field json root "neg"
    has_grad ← check_required_field json root "requires_grad"
    has_size ← check_required_field json root "size"
    has_stride ← check_required_field json root "stride"
    has_storage ← check_required_field json root "storage"
    offset_value ← member root "storage_offset"
    storage_offset ← as_int64 offset_value
    dims_value ← member root "dim_num"
    dim_num ← as_int dims_value
    dtype_value ← member root "dtype"
    dtype ← as_int dtype_value
    conj_value ← member root "conj"
    conj ← as_bool conj_value
    neg_value ← member root "neg"
    neg ← as_bool neg_value
    grad_value ← member root "requires_grad"
    requires_grad ← as_bool grad_value
    size_value ← member root "size"
    size ← read_array dim_num size_value
    stride_value ← member root "stride"
    stride ← read_array dim_num stride_value
    storage_value ← member root "storage"
    storage ← storage_from_json storage_value
    some (record {
      size = size;
      stride = stride;
      storage_offset = storage_offset;
      dim_num = dim_num;
      dtype = int8_of_int dtype;
      conj = conj;
      neg = neg;
      requires_grad = requires_grad;
      storage = storage;
    })
