-- ===== src/Wire/Meta.antt =====
-- `ATensor` and what it holds. Integers are their bit patterns, below 2 ^ 64, 2 ^ 32 and 2 ^ 8. The
-- arrays of sizes and strides are lists; the pointer to the data is not part of the description.
use asystem_astate.Base.{ℕ, ◌+◌, ◌*◌, Bool, List}

pub record AtDevice : Type 0 where
  pub device_type : ℕ
  pub device_index : ℕ

pub record AtStorage : Type 0 where
  pub storage_size : ℕ
  pub device : AtDevice

pub record TensorMeta : Type 0 where
  pub size : List ℕ
  pub stride : List ℕ
  pub storage_offset : ℕ
  pub dim_num : ℕ
  pub dtype : ℕ
  pub conj : Bool
  pub neg : Bool
  pub requires_grad : Bool
  pub storage : AtStorage

-- `GetSizeSize` and `GetStrideSize`
unfoldable pub array_size : TensorMeta → ℕ
array_size t = 8 * t.dim_num

-- `GetStorageMetaSize`, with `GetAtDeviceSize`
unfoldable pub storage_meta_size : ℕ
storage_meta_size = 8 + (1 + 1)

-- `GetTotalMetaSize`
unfoldable pub total_meta_size : TensorMeta → ℕ
unfolding array_size storage_meta_size
total_meta_size t = array_size t + array_size t + 8 + 4 + 4 + 1 * 3 + storage_meta_size
