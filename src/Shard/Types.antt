-- ===== src/Shard/Types.antt =====
-- The data of src/core/tensor_sharded_ops.cpp. The `int64_t` values are sizes and offsets, which are
-- not negative; their sums and products are taken to fit, since an overflow is undefined there.
use Prim.Native.String.{String}
use asystem_astate.Base.{ℕ, zero, suc, List, [], ◌∷◌}

pub record ShardedKey : Type 0 where
  pub key : String
  pub global_shape : List ℕ
  pub global_offset : List ℕ

-- The fields of `ATensor` that the functions read.
pub record ATensor : Type 0 where
  pub size : List ℕ
  pub dim_num : ℕ
  pub dtype : ℕ

-- `std::pair<ShardedKey, ATensor>`
abbrev pub Shard : Type 0
Shard = ShardedKey × ATensor

pub record CopyOperation : Type 0 where
  pub candidate_index : ℕ
  pub src_offset : List ℕ
  pub target_offset : List ℕ
  pub copy_shape : List ℕ

-- The `std::runtime_error` that is thrown, with the numbers in its text.
pub data Error : Type 0 where
  no_candidates target_dims candidate_dims candidate_dtype candidate_shape no_coverage : Error
  dims_differ tensor_dims_differ dtype_differs shape_differs : Error
  target_exceeds source_exceeds : ℕ → Error
  missing_interval : ℕ → ℕ → Error

-- A call returns, throws, or reads a vector past its end, which is undefined in the source.
pub data Outcome {ℓ} (A : Type ℓ) : Type ℓ where
  ok : A → Outcome A
  throws : Error → Outcome A
  fault : Outcome A

infixl 5 ◌>>=◌
abbrev pub ◌>>=◌ {ℓ κ} : {A : Type ℓ} {B : Type κ} → Outcome A → (A → Outcome B) → Outcome B
ok a >>= f = f a
throws e >>= f = throws e
fault >>= f = fault

infixl 5 ◌>>◌
abbrev pub ◌>>◌ {ℓ κ} : {A : Type ℓ} {B : Type κ} → Outcome A → Outcome B → Outcome B
ok a >> o = o
throws e >> o = throws e
fault >> o = fault

-- Reads the elements of a vector at the indices below `n`.
unfoldable pub prefix : ℕ → List ℕ → Outcome (List ℕ)
prefix zero xs = ok []
prefix (suc n) [] = fault
prefix (suc n) (x ∷ xs) = do ys ← prefix n xs; ok (x ∷ ys)
