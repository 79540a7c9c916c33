-- ===== src/Table/Torch.antt =====
-- What the table uses of the tensor library: tensors with elements at coordinates, a copy of a
-- tensor, zeros, and the copy between two views that are narrowed to a block.
use asystem_astate.Base.{ℕ, ◌≡◌, List}
use asystem_astate.Shard.Copy.{differences}
use asystem_astate.Shard.Blocks.{InBlock}
use asystem_astate.Shard.Intersect.{sums}

pub record Torch : Type 1 where
  pub Tensor : Type 0
  pub scalar_type : Tensor → ℕ
  pub sizes : Tensor → List ℕ
  pub at : Tensor → List ℕ → ℕ
  pub clone : Tensor → Tensor
  pub zeros : List ℕ → ℕ → Tensor
  -- the target after the copy: source, target, offsets in both, and shape of the block
  pub copy_block : Tensor → Tensor → List ℕ → List ℕ → List ℕ → Tensor

pub record IsTorch (torch : Torch) : Type 0 where
  pub clone_type : (t : torch.Tensor) → torch.scalar_type (torch.clone t) ≡ torch.scalar_type t
  pub clone_sizes : (t : torch.Tensor) → torch.sizes (torch.clone t) ≡ torch.sizes t
  pub clone_at : (t : torch.Tensor) (cs : List ℕ) → torch.at (torch.clone t) cs ≡ torch.at t cs
  pub copy_type :
      (s t : torch.Tensor) (so to ns : List ℕ)
      → torch.scalar_type (torch.copy_block s t so to ns) ≡ torch.scalar_type t
  pub copy_sizes :
      (s t : torch.Tensor) (so to ns : List ℕ)
      → torch.sizes (torch.copy_block s t so to ns) ≡ torch.sizes t
  pub copy_inside :
      (s t : torch.Tensor) (so to ns cs : List ℕ)
      → InBlock cs to ns
      → torch.at (torch.copy_block s t so to ns) cs ≡ torch.at s (sums so (differences cs to))
  pub copy_outside :
      (s t : torch.Tensor) (so to ns cs : List ℕ)
      → (InBlock cs to ns → ⊥)
      → torch.at (torch.copy_block s t so to ns) cs ≡ torch.at t cs

-- A call returns, throws an exception, or reads a vector past its end, which is
-- undefined.
pub data Result (A : Type 0) : Type 0 where
  returns : A → Result A
  raises : Result A
  faults : Result A

infixl 5 ◌>>=◌
abbrev pub ◌>>=◌ : {A B : Type 0} → Result A → (A → Result B) → Result B
returns a >>= f = f a
raises >>= f = raises
faults >>= f = faults
