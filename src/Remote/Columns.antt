-- ===== src/Remote/Columns.antt =====
-- The parts that a tensor is resharded into have its columns side by side.
use asystem_astate.Base.{
  ℕ, zero, suc, ◌+◌, ◌-◌, ◌*◌, leb, ◌≤◌, ◌<◌, ◌≡◌, ◌↔◌, refl, ap, Bool-cases, leb→le, leb→lt,
  le→leb, inl, inr, some, List, [], ◌∷◌, length, Any, arith,
}
use asystem_astate.Shard.Types.{ShardedKey}
use asystem_astate.Shard.Blocks.{InBlock}
use asystem_astate.Remote.Reshard.{
  ReshardingInfo, move_columns, reshard_from, Part, whole, narrow, narrow_all,
}

abbrev column_of : List ℕ → ℕ
column_of (row ∷ column ∷ offsets) = column
column_of _ = 0

-- The part of a source has the element at row `x`, column `c` and coordinates `cs`, of `rows` rows and
-- sizes `ns`, where the source, whose first column is `base`, has it.
abbrev pub HasPart : ℕ → List ℕ → ℕ → ℕ → ℕ → List ℕ → Part → Type 0
HasPart rows ns base x c cs (whole key) = ⊥
HasPart rows ns base x c cs (narrow key dim_index start count) =
    (dim_index ≡ 1)
    × InBlock (x ∷ c ∷ cs) key.global_offset (rows ∷ count ∷ ns)
    × (start + (c - column_of key.global_offset) ≡ c - base)

next_start : (i split : ℕ) → (i + 1) * split ≡ i * split + split
next_start i split = grind arith

next_width : (count split : ℕ) → suc count * split ≡ split + count * split
next_width count split = grind arith

narrow_step :
    (columns : ℕ) (info : ReshardingInfo) (infos : List ReshardingInfo) (parts : List Part)
    → info.start + info.offset ≤ columns
    → narrow_all columns infos ≡ some parts
    → narrow_all columns (info ∷ infos)
      ≡ some (narrow info.sharded_key info.dim_index info.start info.offset ∷ parts)
unfolding narrow_all
narrow_step columns info infos parts l e = rw (e, le→leb (info.start + info.offset) columns l) refl

narrow_none : (columns : ℕ) → narrow_all columns [] ≡ some []
unfolding narrow_all
narrow_none columns = refl

reshard_step :
    (key : ShardedKey) (row base : ℕ) (offsets : List ℕ) (split i count : ℕ)
    (infos : List ReshardingInfo)
    → key.global_offset ≡ row ∷ base ∷ offsets
    → reshard_from key split (i + 1) count ≡ some infos
    → reshard_from key split i (suc count)
      ≡ some (
          record {
            sharded_key = record key { global_offset = row ∷ (base + i * split) ∷ offsets };
            dim_index = 1;
            start = i * split;
            offset = split;
          }
          ∷ infos)
unfolding reshard_from move_columns
reshard_step key row base offsets split i count infos e f =
    rw (ap (move_columns (i * split)) e, f) refl

-- The loop from `i` on gives the `count` pieces of `split` columns that follow the first `i`.
pub reshard_from-HasPart :
    (key : ShardedKey) (row base : ℕ) (offsets : List ℕ) (split columns i count : ℕ)
    → key.global_offset ≡ row ∷ base ∷ offsets
    → i * split + count * split ≤ columns
    → (infos : List ReshardingInfo) × (parts : List Part) × (reshard_from key split i count
        ≡ some infos)
      × (narrow_all columns infos ≡ some parts)
      × (length infos ≡ count)
      × ((rows : ℕ) (ns : List ℕ) (x c : ℕ) (cs : List ℕ)
          → InBlock (x ∷ c ∷ cs) (row ∷ base ∷ offsets) (rows ∷ columns ∷ ns)
          → ((base + i * split ≤ c) × (c < base + (i * split + count * split)))
            ↔ Any (HasPart rows ns base x c cs) parts)
unfolding reshard_from
reshard_from-HasPart key row base offsets split columns i zero e l = (
  [],
  [],
  refl,
  narrow_none columns,
  refl,
  λ rows ns x c cs h. (λ b. omega (arith, b.0, b.1, none_wide split), λ a. absurd a),
)
  where
    none_wide : (split : ℕ) → 0 * split ≡ 0
    none_wide split = omega arith
reshard_from-HasPart key row base offsets split columns i (suc count) e l =
    let start = next_start i split in
    let width = next_width count split in
    let (infos, parts, e', n, len, has) =
      reshard_from-HasPart key row base offsets split columns (i + 1) count e
        (omega (arith, l, start, width)) in
    let info : ReshardingInfo = record {
      sharded_key = record key { global_offset = row ∷ (base + i * split) ∷ offsets };
      dim_index = 1;
      start = i * split;
      offset = split;
    } in
    (
      info ∷ infos,
      narrow info.sharded_key 1 (i * split) split ∷ parts,
      reshard_step key row base offsets split i count infos e e',
      narrow_step columns info infos parts (omega (arith, l, width)) n,
      ap suc len,
      λ rows ns x c cs h.
          let rest = has rows ns x c cs h in
          (
            λ b. elim (Bool-cases (leb (base + i * split + split) c)) [
              | inr less ↦ inl (
                refl,
                (h.0, h.1, (omega (arith, b.0), leb→lt (base + i * split + split) c less, h.2.2)),
                omega (arith, b.0),
              )
              | inl more ↦ inr (
                  rest.0 (
                    omega (arith, leb→le (base + i * split + split) c more, start),
                    omega (arith, b.1, start, width),
                  ))
            ],
            λ a. elim a [
              | inl p ↦ (omega (arith, p.1.2.0), omega (arith, p.1.2.1, width))
              | inr q ↦
                  let b = rest.1 q in (omega (arith, b.0, start), omega (arith, b.1, start, width))
            ],
          ),
    )
