-- ===== src/Remote/Parts.antt =====
-- What `GetOrCreateLocalReshardTensors` gives away of a tensor.
use asystem_astate.Base.{
  ℕ, ◌+◌, ◌*◌, ◌/◌, ◌==◌, ◌≤◌, ◌<◌, ◌≡◌, ◌↔◌, refl, ap, true, false, lt→leb, none, some, List, ◌∷◌,
  length, Any, arith,
}
use native.Mathlib.Nat.{le-div_iff_mul-le}
use asystem_astate.Shard.Types.{ShardedKey}
use asystem_astate.Shard.Blocks.{InBlock}
use asystem_astate.Remote.Reshard.{
  ReshardingInfo, reshard_from, second, reshard_tensor, Part, narrow_all, ReshardingMap, find_infos,
  find_or_reshard, get_or_create_local_reshard_tensors,
}
use asystem_astate.Remote.Columns.{HasPart, reshard_from-HasPart}

positive : (n : ℕ) → 0 < n → (n == 0) ≡ false
positive n l = ground (arith, l)

module _ (small_tensor_size byte_size infer_tp_size : ℕ) (key : ShardedKey)
    (row base whole_rows whole_columns rows columns : ℕ) (offsets shape sizes : List ℕ)
    (resharding_map : ReshardingMap) where
  -- A large tensor that is to be resharded, for the first time.
  pub record IsResharded : Type 0 where
    pub large : small_tensor_size < byte_size
    pub configured : 0 < infer_tp_size
    pub new : find_infos key resharding_map ≡ none
    pub offset : key.global_offset ≡ row ∷ base ∷ offsets
    pub global_shape : key.global_shape ≡ whole_rows ∷ whole_columns ∷ shape
    pub split : 0 < whole_columns / infer_tp_size
    pub has_pieces : whole_columns / infer_tp_size ≤ columns

  abbrev pub split_size : ℕ
  split_size = whole_columns / infer_tp_size

  computed_infos :
      IsResharded
      → (infos : List ReshardingInfo)
      → reshard_from key split_size 0 (columns / split_size) ≡ some infos
      → reshard_tensor infer_tp_size key (rows ∷ columns ∷ sizes) ≡ some infos
  unfolding reshard_tensor second
  computed_infos h infos e =
      rw
        (
          reshard_tensor,
          positive infer_tp_size h.configured,
          ap second h.global_shape,
          positive split_size h.split,
          e,
        )
        refl

  infos_of_call :
      IsResharded
      → (infos : List ReshardingInfo)
      → reshard_from key split_size 0 (columns / split_size) ≡ some infos
      → find_or_reshard infer_tp_size key (rows ∷ columns ∷ sizes) resharding_map
        ≡ some ((key, infos) ∷ resharding_map, infos)
  unfolding find_or_reshard
  infos_of_call h infos e = rw (find_or_reshard, h.new, computed_infos h infos e) refl

  parts_of_call :
      IsResharded
      → (infos : List ReshardingInfo) (parts : List Part)
      → reshard_from key split_size 0 (columns / split_size) ≡ some infos
      → narrow_all columns infos ≡ some parts
      → 0 < length infos
      → get_or_create_local_reshard_tensors true small_tensor_size byte_size infer_tp_size key
          (rows ∷ columns ∷ sizes)
          resharding_map
        ≡ some ((key, infos) ∷ resharding_map, parts)
  unfolding get_or_create_local_reshard_tensors second
  parts_of_call h infos parts e n l =
      rw
        (
          get_or_create_local_reshard_tensors,
          lt→leb small_tensor_size byte_size h.large,
          infos_of_call h infos e,
          positive (length infos) l,
          n,
        )
        refl

  -- Take a resharding key that is not in the resharding map yet, with a tensor above the small
  -- size, of two dimensions or more, a positive number of inference ranks, and at least as many
  -- columns as one of them has, which is at least one. Then the call gives the tensor away in
  -- parts, and an element of the tensor is in a part, where the tensor has it, exactly if it does
  -- not stand behind the last whole multiple of the columns of an inference rank.
  pub reshard_iff :
      IsResharded
      → (resharding_map' : ReshardingMap) × (parts : List Part)
        × (get_or_create_local_reshard_tensors true small_tensor_size byte_size infer_tp_size key
              (rows ∷ columns ∷ sizes)
              resharding_map
            ≡ some (resharding_map', parts))
        × ((x c : ℕ) (cs : List ℕ)
            → InBlock (x ∷ c ∷ cs) (row ∷ base ∷ offsets) (rows ∷ columns ∷ sizes)
            → (c < base + columns / split_size * split_size)
              ↔ Any (HasPart rows sizes base x c cs) parts)
  reshard_iff h =
      let (infos, parts, e, n, len, has) =
        reshard_from-HasPart key row base offsets split_size columns 0 (columns / split_size)
          h.offset
          (omega (arith, (le-div_iff_mul-le h.split).0 (at_least (columns / split_size)))) in
      let pieces : 0 < columns / split_size =
        (le-div_iff_mul-le h.split).1 (omega (arith, h.has_pieces)) in
      (
        (key, infos) ∷ resharding_map,
        parts,
        parts_of_call h infos parts e n (omega (arith, len, pieces)),
        λ x c cs i.
            let covered = has rows sizes x c cs i in
            (
              λ l. covered.0 (omega (arith, i.2.0), omega (arith, l)),
              λ a. omega (arith, (covered.1 a).1),
            ),
      )
    where
      at_least : (n : ℕ) → n ≤ n
      at_least n = omega arith
