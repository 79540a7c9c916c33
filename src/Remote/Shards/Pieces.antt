-- ===== src/Remote/Shards/Pieces.antt =====
-- The loop over the operations: every element that an operation names is in the piece that is added for it.
use asystem_astate.Base.{
  ℕ, zero, suc, ◌≤◌, ◌<◌, ◌≡◌, refl, sym, ap, ◌∙◌, subst, Bool, inl, inr, some, some-injective,
  List, [], ◌∷◌, map, get_elem?, All, Any, arith,
}
use asystem_astate.Shard.Types.{Shard, CopyOperation, ok}
use asystem_astate.Shard.Rows.{Holds}
use asystem_astate.Shard.Regions.{Belongs, InRegion, CopiesShared}
use asystem_astate.Shard.Complete.{Filled}
use asystem_astate.Remote.Shards.{Placed, Meta, shard_of, Piece, set_placed, piece_of, pieces}
use asystem_astate.Remote.Shards.Ordered.{Ordered}
use asystem_astate.Remote.Shards.Adjusted.{item_at, IsWellPlaced, Keeps, piece_of-Keeps}

-- The shard is one of the list.
abbrev pub IsIn : Meta → List Meta → Type 0
IsIn meta = Any (λ (x : Meta). x ≡ meta)

-- The piece is of a shard of the list, before which it does not begin, and both have the element at
-- `coords` in the same place.
abbrev pub Delivers : List Meta → List ℕ → Piece → Type 0
Delivers metas coords piece =
    (meta : Meta) × IsIn meta metas
    × (piece.raw ≡ meta.0)
    × Holds meta.0 meta.1.tensor coords
    × Holds piece.adjusted piece.placed.tensor coords
    × (item_at piece.adjusted piece.placed coords ≡ item_at meta.0 meta.1 coords)
    × (meta.1.storage_offset ≤ piece.placed.storage_offset)

-- Shards with `dims` dimensions.
abbrev pub AllPlaced : ℕ → List Meta → Type 0
AllPlaced dims = All (λ (meta : Meta). IsWellPlaced meta × (meta.1.tensor.dim_num ≡ dims))

get-set_placed :
    (metas : List Meta) (i j : ℕ) (placed : Placed)
    → i < j
    → get_elem? (set_placed metas i placed) j ≡ get_elem? metas j
unfolding set_placed
get-set_placed [] i j placed l = refl
get-set_placed (meta ∷ metas) zero zero placed l = absurd (omega (arith, l))
get-set_placed (meta ∷ metas) zero (suc j) placed l = refl
get-set_placed (meta ∷ metas) (suc i) zero placed l = absurd (omega (arith, l))
get-set_placed (meta ∷ metas) (suc i) (suc j) placed l =
    get-set_placed metas i j placed (omega (arith, l))

get-shard_of :
    (metas : List Meta) (j : ℕ) (c : Shard)
    → get_elem? (map shard_of metas) j ≡ some c
    → (meta : Meta) × (get_elem? metas j ≡ some meta) × (shard_of meta ≡ c)
get-shard_of [] j c e = absurd (ground (arith, e))
get-shard_of (meta ∷ metas) zero c e = (meta, refl, some-injective _ _ e)
get-shard_of (meta ∷ metas) (suc j) c e = get-shard_of metas j c e

get-IsIn :
    (metas : List Meta) (j : ℕ) (meta : Meta) → get_elem? metas j ≡ some meta → IsIn meta metas
get-IsIn [] j meta e = absurd (ground (arith, e))
get-IsIn (x ∷ metas) zero meta e = inl (some-injective _ _ e)
get-IsIn (x ∷ metas) (suc j) meta e = inr (get-IsIn metas j meta e)

get-All :
    (P : Meta → Type 0) (metas : List Meta) (j : ℕ) (meta : Meta)
    → All P metas
    → get_elem? metas j ≡ some meta
    → P meta
get-All P [] j meta h e = absurd (ground (arith, e))
get-All P (x ∷ metas) zero meta h e = subst P (some-injective _ _ e) h.0
get-All P (x ∷ metas) (suc j) meta h e = get-All P metas j meta h.1 e

pieces_step :
    (current : List Meta) (try_prune_redundant_shard : Bool) (op : CopyOperation)
    (ops : List CopyOperation) (meta : Meta) (piece : Piece) (ps : List Piece)
    → get_elem? current op.candidate_index ≡ some meta
    → piece_of meta try_prune_redundant_shard op ≡ ok piece
    → pieces (set_placed current op.candidate_index piece.placed) try_prune_redundant_shard ops
      ≡ ok ps
    → pieces current try_prune_redundant_shard (op ∷ ops) ≡ ok (piece ∷ ps)
unfolding pieces
pieces_step current try_prune_redundant_shard op ops meta piece ps e f g = rw (pieces, e, f, g) refl

module _ (metas : List Meta) (t : Shard) (dims : ℕ) (placed : AllPlaced dims metas)
    (try_prune_redundant_shard : Bool) where
  -- What an operation names of its shard is in a piece that keeps it.
  op-Delivers :
      (op : CopyOperation) (piece : Piece) (meta : Meta) (coords : List ℕ)
      → get_elem? metas op.candidate_index ≡ some meta
      → CopiesShared (shard_of meta) t op
      → piece.raw ≡ meta.0
      → meta.1.storage_offset ≤ piece.placed.storage_offset
      → Keeps meta op piece.adjusted piece.placed
      → Filled (map shard_of metas) t coords op
      → Delivers metas coords piece
  op-Delivers op piece meta coords e shared raw later keeps (c, e', _, region, _) =
      let (found, at_op, same) = get-shard_of metas op.candidate_index c e' in
      let meta_same : c ≡ shard_of meta =
        sym same ∙ ap shard_of (some-injective _ _ (sym at_op ∙ e)) in
      let region' =
        subst (λ (x : Shard). InRegion coords x.0.global_offset op.src_offset op.copy_shape)
          meta_same region in
      let held = ((shared.1 coords).0.0 region').0 in
      let kept = keeps coords held region' in
      (meta, get-IsIn metas op.candidate_index meta e, raw, held, kept.0, kept.1, later)

  -- The loop, on a list that agrees with the shards from the next operation's on.
  pub pieces-Delivers :
      (current : List Meta) (index : ℕ) (ops : List CopyOperation)
      → ((j : ℕ) → index ≤ j → get_elem? current j ≡ get_elem? metas j)
      → Ordered dims index ops
      → All (Belongs 0 (map shard_of metas) t) ops
      → (ps : List Piece) × (pieces current try_prune_redundant_shard ops ≡ ok ps)
        × ((coords : List ℕ)
            → Any (Filled (map shard_of metas) t coords) ops
            → Any (Delivers metas coords) ps)
  unfolding pieces
  pieces-Delivers current index [] agree o b = ([], refl, λ coords h. h)
  pieces-Delivers current index (op ∷ ops) agree (l, len, o) ((j, c, i, e, shared), b) =
      let (meta, e', same) = get-shard_of metas j c e in
      let at_op : get_elem? metas op.candidate_index ≡ some meta =
        ap (get_elem? metas) (i ∙ omega arith) ∙ e' in
      let well = get-All _ metas op.candidate_index meta placed at_op in
      let (piece, made, raw, later, keeps) =
        piece_of-Keeps meta try_prune_redundant_shard op well.0 (len ∙ sym well.1) in
      let (ps, rest, filled) =
        pieces-Delivers (set_placed current op.candidate_index piece.placed)
          (suc op.candidate_index) ops
          (λ k g.
            get-set_placed current op.candidate_index k piece.placed g
            ∙ agree k (omega (arith, l, g)))
          o b in
      (
        piece ∷ ps,
        pieces_step current try_prune_redundant_shard op ops meta piece ps
            (agree op.candidate_index l ∙ at_op) made rest,
        λ coords h. elim h [
          | inl f ↦ inl (
              op-Delivers op piece meta coords at_op
                (subst (λ x. CopiesShared x t op) (sym same) shared) raw later keeps f)
          | inr f ↦ inr (filled coords f)
        ],
      )
