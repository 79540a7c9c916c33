-- ===== src/Remote/Shards/Tests.antt =====
-- Rows of a tensor that two senders hold, of which a target needs one from each.
use asystem_astate.Base.{
  ℕ, List, [], ◌∷◌, ◌≡◌, refl, sym, ◌∙◌, inl, inr, Any, none, true, arith, map, some, Bool,
}
use asystem_astate.Shard.Types.{ShardedKey, ATensor, prefix, ok}
use asystem_astate.Shard.Flat.{
  flat_intervals, row_count, rows_from, row_interval, coords_to_flat_index, flat_loop, row_coords,
}
use asystem_astate.Shard.Cover.{
  check_candidates_coverage, all_intervals, check_sorted, sort_by_start, insert_by_start,
  check_targets, is_covered, merge_onto,
}
use asystem_astate.Shard.Copy.{
  find_covering_candidates_unsafe, intersect, find_from, add_dimension, add_op, copy_op,
  differences,
}
use asystem_astate.Shard.Find.{
  find_covering_candidates, validate_candidate_filter_params, check_target_size, check_candidates,
  check_candidate, check_same_shape,
}
use asystem_astate.Shard.Coverage.{check_candidates_coverage-decides}
use asystem_astate.Remote.Shards.{
  Placed, Meta, shard_of, inner_stride, contiguous, is_contiguous_shard, adjust,
  try_adjust_global_offset, Piece, set_placed, piece_of, pieces, named, Mappings, find_pieces,
  metas_of, target_pieces, get_remote_tensor_shards,
}
use asystem_astate.Remote.Shards.Pieces.{Delivers}
use asystem_astate.Protocol.Nodes.{NodeInfo}
use asystem_astate.Remote.Copies.{numel}
use asystem_astate.Remote.Reads.{TensorRdmaInfo, Fetch, chosen_info, total_byte_size, read_tensors}
use asystem_astate.Remote.Fetches.{InTurn, Fetches, read_tensors-Fetches}
use asystem_astate.Remote.Shards.Deliver.{IsServed, first_call, get_remote_tensor_shards-Deliver}

abbrev key_at : ℕ → ShardedKey
key_at row = record { key = "w"; global_shape = 4 ∷ 2 ∷ []; global_offset = row ∷ 0 ∷ [] }

abbrev rows : ℕ → ATensor
rows n = record { size = n ∷ 2 ∷ []; dim_num = 2; dtype = 6 }

abbrev placed : ℕ → ℕ → Placed
placed n offset = record { tensor = rows n; stride = 2 ∷ 1 ∷ []; storage_offset = offset }

-- Two rows each; there is also a shard of another name.
abbrev published : List Meta
published =
    (key_at 0, placed 2 0)
    ∷ (record { key = "v"; global_shape = 4 ∷ []; global_offset = 0 ∷ [] }, placed 2 7)
    ∷ (key_at 2, placed 2 10)
    ∷ []

abbrev no_mappings : Mappings
no_mappings = record { tensor_meta_list = none; shard_mapping = [] }

-- The second and the third row.
abbrev middle_pieces : List Piece
middle_pieces =
    record { raw = key_at 0; adjusted = key_at 1; placed = placed 1 2 }
    ∷ record { raw = key_at 2; adjusted = key_at 2; placed = placed 1 10 }
    ∷ []

middle_rows : target_pieces published (key_at 1) (rows 2) true ≡ ok middle_pieces
unfolding target_pieces named pieces piece_of set_placed try_adjust_global_offset adjust
    is_contiguous_shard contiguous inner_stride find_covering_candidates
    validate_candidate_filter_params check_target_size check_candidates check_candidate
    check_same_shape check_candidates_coverage all_intervals check_sorted sort_by_start
    insert_by_start check_targets is_covered merge_onto flat_intervals prefix row_count rows_from
    row_interval coords_to_flat_index flat_loop row_coords find_covering_candidates_unsafe find_from
    intersect add_dimension add_op copy_op differences
middle_rows = refl

middle_covered :
    check_candidates_coverage (map shard_of (named "w" published)) (key_at 1) (rows 2) ≡ ok tt
unfolding named check_candidates_coverage all_intervals check_sorted sort_by_start insert_by_start
    check_targets is_covered merge_onto flat_intervals prefix row_count rows_from row_interval
    coords_to_flat_index flat_loop row_coords
middle_covered = refl

middle-IsServed : IsServed published (key_at 1) (rows 2)
unfolding named
middle-IsServed = record {
  shaped = (refl, refl);
  dims = refl;
  fits = (omega arith, (omega arith, tt));
  usable = (
    ((refl, refl, refl, omega arith), refl, (omega arith, (omega arith, tt)), (refl, refl)),
    (((refl, refl, refl, omega arith), refl, (omega arith, (omega arith, tt)), (refl, refl)), tt),
  );
  covered =
      elim (check_candidates_coverage-decides (map shard_of (named "w" published)) (key_at 1)
        (rows 2) 2 ((refl, refl), ((refl, refl), tt)) (refl, refl)
        (1 ∷ 0 ∷ [], (omega arith, omega arith, (omega arith, omega arith, tt)), refl)) [
          | inl r ↦ r.0
          | inr (_, e, r) ↦ absurd (ground (arith, sym r ∙ middle_covered))
        ];
}

middle_call : get_remote_tensor_shards published (key_at 1) (rows 2) true no_mappings ≡ (
  record { tensor_meta_list = some published; shard_mapping = (key_at 1, middle_pieces) ∷ [] },
  ok middle_pieces,
)
unfolding metas_of find_pieces
middle_call =
    first_call published (key_at 1) (rows 2) true no_mappings middle_pieces refl middle_rows

get_remote_tensor_shards-Deliver_example :
    (c' : Mappings) × (ps : List Piece) × (get_remote_tensor_shards published
        (key_at 1)
        (rows 2)
        true
        no_mappings
      ≡ (c', ok ps))
    × Any (Delivers published (2 ∷ 1 ∷ [])) ps
    × ((later : List Meta)
        → get_remote_tensor_shards later (key_at 1) (rows 2) true c' ≡ (c', ok ps))
unfolding metas_of find_pieces
get_remote_tensor_shards-Deliver_example =
    get_remote_tensor_shards-Deliver published (key_at 1) (rows 2) true no_mappings (2 ∷ 1 ∷ [])
      refl middle-IsServed (omega arith, omega arith, (omega arith, omega arith, tt))

abbrev four_bytes : ℕ → ℕ
four_bytes dtype = 4

abbrev always : NodeInfo → ℕ → ℕ → Bool
always node addr len = true

abbrev sender : NodeInfo
sender = record { hostname_or_ip = "a"; rdma_port = 1; ctrl_flow_port = 2 }

-- One sender has all shards.
abbrev infos : ShardedKey → List TensorRdmaInfo
infos key = record { addr = 1000; size = 64; node_info = sender; storage_offset = 0 } ∷ []

read_tensors-Fetches_example :
    (fetches : List Fetch) × (read_tensors four_bytes always 0 infos 16 middle_pieces
      ≡ some fetches)
    × InTurn four_bytes always 0 infos 16 0 fetches
    × Any (Fetches four_bytes always 0 infos published (2 ∷ 1 ∷ [])) fetches
unfolding metas_of find_pieces chosen_info total_byte_size numel
read_tensors-Fetches_example =
    read_tensors-Fetches four_bytes always 0 infos 16 published (key_at 1) (rows 2) true no_mappings
      (record { tensor_meta_list = some published; shard_mapping = (key_at 1, middle_pieces) ∷ [] })
      middle_pieces (2 ∷ 1 ∷ []) refl middle-IsServed middle_call
      (
        (
          record { addr = 1000; size = 64; node_info = sender; storage_offset = 0 },
          refl,
          (refl, (refl, tt)),
          omega arith,
          omega arith,
          refl,
        ),
        (
          (
            record { addr = 1000; size = 64; node_info = sender; storage_offset = 0 },
            refl,
            (refl, (refl, tt)),
            omega arith,
            omega arith,
            refl,
          ),
          tt,
        ),
      )
      (omega arith) (omega arith, omega arith, (omega arith, omega arith, tt))
