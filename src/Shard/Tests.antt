-- ===== src/Shard/Tests.antt =====
-- Concrete shards: runs of the functions, and instances of the theorems about them.
use asystem_astate.Base.{ℕ, List, [], ◌∷◌, ◌≡◌, refl, ◌↔◌, Any, inl, inr, ◌⊎◌, arith, sym, ◌∙◌}
use asystem_astate.Shard.Types.{prefix, Shard, CopyOperation, ok, throws, missing_interval, Error}
use asystem_astate.Shard.Flat.{
  flat_intervals, row_count, rows_from, row_interval, coords_to_flat_index, flat_loop, row_coords,
}
use asystem_astate.Shard.Cover.{
  check_candidates_coverage, all_intervals, check_sorted, sort_by_start, insert_by_start,
  check_targets, is_covered, merge_onto,
}
use asystem_astate.Shard.Copy.{
  find_covering_candidates_unsafe, intersect, copy_region, find_from, add_dimension, add_op,
  copy_op, differences,
}
use asystem_astate.Shard.Find.{
  find_covering_candidates, validate_candidate_filter_params, check_target_size, check_candidates,
  check_candidate, check_same_shape,
}
use asystem_astate.Shard.CopyCheck.{
  validate_sharded_copy_params, Copyable, validate_sharded_copy_params_iff,
}
use asystem_astate.Shard.Rows.{Covers}
use asystem_astate.Shard.Intervals.{HoldsAt, flat_intervals-Covers}
use asystem_astate.Shard.Coverage.{Covered, check_candidates_coverage-decides}
use asystem_astate.Shard.Intersect.{map_region, copy_region-eq-intersect}
use asystem_astate.Shard.Validate.{andthen-ok, validate-Checked}
use asystem_astate.Shard.Complete.{Filled}
use asystem_astate.Shard.Returns.{find_covering_candidates-returns}

abbrev shard : List ℕ → List ℕ → List ℕ → Shard
shard shape offset size = (
  record { key = "w"; global_shape = shape; global_offset = offset },
  record { size = size; dim_num = 2; dtype = 6 },
)

abbrev plane : List ℕ
plane = 2 ∷ 4 ∷ []

-- The middle columns of a plane, and its left and right halves.
abbrev middle : Shard
middle = shard plane (0 ∷ 1 ∷ []) (2 ∷ 2 ∷ [])

abbrev halves : List Shard
halves = shard plane (0 ∷ 0 ∷ []) (2 ∷ 2 ∷ []) ∷ shard plane (0 ∷ 2 ∷ []) (2 ∷ 2 ∷ []) ∷ []

abbrev two_ops : List CopyOperation
two_ops =
    record {
      candidate_index = 0;
      src_offset = 0 ∷ 1 ∷ [];
      target_offset = 0 ∷ 0 ∷ [];
      copy_shape = 2 ∷ 1 ∷ [];
    }
    ∷ record {
      candidate_index = 1;
      src_offset = 0 ∷ 0 ∷ [];
      target_offset = 0 ∷ 1 ∷ [];
      copy_shape = 2 ∷ 1 ∷ [];
    }
    ∷ []

middle_intervals : flat_intervals middle.0 middle.1 ≡ ok ((1, 3) ∷ (5, 7) ∷ [])
unfolding flat_intervals prefix row_count rows_from row_interval coords_to_flat_index flat_loop
    row_coords
middle_intervals = refl

find_halves : find_covering_candidates halves middle.0 middle.1 ≡ ok two_ops
unfolding find_covering_candidates validate_candidate_filter_params check_target_size
    check_candidates check_candidate check_same_shape check_candidates_coverage all_intervals
    check_sorted sort_by_start insert_by_start check_targets is_covered merge_onto flat_intervals
    prefix row_count rows_from row_interval coords_to_flat_index flat_loop row_coords
    find_covering_candidates_unsafe find_from intersect add_dimension add_op copy_op differences
find_halves = refl

find_left_half :
    find_covering_candidates (shard plane (0 ∷ 0 ∷ []) (2 ∷ 2 ∷ []) ∷ []) middle.0 middle.1
    ≡ throws (missing_interval 1 3)
unfolding find_covering_candidates validate_candidate_filter_params check_target_size
    check_candidates check_candidate check_same_shape check_candidates_coverage all_intervals
    check_sorted sort_by_start insert_by_start check_targets is_covered merge_onto flat_intervals
    prefix row_count rows_from row_interval coords_to_flat_index flat_loop row_coords
    find_covering_candidates_unsafe find_from intersect add_dimension add_op copy_op differences
find_left_half = refl

-- A candidate that does not lie in the whole tensor passes for one that covers it: here one row of
-- four elements stands for a square of two rows, of which only the first is copied.
out_of_range_candidate :
    find_covering_candidates
      (shard (2 ∷ 2 ∷ []) (0 ∷ 0 ∷ []) (1 ∷ 4 ∷ []) ∷ [])
      (shard (2 ∷ 2 ∷ []) (0 ∷ 0 ∷ []) (2 ∷ 2 ∷ [])).0
      (shard (2 ∷ 2 ∷ []) (0 ∷ 0 ∷ []) (2 ∷ 2 ∷ [])).1
    ≡ ok (
        record {
          candidate_index = 0;
          src_offset = 0 ∷ 0 ∷ [];
          target_offset = 0 ∷ 0 ∷ [];
          copy_shape = 1 ∷ 2 ∷ [];
        }
        ∷ [])
unfolding find_covering_candidates validate_candidate_filter_params check_target_size
    check_candidates check_candidate check_same_shape check_candidates_coverage all_intervals
    check_sorted sort_by_start insert_by_start check_targets is_covered merge_onto flat_intervals
    prefix row_count rows_from row_interval coords_to_flat_index flat_loop row_coords
    find_covering_candidates_unsafe find_from intersect add_dimension add_op copy_op differences
out_of_range_candidate = refl

flat_intervals-Covers_example :
    (is : List (ℕ × ℕ)) × (flat_intervals middle.0 middle.1 ≡ ok is)
    × ((k : ℕ) → Covers is k ↔ HoldsAt middle.0 middle.1 k)
flat_intervals-Covers_example = flat_intervals-Covers middle.0 middle.1 (refl, refl)

corner : HoldsAt middle.0 middle.1 6
corner = (1 ∷ 2 ∷ [], (omega arith, omega arith, (omega arith, omega arith, tt)), refl)

check_candidates_coverage-decides_example :
    (Covered halves middle.0 middle.1
      × (check_candidates_coverage halves middle.0 middle.1 ≡ ok tt))
    ⊎ ((Covered halves middle.0 middle.1 → ⊥)
        × (e : Error) × (check_candidates_coverage halves middle.0 middle.1 ≡ throws e))
check_candidates_coverage-decides_example =
    check_candidates_coverage-decides halves middle.0 middle.1 6 ((refl, refl), ((refl, refl), tt))
      (refl, refl) corner

halves_cover : Covered halves middle.0 middle.1
unfolding find_covering_candidates
halves_cover =
    elim (check_candidates_coverage-decides halves middle.0 middle.1 6
      ((refl, refl), ((refl, refl), tt)) (refl, refl) corner) [
        | inl r ↦ r.0
        | inr (_, e, r) ↦ absurd (ground (arith, sym r ∙ returns))
      ]
  where
    returns : check_candidates_coverage halves middle.0 middle.1 ≡ ok tt
    returns =
        let v =
          andthen-ok (validate_candidate_filter_params halves middle.0 middle.1)
            (find_covering_candidates_unsafe halves middle.0 middle.1) two_ops find_halves in
        (validate-Checked halves middle.0 middle.1 (refl, refl) v.0).2

find_covering_candidates-returns_example :
    (ops : List CopyOperation) × (find_covering_candidates halves middle.0 middle.1 ≡ ok ops)
    × Any (Filled halves middle (1 ∷ 2 ∷ [])) ops
find_covering_candidates-returns_example =
    find_covering_candidates-returns halves middle (1 ∷ 2 ∷ []) ((refl, refl), ((refl, refl), tt))
      (refl, refl) refl (omega arith, (omega arith, tt))
      ((omega arith, (omega arith, tt)), ((omega arith, (omega arith, tt)), tt))
      ((refl, refl), ((refl, refl), tt)) halves_cover
      (omega arith, omega arith, (omega arith, omega arith, tt))

copy_region-eq-intersect_example :
    copy_region 1 (3 ∷ []) (4 ∷ []) (5 ∷ []) (6 ∷ [])
    ≡ map_region (3 ∷ []) (5 ∷ []) (intersect 1 (3 ∷ []) (4 ∷ []) (5 ∷ []) (6 ∷ []))
copy_region-eq-intersect_example = copy_region-eq-intersect 1 (3 ∷ []) (4 ∷ []) (5 ∷ []) (6 ∷ [])

validate_sharded_copy_params_iff_example :
    (validate_sharded_copy_params middle.0 middle.1 middle.0 middle.1 ≡ ok tt)
    ↔ Copyable middle middle
validate_sharded_copy_params_iff_example =
    validate_sharded_copy_params_iff middle middle (refl, refl) (refl, refl)
