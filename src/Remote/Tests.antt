-- ===== src/Remote/Tests.antt =====
-- Small tensors that share buffers, and a cache that is read ahead.
use asystem_astate.Base.{
  inl, inr, ℕ, ◌≡◌, ◌⊎◌, refl, true, if◌then◌else◌, none, some, List, [], ◌∷◌, arith, ◌<◌, ◌+◌, ◌*◌,
  ◌/◌, ◌↔◌, Any,
}
use mathlib.Core.Option as Option
use asystem_astate.Shard.Blocks.{InBlock}
use asystem_astate.Remote.Reshard.{
  Part, narrow, ReshardingMap, move_columns, reshard_from, second, reshard_tensor, narrow_all,
  find_infos, find_or_reshard, get_or_create_local_reshard_tensors,
}
use asystem_astate.Remote.Columns.{HasPart}
use asystem_astate.Remote.Parts.{reshard_iff}
use asystem_astate.Shard.Types.{ShardedKey}
use asystem_astate.Protocol.Keys.{same_key}
use asystem_astate.Remote.Copies.{
  numel, byte_size, Copy, slice, Limits, Copies, align_storage_offset, slice_view, check_sizes,
  make_room, create_copy, find_copy, get_or_create_local_tensor_copy,
}
use asystem_astate.Remote.Packed.{IsPacked}
use asystem_astate.Remote.Get.{IsCopyOf, get_or_create-IsPacked}
use asystem_astate.Remote.Prefetch.{
  Cache, find_cached, get_local_prefetch_cached_tensor, not_ready, write_cached, set_ready,
  begin_prefetch, read_next, end_prefetch, complete_cache,
}
use asystem_astate.Remote.Fresh.{AreRead}
use asystem_astate.Remote.Uses.{
  Use, get, begins, reads, ends, completed, AreQuiet, use_cache, add_returned, use_all,
  complete-AreRead,
}

abbrev limits : Limits
limits = record { small_tensor_size = 32; small_tensor_compact_cache_size = 40 }

abbrev key_of : ℕ → ShardedKey
key_of n = record { key = "w"; global_shape = n ∷ []; global_offset = 0 ∷ [] }

-- Three bytes in the first buffer.
abbrev one_copy : Copies
one_copy = record {
  buffer = 0;
  small_tensor_compact_cache_offset = 3;
  local_tensor_mapping = (key_of 3, slice 0 0 3 1) ∷ [];
}

one_copy-IsPacked : IsPacked limits one_copy
one_copy-IsPacked = record {
  offset_bound = omega arith;
  inside = ((omega arith, omega arith, λ e. omega arith), tt);
  packed = (tt, tt);
}

-- Four items of four bytes stand behind the offset that is rounded up.
second_copy :
    get_or_create_local_tensor_copy limits
      (key_of 4)
      (record { sizes = 2 ∷ 2 ∷ []; item_size = 4 })
      one_copy
    ≡ some (
      record {
        buffer = 0;
        small_tensor_compact_cache_offset = 20;
        local_tensor_mapping = (key_of 4, slice 0 1 4 4) ∷ (key_of 3, slice 0 0 3 1) ∷ [];
      },
      slice 0 1 4 4,
    )
unfolding get_or_create_local_tensor_copy create_copy find_copy make_room slice_view
    align_storage_offset byte_size numel same_key asystem_astate.Protocol.Keys.same_numbers
second_copy = refl

get_or_create-IsPacked_example :
    (c' : Copies) × (copy : Copy) × (get_or_create_local_tensor_copy limits
        (key_of 8)
        (record { sizes = 8 ∷ []; item_size = 4 })
        one_copy
      ≡ some (c', copy))
    × IsPacked limits c'
    × ((find_copy (key_of 8) one_copy.local_tensor_mapping ≡ some copy)
        ⊎ (find_copy (key_of 8) one_copy.local_tensor_mapping ≡ none)
          × IsCopyOf (record { sizes = 8 ∷ []; item_size = 4 }) copy)
    × ((other : ShardedKey)
        → find_copy other c'.local_tensor_mapping ≡ (
            if same_key (key_of 8) other
            then some copy
            else find_copy other one_copy.local_tensor_mapping))
unfolding check_sizes
get_or_create-IsPacked_example =
    get_or_create-IsPacked 32 40 64 limits (key_of 8) (record { sizes = 8 ∷ []; item_size = 4 })
      one_copy refl (omega arith) one_copy-IsPacked

-- The last but one returns the tensor that the first one has put into the cache, which had another one
-- before `Complete`.
abbrev uses : List Use
uses =
    get (key_of 3) 24
    ∷ begins
    ∷ reads true
    ∷ get (key_of 4) 32
    ∷ reads true
    ∷ ends
    ∷ get (key_of 3) 24
    ∷ get (key_of 4) 32
    ∷ []

abbrev old_cache : Cache
old_cache = record {
  enable_local_cache_prefetch = true;
  local_cached_tensors_size = 32;
  local_cached_tensors_size_limit = 40;
  local_cached_tensors = record { key = key_of 4; holds = some 6; ready = true } ∷ [];
}

uses_returned :
    use_all 7 uses (completed old_cache)
    ≡ record { key = key_of 3; holds = some 7; ready = true }
      ∷ record { key = key_of 4; holds = some 7; ready = true }
      ∷ []
unfolding use_all use_cache add_returned complete_cache get_local_prefetch_cached_tensor
    begin_prefetch read_next end_prefetch find_cached not_ready write_cached set_ready same_key
    asystem_astate.Protocol.Keys.same_numbers
uses_returned = refl

uses-AreQuiet : AreQuiet 7 uses (completed old_cache)
unfolding use_cache complete_cache get_local_prefetch_cached_tensor begin_prefetch read_next
    end_prefetch find_cached not_ready write_cached set_ready same_key
    asystem_astate.Protocol.Keys.same_numbers
uses-AreQuiet = (inl refl, (tt, (tt, (inr refl, (tt, (tt, (inl refl, (inl refl, tt))))))))

complete-AreRead_example : AreRead 7 (use_all 7 uses (completed old_cache))
complete-AreRead_example = complete-AreRead 7 uses old_cache uses-AreQuiet

-- A tensor that is put into the cache while a run is on is returned unread.
unread_returned :
    use_all 7
      (begins ∷ reads true ∷ get (key_of 3) 24 ∷ ends ∷ get (key_of 3) 24 ∷ [])
      (completed old_cache)
    ≡ record { key = key_of 3; holds = none; ready = true } ∷ []
unfolding use_all use_cache add_returned complete_cache get_local_prefetch_cached_tensor
    begin_prefetch read_next end_prefetch find_cached not_ready write_cached set_ready same_key
    asystem_astate.Protocol.Keys.same_numbers
unread_returned = refl

-- Three ranks with two columns each; of five columns of a tensor the last one is in no part.
abbrev wide_key : ShardedKey
wide_key = record { key = "w"; global_shape = 4 ∷ 6 ∷ []; global_offset = 2 ∷ 0 ∷ [] }

abbrev two_parts : List Part
two_parts =
    narrow (record wide_key { global_offset = 2 ∷ 0 ∷ [] }) 1 0 2
    ∷ narrow (record wide_key { global_offset = 2 ∷ 2 ∷ [] }) 1 2 2
    ∷ []

last_column_lost :
    Option.map
      (λ (r : ReshardingMap × List Part). r.1)
      (get_or_create_local_reshard_tensors true 8 40 3 wide_key (2 ∷ 5 ∷ []) [])
    ≡ some two_parts
unfolding get_or_create_local_reshard_tensors find_or_reshard find_infos reshard_tensor second
    reshard_from move_columns narrow_all
last_column_lost = refl

reshard_iff_example :
    (resharding_map' : ReshardingMap) × (parts : List Part) × (get_or_create_local_reshard_tensors
        true 8 40 3 wide_key
        (2 ∷ 5 ∷ [])
        []
      ≡ some (resharding_map', parts))
    × ((x c : ℕ) (cs : List ℕ)
        → InBlock (x ∷ c ∷ cs) (2 ∷ 0 ∷ []) (2 ∷ 5 ∷ [])
        → (c < 0 + 5 / (6 / 3) * (6 / 3)) ↔ Any (HasPart 2 [] 0 x c cs) parts)
unfolding find_infos
reshard_iff_example = reshard_iff 8 40 3 wide_key 2 0 4 6 2 5 [] [] [] [] (record {
  large = omega arith;
  configured = omega arith;
  new = refl;
  offset = refl;
  global_shape = refl;
  split = omega arith;
  has_pieces = omega arith;
})
