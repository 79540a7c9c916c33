-- ===== src/Remote/Copies.antt =====
-- `AlignStorageOffset` and `GetOrCreateLocalTensorCopy`: the copies that a sender keeps, of which
-- small ones share buffers. Sums and products of sizes are taken to fit.
use asystem_astate.Base.{
  ℕ, suc, ◌+◌, ◌-◌, ◌*◌, ◌/◌, ◌%◌, ◌==◌, ltb, leb, if◌then◌else◌, Option, none, some, ◌>>=◌, List,
  [], ◌∷◌,
}
use asystem_astate.Shard.Types.{ShardedKey}
use asystem_astate.Protocol.Keys.{same_key}

-- What is asked of a source tensor: its sizes and the size of an item in bytes.
pub record Source : Type 0 where
  pub sizes : List ℕ
  pub item_size : ℕ

-- `numel`
unfoldable pub numel : List ℕ → ℕ
numel [] = 1
numel (n ∷ ns) = n * numel ns

-- `GetTensorTotalByteSize`
unfoldable pub byte_size : Source → ℕ
byte_size source = numel source.sizes * source.item_size

-- A copy with its own memory, or `count` items from the item `first` of a small buffer.
pub data Copy : Type 0 where
  own : Source → Copy
  slice : (buffer first count item_size : ℕ) → Copy

pub record Limits : Type 0 where
  pub small_tensor_size : ℕ
  pub small_tensor_compact_cache_size : ℕ

-- The checks of the constructor, which throws (`none`) if one fails; the last size is that of a bucket
-- of the copying threads.
unfoldable pub check_sizes : ℕ → ℕ → ℕ → Option Limits
check_sizes small cache bucket =
    if ltb cache small
    then none
    else if ltb bucket cache
    then none
    else some (record { small_tensor_size = small; small_tensor_compact_cache_size = cache })

-- `small_tensor_compact_cache_` is the buffer `buffer`; `small_tensor_compact_cache_list_` has those
-- before it. The entries of `local_tensor_mapping_` stand in the order of their creation, last first.
pub record Copies : Type 0 where
  pub buffer : ℕ
  pub small_tensor_compact_cache_offset : ℕ
  pub local_tensor_mapping : List (ShardedKey × Copy)

-- `AlignStorageOffset`
unfoldable pub align_storage_offset : ℕ → ℕ → ℕ
align_storage_offset offset item_size =
    if offset % item_size == 0 then offset else (offset + (item_size - 1)) / item_size * item_size

-- `slice(0, first, first + count).view(sizes)` of a buffer of `len` items. The slice ends with the
-- buffer, and the view throws (`none`) if it has not `count` items.
unfoldable pub slice_view : ℕ → ℕ → ℕ → ℕ → ℕ → Option Copy
slice_view buffer len first count item_size =
    if leb (first + count) len
    then some (slice buffer first count item_size)
    else if count == 0
    then some (slice buffer len 0 item_size)
    else none

-- A new buffer, if the small tensor does not fit behind the aligned offset.
unfoldable pub make_room : Limits → Source → Copies → Copies
make_room limits source c =
    let offset = align_storage_offset c.small_tensor_compact_cache_offset source.item_size in
    if ltb limits.small_tensor_compact_cache_size (offset + byte_size source)
    then record c { buffer = suc c.buffer; small_tensor_compact_cache_offset = 0 }
    else record c { small_tensor_compact_cache_offset = offset }

unfoldable pub create_copy : Limits → Source → Copies → Option (Copies × Copy)
create_copy limits source c =
    if ltb limits.small_tensor_size (byte_size source)
    then some (c, own source)
    else let room = make_room limits source c in
      elim (slice_view room.buffer (limits.small_tensor_compact_cache_size / source.item_size)
        (room.small_tensor_compact_cache_offset / source.item_size) (numel source.sizes)
        source.item_size) [
          | none ↦ none
          | some copy ↦ some (
            record room {
              small_tensor_compact_cache_offset =
                  room.small_tensor_compact_cache_offset + byte_size source;
            },
            copy,
          )
        ]

unfoldable pub find_copy : ShardedKey → List (ShardedKey × Copy) → Option Copy
find_copy key [] = none
find_copy key (entry ∷ entries) =
    if same_key entry.0 key then some entry.1 else find_copy key entries

-- `GetOrCreateLocalTensorCopy`
unfoldable pub get_or_create_local_tensor_copy :
    Limits → ShardedKey → Source → Copies → Option (Copies × Copy)
get_or_create_local_tensor_copy limits key source c = elim (find_copy key c.local_tensor_mapping) [
  | some copy ↦ some (c, copy)
  | none ↦ do
    r ← create_copy limits source c
    some (record r.0 { local_tensor_mapping = (key, r.1) ∷ r.0.local_tensor_mapping }, r.1)
]
