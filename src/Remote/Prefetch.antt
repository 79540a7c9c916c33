-- ===== src/Remote/Prefetch.antt =====
-- `local_cached_tensors_`: the tensors that a receiver reads ahead.
use asystem_astate.Base.{
  ℕ, ◌+◌, Bool, true, false, not, ◌&&◌, ltb, if◌then◌else◌, Option, none, some, List, [], ◌∷◌,
}
use asystem_astate.Shard.Types.{ShardedKey}
use asystem_astate.Protocol.Keys.{same_key}

-- A cached tensor: the sequence id of the weights that were read into it last as a whole, or `none`,
-- and its ready flag. What a reading leaves that fails is not kept.
pub record Cached : Type 0 where
  pub key : ShardedKey
  pub holds : Option ℕ
  pub ready : Bool

pub record Cache : Type 0 where
  pub enable_local_cache_prefetch : Bool
  pub local_cached_tensors_size : ℕ
  pub local_cached_tensors_size_limit : ℕ
  pub local_cached_tensors : List Cached

unfoldable pub find_cached : ShardedKey → List Cached → Option Cached
find_cached key [] = none
find_cached key (entry ∷ entries) =
    if same_key entry.key key then some entry else find_cached key entries

-- `GetLocalPrefetchCachedTensor` for a target of `bytes` bytes.
unfoldable pub get_local_prefetch_cached_tensor : ShardedKey → ℕ → Cache → Cache × Option Cached
get_local_prefetch_cached_tensor key bytes c =
    if not c.enable_local_cache_prefetch
    then (c, none)
    else elim (find_cached key c.local_cached_tensors) [
      | some entry ↦ (c, if entry.ready then some entry else none)
      | none ↦
          if ltb c.local_cached_tensors_size c.local_cached_tensors_size_limit
          then (
            record c {
              local_cached_tensors_size = c.local_cached_tensors_size + bytes;
              local_cached_tensors =
                  record { key = key; holds = none; ready = false } ∷ c.local_cached_tensors;
            },
            none,
          )
          else (c, none)
    ]

-- The keys of the tensors that are to be read.
unfoldable pub not_ready : List Cached → List ShardedKey
not_ready [] = []
not_ready (entry ∷ entries) =
    let rest = not_ready entries in if entry.ready then rest else entry.key ∷ rest

unfoldable pub write_cached : ℕ → ShardedKey → List Cached → List Cached
write_cached seq_id key [] = []
write_cached seq_id key (entry ∷ entries) =
    (if same_key entry.key key then record entry { holds = some seq_id } else entry)
    ∷ write_cached seq_id key entries

unfoldable pub set_ready : Bool → List Cached → List Cached
set_ready flag [] = []
set_ready flag (entry ∷ entries) = record entry { ready = flag } ∷ set_ready flag entries

-- A run of `PrefetchCachedTensors` between its two sections under the lock: the keys that are still
-- to be read, and whether all readings so far have succeeded.
abbrev pub Ahead : Type 0
Ahead = List ShardedKey × Bool

-- The cache, and the run that there is.
pub record Prefetching : Type 0 where
  pub cache : Cache
  pub ahead : Option Ahead

-- The first section under the lock. One run at a time.
unfoldable pub begin_prefetch : Prefetching → Prefetching
begin_prefetch s = elim s.ahead [
  | none ↦ record s { ahead = some (not_ready s.cache.local_cached_tensors, true) }
  | some a ↦ s
]

-- One tensor is read, or the reading fails.
unfoldable pub read_next : Bool → ℕ → Cache → Ahead → Prefetching
read_next reads seq_id c ([], good) = record { cache = c; ahead = some ([], good) }
read_next reads seq_id c (key ∷ keys, good) = record {
  cache =
      if reads
      then record c { local_cached_tensors = write_cached seq_id key c.local_cached_tensors }
      else c;
  ahead = some (keys, reads && good);
}

-- The second section, after all readings. Where one has failed, the exception is caught, and no flag
-- is set.
unfoldable pub end_prefetch : Cache → Ahead → Prefetching
end_prefetch c (key ∷ keys, good) = record { cache = c; ahead = some (key ∷ keys, good) }
end_prefetch c ([], good) = record {
  cache =
      if good then record c { local_cached_tensors = set_ready true c.local_cached_tensors } else c;
  ahead = none;
}

-- What `Complete` does with the cache.
unfoldable pub complete_cache : Cache → Cache
complete_cache c =
    if c.enable_local_cache_prefetch
    then record c { local_cached_tensors = set_ready false c.local_cached_tensors }
    else c
