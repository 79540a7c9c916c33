-- ===== src/Remote/Get.antt =====
-- `GetOrCreateLocalTensorCopy` keeps its copies apart, and gives each key one copy.
use asystem_astate.Base.{
  ℕ, ◌+◌, ◌/◌, ◌≤◌, ◌<◌, ◌≡◌, refl, subst, ◌⊎◌, inl, inr, ltb, Bool-cases, Option-cases, none, some,
  List, ◌∷◌, All, All-imp, arith, ltb→le, if◌then◌else◌,
}
use asystem_astate.Shard.Types.{ShardedKey}
use asystem_astate.Protocol.Keys.{same_key}
use asystem_astate.Protocol.Roundtrip.Keys.{same_key-eq}
use asystem_astate.Remote.Copies.{
  Source, numel, byte_size, Copy, own, slice, Limits, Copies, check_sizes, make_room, create_copy,
  find_copy, get_or_create_local_tensor_copy,
}
use asystem_astate.Remote.Packed.{
  IsInside, IsApart, IsPacked, make_room-HasRoom, IsInside-later, IsApart-new, slice_view_lem,
}

-- The copy has as many items as the source, of the same size.
abbrev pub IsCopyOf : Source → Copy → Type 0
IsCopyOf source (own s) = s ≡ source
IsCopyOf source (slice b first count item) =
    (count ≡ numel source.sizes) × (item ≡ source.item_size)

-- The state after a copy has been created, before it is entered.
record IsCreated (limits : Limits) (source : Source) (c c' : Copies) (copy : Copy) : Type 0 where
  same : c'.local_tensor_mapping ≡ c.local_tensor_mapping
  bound : c'.small_tensor_compact_cache_offset ≤ limits.small_tensor_compact_cache_size
  inside : IsInside limits c'.buffer c'.small_tensor_compact_cache_offset copy
  older :
      All
        (λ (e : ShardedKey × Copy).
          IsInside limits c'.buffer c'.small_tensor_compact_cache_offset e.1)
        c.local_tensor_mapping
  apart : All (λ (e : ShardedKey × Copy). IsApart copy e.1) c.local_tensor_mapping
  copies : IsCopyOf source copy

-- What lies before an offset lies before a later one.
IsInside-grows :
    (limits : Limits) (newest offset more : ℕ) (copy : Copy)
    → IsInside limits newest offset copy
    → IsInside limits newest (offset + more) copy
IsInside-grows limits newest offset more (own s) i = tt
IsInside-grows limits newest offset more (slice b first count item) (le, fits, before) =
    (le, fits, λ e. omega (arith, before e))

create_copy-IsCreated :
    (limits : Limits) (source : Source) (c : Copies)
    → 0 < source.item_size
    → limits.small_tensor_size ≤ limits.small_tensor_compact_cache_size
    → IsPacked limits c
    → (c' : Copies) × (copy : Copy) × (create_copy limits source c ≡ some (c', copy))
      × IsCreated limits source c c' copy
unfolding create_copy byte_size
create_copy-IsCreated limits source c p small h =
    elim (Bool-cases (ltb limits.small_tensor_size (byte_size source))) [
      | inl z ↦ (
        c,
        own source,
        rw z refl,
        record {
          same = refl;
          bound = h.offset_bound;
          inside = tt;
          older = h.inside;
          apart = All-imp (λ e i. tt) c.local_tensor_mapping h.inside;
          copies = refl;
        },
      )
      | inr z ↦
          let r = make_room limits source c in
          let room =
            make_room-HasRoom limits source c p
              (omega (arith, small, ltb→le limits.small_tensor_size (byte_size source) z)) in
          let first = r.small_tensor_compact_cache_offset / source.item_size in
          let older =
            All-imp (λ (e : ShardedKey × Copy). IsInside-later limits source c r e.1 room)
              c.local_tensor_mapping h.inside in
          (
            record r {
              small_tensor_compact_cache_offset =
                  r.small_tensor_compact_cache_offset + byte_size source;
            },
            slice r.buffer first (numel source.sizes) source.item_size,
            rw (z, slice_view_lem limits source c r p room) refl,
            record {
              same = room.same;
              bound = room.fits;
              inside = (
                omega arith,
                grind (arith, room.aligned, room.fits),
                λ e. grind (arith, room.aligned),
              );
              older =
                  All-imp
                    (λ (e : ShardedKey × Copy).
                      IsInside-grows limits r.buffer r.small_tensor_compact_cache_offset
                        (byte_size source) e.1)
                    c.local_tensor_mapping older;
              apart =
                  All-imp
                    (λ (e : ShardedKey × Copy).
                      IsApart-new limits r.buffer r.small_tensor_compact_cache_offset first
                        (numel source.sizes) source.item_size e.1 room.aligned)
                    c.local_tensor_mapping older;
              copies = (refl, refl);
            },
          )
    ]

find_copy_cons :
    (key other : ShardedKey) (copy : Copy) (entries : List (ShardedKey × Copy))
    → find_copy other ((key, copy) ∷ entries)
      ≡ (if same_key key other then some copy else find_copy other entries)
unfolding find_copy
find_copy_cons key other copy entries = refl

find_copy_again :
    (key : ShardedKey) (copy : Copy) (entries : List (ShardedKey × Copy))
    → find_copy key entries ≡ some copy
    → (other : ShardedKey)
    → find_copy other entries ≡ (if same_key key other then some copy else find_copy other entries)
find_copy_again key copy entries e other = elim (Bool-cases (same_key key other)) [
  | inl s ↦ rw s (subst (λ k. find_copy k entries ≡ some copy) (same_key-eq key other s) e)
  | inr s ↦ rw s refl
]

checked-le :
    (small cache bucket : ℕ) (limits : Limits)
    → check_sizes small cache bucket ≡ some limits
    → limits.small_tensor_size ≤ limits.small_tensor_compact_cache_size
unfolding check_sizes
checked-le small cache bucket limits e = ground (arith, e)

-- In a table whose constructor has accepted its sizes, with copies that lie inside their buffers and
-- apart, asking for the copy of a source with items of at least a byte succeeds and keeps the copies so.
-- The key has the copy from then on; it is the one that the key had, or a new one of the size of the
-- source, and other keys keep theirs.
pub get_or_create-IsPacked :
    (small cache bucket : ℕ) (limits : Limits) (key : ShardedKey) (source : Source) (c : Copies)
    → check_sizes small cache bucket ≡ some limits
    → 0 < source.item_size
    → IsPacked limits c
    → (c' : Copies) × (copy : Copy) × (get_or_create_local_tensor_copy limits key source c
        ≡ some (c', copy))
      × IsPacked limits c'
      × ((find_copy key c.local_tensor_mapping ≡ some copy)
          ⊎ (find_copy key c.local_tensor_mapping ≡ none) × IsCopyOf source copy)
      × ((other : ShardedKey)
          → find_copy other c'.local_tensor_mapping
            ≡ (if same_key key other then some copy else find_copy other c.local_tensor_mapping))
unfolding get_or_create_local_tensor_copy
get_or_create-IsPacked small cache bucket limits key source c checked p h =
    elim (Option-cases (find_copy key c.local_tensor_mapping)) [
      | inl n ↦
          let (c', copy, e, k) =
            create_copy-IsCreated limits source c p (checked-le small cache bucket limits checked)
              h in
          (
            record c' { local_tensor_mapping = (key, copy) ∷ c'.local_tensor_mapping },
            copy,
            rw (n, get_or_create_local_tensor_copy) (rw e refl),
            record {
              offset_bound = k.bound;
              inside = (k.inside, rw k.same k.older);
              packed = (rw k.same k.apart, rw k.same h.packed);
            },
            inr (n, k.copies),
            λ other. rw k.same (find_copy_cons key other copy c.local_tensor_mapping),
          )
      | inr (copy, e) ↦ (
        c,
        copy,
        rw (e, get_or_create_local_tensor_copy) refl,
        h,
        inl e,
        find_copy_again key copy c.local_tensor_mapping e,
      )
    ]
