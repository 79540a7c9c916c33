-- ===== src/Remote/Packed.antt =====
-- The copies of small tensors do not overlap.
use asystem_astate.Base.{
  ℕ, ◌+◌, ◌-◌, ◌*◌, ◌/◌, ◌%◌, ◌≤◌, ◌<◌, ◌≡◌, refl, sym, ap, ◌∙◌, ◌⊎◌, inl, inr, ◌==◌, ltb,
  Bool-cases, some, List, [], ◌∷◌, All, arith, ==→eq, ltb→lt, ltb→le, le→leb,
}
use native.Mathlib.Nat.{div-add-mod', mod-lt, mul-div_cancel, zero-div, le-div_iff_mul-le}
use asystem_astate.Shard.Types.{ShardedKey}
use asystem_astate.Remote.Copies.{
  Source, numel, byte_size, Copy, own, slice, Limits, Copies, align_storage_offset, slice_view,
  make_room,
}

-- The copy lies in a buffer of the size, and in the newest one before the offset.
abbrev pub IsInside : Limits → ℕ → ℕ → Copy → Type 0
IsInside limits newest offset (own source) = Unit {0}
IsInside limits newest offset (slice b first count item) =
    (b ≤ newest)
    × ((first + count) * item ≤ limits.small_tensor_compact_cache_size)
    × (b ≡ newest → (first + count) * item ≤ offset)

-- The copies share no byte.
abbrev pub IsApart : Copy → Copy → Type 0
IsApart (own source) c = Unit {0}
IsApart (slice b first count item) (own source) = Unit {0}
IsApart (slice b first count item) (slice b' first' count' item') =
    (b' < b)
    ⊎ (b < b')
    ⊎ ((first' + count') * item' ≤ first * item)
    ⊎ ((first + count) * item ≤ first' * item')

abbrev pub ArePacked : List (ShardedKey × Copy) → Type 0
ArePacked [] = Unit {0}
ArePacked (entry ∷ entries) = All (λ e. IsApart entry.1 e.1) entries × ArePacked entries

pub record IsPacked (limits : Limits) (c : Copies) : Type 0 where
  pub offset_bound : c.small_tensor_compact_cache_offset ≤ limits.small_tensor_compact_cache_size
  pub inside :
      All
        (λ e. IsInside limits c.buffer c.small_tensor_compact_cache_offset e.1)
        c.local_tensor_mapping
  pub packed : ArePacked c.local_tensor_mapping

-- Rounding up does not fall below the offset.
aligned_up : (offset item : ℕ) → 0 < item → offset ≤ (offset + (item - 1)) / item * item
aligned_up offset item p =
    omega (arith, div-add-mod' (offset + (item - 1)) item, mod-lt (offset + (item - 1)) p)

align_bounds :
    (offset item : ℕ)
    → 0 < item
    → (offset ≤ align_storage_offset offset item)
      × (align_storage_offset offset item / item * item ≡ align_storage_offset offset item)
unfolding align_storage_offset
align_bounds offset item p = elim (Bool-cases (offset % item == 0)) [
  | inl z ↦ rw z (omega arith, omega (arith, div-add-mod' offset item, ==→eq (offset % item) 0 z))
  | inr n ↦ rw n (
    aligned_up offset item p,
    ap (λ k. k * item) (mul-div_cancel ((offset + (item - 1)) / item) p),
  )
]

-- There is room for the source behind the offset of `r`, after `c`.
pub record HasRoom (limits : Limits) (source : Source) (c r : Copies) : Type 0 where
  pub later :
      (c.buffer < r.buffer)
      ⊎ ((c.buffer ≡ r.buffer)
          × (c.small_tensor_compact_cache_offset ≤ r.small_tensor_compact_cache_offset))
  pub aligned :
      r.small_tensor_compact_cache_offset / source.item_size * source.item_size
      ≡ r.small_tensor_compact_cache_offset
  pub fits :
      r.small_tensor_compact_cache_offset + byte_size source
      ≤ limits.small_tensor_compact_cache_size
  pub same : r.local_tensor_mapping ≡ c.local_tensor_mapping

pub make_room-HasRoom :
    (limits : Limits) (source : Source) (c : Copies)
    → 0 < source.item_size
    → byte_size source ≤ limits.small_tensor_compact_cache_size
    → HasRoom limits source c (make_room limits source c)
unfolding make_room
make_room-HasRoom limits source c p s =
    let offset = align_storage_offset c.small_tensor_compact_cache_offset source.item_size in
    let (up, aligned) = align_bounds c.small_tensor_compact_cache_offset source.item_size p in
    elim (Bool-cases (ltb limits.small_tensor_compact_cache_size (offset + byte_size source))) [
      | inl z ↦ rw z (record {
        later = inl (omega arith);
        aligned = omega (arith, zero-div source.item_size);
        fits = omega (arith, s);
        same = refl;
      })
      | inr z ↦ rw z (record {
        later = inr (refl, up);
        aligned = aligned;
        fits = ltb→le limits.small_tensor_compact_cache_size (offset + byte_size source) z;
        same = refl;
      })
    ]

-- What lay in the buffers before the room lies in them after it, before the new copy.
pub IsInside-later :
    (limits : Limits) (source : Source) (c r : Copies) (copy : Copy)
    → HasRoom limits source c r
    → IsInside limits c.buffer c.small_tensor_compact_cache_offset copy
    → IsInside limits r.buffer r.small_tensor_compact_cache_offset copy
IsInside-later limits source c r (own s) h i = tt
IsInside-later limits source c r (slice b first count item) h (le, fits, before) = elim h.later [
  | inl l ↦ (omega (arith, le, l), fits, λ e. absurd (omega (arith, le, l, e)))
  | inr (e, u) ↦ (omega (arith, le, e), fits, λ k. omega (arith, before (k ∙ sym e), u))
]

-- A new copy from the offset on is apart from what lies before the offset.
pub IsApart-new :
    (limits : Limits) (newest offset first count item : ℕ) (copy : Copy)
    → first * item ≡ offset
    → IsInside limits newest offset copy
    → IsApart (slice newest first count item) copy
IsApart-new limits newest offset first count item (own s) e i = tt
IsApart-new limits newest offset first count item (slice b first' count' item') e
      (le, fits, before) =
    elim (Bool-cases (ltb b newest)) [
      | inl l ↦ inl (ltb→lt b newest l)
      | inr n ↦ inr (inr (inl (omega (arith, e, before (omega (arith, le, ltb→le b newest n))))))
    ]

-- A small source gets a slice of the room, and the view does not throw.
pub slice_view_lem :
    (limits : Limits) (source : Source) (c r : Copies)
    → 0 < source.item_size
    → HasRoom limits source c r
    → slice_view r.buffer
        (limits.small_tensor_compact_cache_size / source.item_size)
        (r.small_tensor_compact_cache_offset / source.item_size)
        (numel source.sizes)
        source.item_size
      ≡ some (
          slice r.buffer
            (r.small_tensor_compact_cache_offset / source.item_size)
            (numel source.sizes)
            source.item_size)
unfolding slice_view byte_size
slice_view_lem limits source c r p h =
    let first = r.small_tensor_compact_cache_offset / source.item_size in
    let fits : (first + numel source.sizes) * source.item_size
        ≤ limits.small_tensor_compact_cache_size =
      grind (arith, h.aligned, h.fits) in
    rw
      (le→leb (first + numel source.sizes)
        (limits.small_tensor_compact_cache_size / source.item_size) ((le-div_iff_mul-le p).1 fits))
      refl
