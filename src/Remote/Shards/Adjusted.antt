-- ===== src/Remote/Shards/Adjusted.antt =====
-- A shard that is adjusted has the elements of the operation at the places that they had.
use asystem_astate.Base.{
  ℕ, ◌+◌, ◌-◌, ◌*◌, ◌≤◌, ◌<◌, ◌≡◌, refl, sym, ap, ◌∙◌, subst, Bool, true, false, ◌==◌, Bool-cases,
  Option-cases, inl, inr, some, List, [], ◌∷◌, length, arith,
}
use asystem_astate.Shard.Types.{ShardedKey, CopyOperation, ok}
use asystem_astate.Shard.Blocks.{InBlock}
use asystem_astate.Shard.Rows.{Holds, prefix-length}
use asystem_astate.Shard.Intersect.{sums}
use asystem_astate.Shard.Regions.{InRegion}
use asystem_astate.Remote.Shards.{
  Placed, Meta, inner_stride, contiguous, is_contiguous_shard, adjust, try_adjust_global_offset,
  Piece, piece_of,
}

-- How far the item at `coords` is from the one at `base`.
abbrev pub distance : List ℕ → List ℕ → List ℕ → ℕ
distance (s ∷ strides) (c ∷ coords) (o ∷ base) = s * (c - o) + distance strides coords base
distance _ _ _ = 0

-- The place of the item at `coords` of the whole tensor.
abbrev pub item_at : ShardedKey → Placed → List ℕ → ℕ
item_at key a coords = a.storage_offset + distance a.stride coords key.global_offset

-- All vectors have one element for each dimension, of which there is at least one.
abbrev pub IsWellPlaced : Meta → Type 0
IsWellPlaced meta =
    (length meta.1.tensor.size ≡ meta.1.tensor.dim_num)
    × (length meta.1.stride ≡ meta.1.tensor.dim_num)
    × (length meta.0.global_offset ≡ meta.1.tensor.dim_num)
    × (0 < meta.1.tensor.dim_num)

inner_stride-same :
    (sizes shape strides : List ℕ) (stride : ℕ)
    → inner_stride sizes shape strides ≡ some stride
    → sizes ≡ shape
unfolding inner_stride
inner_stride-same [] [] [] stride e = refl
inner_stride-same [] [] (s ∷ strides) stride e = absurd (ground (arith, e))
inner_stride-same [] (m ∷ shape) strides stride e = absurd (ground (arith, e))
inner_stride-same (n ∷ sizes) [] strides stride e = absurd (ground (arith, e))
inner_stride-same (n ∷ sizes) (m ∷ shape) [] stride e = absurd (ground (arith, e))
inner_stride-same (n ∷ sizes) (m ∷ shape) (s ∷ strides) stride e =
    elim (Option-cases (inner_stride sizes shape strides)) [
      | inl i ↦ absurd (ground (arith, rw i at e))
      | inr (inner, i) ↦
          let same = inner_stride-same sizes shape strides inner i in
          let head : n ≡ m = ground (arith, rw i at e) in cc (head, same)
    ]

-- The lists agree behind their first elements.
abbrev SameTails : List ℕ → List ℕ → Type 0
SameTails (n ∷ sizes) (m ∷ shape) = sizes ≡ shape
SameTails _ _ = Unit

contiguous-SameTails :
    (sizes shape strides : List ℕ)
    → length strides ≡ length sizes
    → contiguous sizes shape strides ≡ true
    → SameTails sizes shape
unfolding contiguous
contiguous-SameTails [] shape strides l e = tt
contiguous-SameTails (n ∷ sizes) [] strides l e = tt
contiguous-SameTails (n ∷ sizes) (m ∷ shape) [] l e = absurd (omega (arith, l))
contiguous-SameTails (n ∷ sizes) (m ∷ shape) (s ∷ strides) l e =
    elim (Option-cases (inner_stride sizes shape strides)) [
      | inl i ↦ absurd (ground (arith, rw (i, contiguous) at e))
      | inr (stride, i) ↦ inner_stride-same sizes shape strides stride i
    ]

-- What `IsContiguousShard` answers.
is_contiguous_shard-SameTails :
    (a : Placed) (shape : List ℕ)
    → length a.tensor.size ≡ a.tensor.dim_num
    → length a.stride ≡ a.tensor.dim_num
    → (answer : Bool) × (is_contiguous_shard a shape ≡ ok answer)
      × (answer ≡ true → SameTails a.tensor.size shape)
unfolding is_contiguous_shard
is_contiguous_shard-SameTails a shape l k = elim (Bool-cases (a.tensor.dim_num == length shape)) [
  | inr d ↦ (false, rw d refl, λ e. absurd (ground (arith, e)))
  | inl d ↦ (
    contiguous a.tensor.size shape a.stride,
    rw
        (
          d,
          prefix-length a.tensor.dim_num a.tensor.size l,
          prefix-length a.tensor.dim_num a.stride k,
        )
        refl,
    contiguous-SameTails a.tensor.size shape a.stride (k ∙ sym l),
  )
]

-- The tensor and the key have the elements of the operation where the shard has them.
abbrev pub Keeps : Meta → CopyOperation → ShardedKey → Placed → Type 0
Keeps meta op key a =
    (coords : List ℕ)
    → Holds meta.0 meta.1.tensor coords
    → InRegion coords meta.0.global_offset op.src_offset op.copy_shape
    → Holds key a.tensor coords × (item_at key a coords ≡ item_at meta.0 meta.1 coords)

moved_item : (b s o c g : ℕ) → g + o ≤ c → b + s * o + s * (c - (g + o)) ≡ b + s * (c - g)
moved_item b s o c g l = spread (c - (g + o)) ∙ ap (λ x. b + s * x) (omega (arith, l))
  where
    spread : (x : ℕ) → b + s * o + s * x ≡ b + s * (o + x)
    spread x = grind arith

-- The move of the first offset and of the first item.
moved :
    (strides os gs sizes shape coords : List ℕ) (b s o g : ℕ)
    → InBlock coords (g ∷ gs) sizes
    → InBlock coords (sums (g ∷ gs) (o ∷ os)) shape
    → SameTails sizes shape
    → InBlock coords ((g + o) ∷ gs) shape
      × (b + s * o + distance (s ∷ strides) coords ((g + o) ∷ gs)
          ≡ b + distance (s ∷ strides) coords (g ∷ gs))
moved strides os gs sizes shape [] b s o g h k e = absurd k
moved strides os gs sizes [] (c ∷ coords) b s o g h k e = absurd k
moved strides os gs [] (m ∷ shape) (c ∷ coords) b s o g h k e = absurd h
moved strides os gs (n ∷ sizes) (m ∷ shape) (c ∷ coords) b s o g h k e =
    ((k.0, k.1, subst (InBlock coords gs) e h.2), omega (arith, moved_item b s o c g k.0))

-- The part under the test, for vectors with as many elements as the shard has dimensions.
adjust-lists :
    (strides os gs : List ℕ) (a : Placed) (key : ShardedKey) (op : CopyOperation)
    → length strides ≡ a.tensor.dim_num
    → length os ≡ a.tensor.dim_num
    → length gs ≡ a.tensor.dim_num
    → 0 < a.tensor.dim_num
    → SameTails a.tensor.size op.copy_shape
    → (a' : Placed) × (key' : ShardedKey) × (adjust strides os gs op.copy_shape
          (record a { stride = strides })
          (record key { global_offset = gs })
        ≡ ok (a', key'))
      × (a.storage_offset ≤ a'.storage_offset)
      × Keeps
          (record key { global_offset = gs }, record a { stride = strides })
          (record op { src_offset = os })
          key'
          a'
unfolding adjust
adjust-lists [] os gs a key op l k m d same = absurd (omega (arith, l, d))
adjust-lists (s ∷ strides) [] gs a key op l k m d same = absurd (omega (arith, k, d))
adjust-lists (s ∷ strides) (o ∷ os) [] a key op l k m d same = absurd (omega (arith, m, d))
adjust-lists (s ∷ strides) (o ∷ os) (g ∷ gs) a key op l k m d same = (
  record {
    tensor = record a.tensor { size = op.copy_shape };
    stride = s ∷ strides;
    storage_offset = a.storage_offset + s * o;
  },
  record key { global_offset = (g + o) ∷ gs },
  refl,
  omega arith,
  λ coords h r.
      moved strides os gs a.tensor.size op.copy_shape coords a.storage_offset s o g h r same,
)

-- What the loop adds for an operation, whether it adjusts the shard or not.
pub piece_of-Keeps :
    (meta : Meta) (try_prune_redundant_shard : Bool) (op : CopyOperation)
    → IsWellPlaced meta
    → length op.src_offset ≡ meta.1.tensor.dim_num
    → (piece : Piece) × (piece_of meta try_prune_redundant_shard op ≡ ok piece)
      × (piece.raw ≡ meta.0)
      × (meta.1.storage_offset ≤ piece.placed.storage_offset)
      × Keeps meta op piece.adjusted piece.placed
unfolding piece_of try_adjust_global_offset
piece_of-Keeps meta false op (l, k, m, d) o = (
  record { raw = meta.0; adjusted = meta.0; placed = meta.1 },
  refl,
  refl,
  omega arith,
  λ coords h r. (h, refl),
)
piece_of-Keeps meta true op (l, k, m, d) o =
    let (answer, e, same) = is_contiguous_shard-SameTails meta.1 op.copy_shape l k in
    elim (Bool-cases answer) [
      | inr n ↦ (
        record { raw = meta.0; adjusted = meta.0; placed = meta.1 },
        rw (e, n) refl,
        refl,
        omega arith,
        λ coords h r. (h, refl),
      )
      | inl y ↦
          let (a, key, e', later, keeps) =
            adjust-lists meta.1.stride op.src_offset meta.0.global_offset meta.1 meta.0 op k o m d
              (same y) in
          (
            record { raw = meta.0; adjusted = key; placed = a },
            rw (e, y, e') refl,
            refl,
            later,
            keeps,
          )
    ]
