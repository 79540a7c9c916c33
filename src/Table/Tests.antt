-- ===== src/Table/Tests.antt =====
-- Two halves of a row of four elements, put into a table and read back as its middle.
use asystem_astate.Base.{
  Option, false, ℕ, ◌+◌, ◌≡◌, refl, inl, inr, Bool-cases, if◌then◌else◌, none, some, List, [], ◌∷◌,
  arith,
}
use asystem_astate.Shard.Types.{ShardedKey}
use asystem_astate.Shard.Copy.{differences}
use asystem_astate.Shard.Intersect.{sums}
use asystem_astate.Protocol.Keys.{same_key, same_numbers}
use asystem_astate.Table.Torch.{Torch, IsTorch, returns, raises}
use asystem_astate.Table.Memory.{
  TableData, put, multi_put, assign, change_seq, find_seq, get, get_tensor_shards,
}
use asystem_astate.Table.Copy.{IsPart, HasDims}
use asystem_astate.Table.Put.{held, multi_put-held}
use asystem_astate.Table.Search.{stored, named, get_tensor_shards-eq}
use asystem_astate.Table.Get.{in_block, in_block_iff, covered, is_nil, get_fills}

record Array : Type 0 where
  dtype : ℕ
  size : List ℕ
  element : List ℕ → ℕ

abbrev arrays : Torch
arrays = record {
  Tensor = Array;
  scalar_type = λ t. t.dtype;
  sizes = λ t. t.size;
  at = λ t. t.element;
  clone = λ t. t;
  zeros = λ ns dtype. record { dtype = dtype; size = ns; element = λ _. 0 };
  copy_block = λ s t so to ns. record t {
    element =
        λ cs. if in_block cs to ns then s.element (sums so (differences cs to)) else t.element cs;
  };
}

arrays-IsTorch : IsTorch arrays
arrays-IsTorch = record {
  clone_type = λ t. refl;
  clone_sizes = λ t. refl;
  clone_at = λ t cs. refl;
  copy_type = λ s t so to ns. refl;
  copy_sizes = λ s t so to ns. refl;
  copy_inside = λ s t so to ns cs h. rw ((in_block_iff cs to ns).1 h) refl;
  copy_outside = λ s t so to ns cs h. elim (Bool-cases (in_block cs to ns)) [
    | inl b ↦ absurd (h ((in_block_iff cs to ns).0 b))
    | inr b ↦ rw b refl
  ];
}

-- The whole row: 10, 11, 12, 13.
abbrev whole : List ℕ → ℕ
whole [] = 0
whole (c ∷ cs) = 10 + c

abbrev part : ℕ → ShardedKey
part offset = record { key = "row"; global_shape = 4 ∷ []; global_offset = offset ∷ [] }

abbrev piece : ℕ → Array
piece offset = record { dtype = 6; size = 2 ∷ []; element = λ cs. whole (sums (offset ∷ []) cs) }

abbrev table : TableData arrays
table = (3, (part 0, piece 0) ∷ (part 2, piece 2) ∷ []) ∷ []

table_built :
    (put arrays (put arrays [] 3 (part 0) (some (piece 0))).0 3 (part 2) (some (piece 2))).0 ≡ table
unfolding put change_seq assign same_key same_numbers
table_built = refl

abbrev blank : Array
blank = record { dtype = 6; size = 2 ∷ []; element = λ _. 0 }

row_held : named arrays "row" (stored arrays table 3) ≡ (part 0, piece 0) ∷ (part 2, piece 2) ∷ []
unfolding find_seq
row_held = refl

piece-IsPart : (offset : ℕ) → IsPart arrays arrays-IsTorch whole (part offset, piece offset)
unfolding differences
piece-IsPart offset [] h = absurd h
piece-IsPart offset (c ∷ []) h = omega (arith, h.0)
piece-IsPart offset (c ∷ d ∷ cs) h = absurd h.2

piece-HasDims : (offset : ℕ) → HasDims arrays arrays-IsTorch whole 1 (part offset, piece offset)
piece-HasDims offset = record { shape = refl; offset = refl; size = refl }

-- The element 12 of the whole row, at place 1 of the target.
get_fills_example :
    (after : Array) × (get arrays table 3 (part 1) (some blank)
      ≡ returns
          (if is_nil arrays (named arrays "row" (stored arrays table 3)) then none else some after))
    × (after.dtype ≡ 6)
    × (after.size ≡ 2 ∷ [])
    × (after.element (differences (2 ∷ []) (1 ∷ [])) ≡ (
        if covered arrays (2 ∷ []) (named arrays "row" (stored arrays table 3))
        then 12
        else blank.element (differences (2 ∷ []) (1 ∷ []))))
unfolding find_seq
get_fills_example =
    get_fills arrays arrays-IsTorch whole table 3 (part 1) blank 1 (2 ∷ []) refl refl refl
      ((piece-HasDims 0, piece-IsPart 0), ((piece-HasDims 2, piece-IsPart 2), tt))
      (omega arith, omega arith, tt)

get_tensor_shards-eq_example :
    get_tensor_shards arrays table (part 1) 3 (record blank { dtype = 5 }) ≡ raises
unfolding find_seq
get_tensor_shards-eq_example =
    get_tensor_shards-eq arrays table (part 1) 3 (record blank { dtype = 5 })

-- The second object is no tensor, so the third is not stored.
abbrev batch : List (ShardedKey × Option Array)
batch = (part 0, some (piece 0)) ∷ (part 2, none) ∷ (part 2, some (piece 2)) ∷ []

multi_put-held_example :
    (held arrays (multi_put arrays [] 3 batch).0 3 (part 2) ≡ none)
    × ((multi_put arrays [] 3 batch).1 ≡ false)
    × (put arrays [] 3 (part 2) (some blank) ≡ multi_put arrays [] 3 ((part 2, some blank) ∷ []))
unfolding find_seq same_key same_numbers
multi_put-held_example = multi_put-held arrays [] 3 batch 3 (part 2) blank
