-- ===== src/Remote/Fetches.antt =====
-- What `ReadTensors` receives for the shards that `GetRemoteTensorShards` names.
use asystem_astate.Base.{
  ℕ, ◌+◌, ◌*◌, ◌==◌, ◌≤◌, ◌≡◌, refl, sym, ap, ◌∙◌, subst, Bool, true, Bool-cases, inl, inr, le→ltb,
  ==→eq, Option, none, some, List, [], ◌∷◌, All, Any, arith,
}
use asystem_astate.Shard.Types.{ShardedKey, ATensor, Outcome, ok}
use asystem_astate.Shard.Rows.{Holds}
use native.Mathlib.Nat.{mul-le-mul_right}
use asystem_astate.Protocol.Nodes.{NodeInfo}
use asystem_astate.Remote.Shards.{
  Placed, Meta, Piece, Mappings, find_pieces, metas_of, get_remote_tensor_shards,
}
use asystem_astate.Remote.Shards.Adjusted.{distance, item_at}
use asystem_astate.Remote.Strides.{IsRowMajor, distance-lt}
use asystem_astate.Remote.Shards.Pieces.{IsIn, Delivers}
use asystem_astate.Remote.Shards.Deliver.{IsServed, get_remote_tensor_shards-Deliver}
use asystem_astate.Remote.Reads.{
  TensorRdmaInfo, Fetch, remote_byte_offset, total_byte_size, chosen_info, get_remote, lay_out,
  get_queries, read_tensors,
}

-- Where both storages begin, the offset is that of the asked tensor.
remote_byte_offset_behind :
    (item_size asked published : ℕ)
    → published ≤ asked
    → remote_byte_offset item_size asked published ≡ asked * item_size
unfolding remote_byte_offset
remote_byte_offset_behind item_size asked published l = elim (Bool-cases (asked == published)) [
  | inl e ↦ rw e (ap (λ n. n * item_size) (sym (==→eq asked published e)))
  | inr n ↦ elim (Bool-cases (asked == 0)) [
    | inl z ↦ rw (n, z) (ap (λ n. n * item_size) (omega (arith, l, ==→eq asked 0 z)))
    | inr m ↦ rw (n, m) refl
  ]
]

module _ (item_size : ℕ → ℕ) (receives : NodeInfo → ℕ → ℕ → Bool) (role_rank : ℕ)
    (rdma_infos : ShardedKey → List TensorRdmaInfo) where
  abbrev pub bytes : Placed → ℕ
  bytes = total_byte_size item_size receives role_rank rdma_infos

  abbrev pub chosen : ShardedKey → Option TensorRdmaInfo
  chosen = chosen_info item_size receives role_rank rdma_infos

  -- The bytes of the pieces.
  abbrev pub sum_bytes : List Piece → ℕ
  sum_bytes [] = 0
  sum_bytes (piece ∷ pieces) = bytes piece.placed + sum_bytes pieces

  -- The chosen sender has all of the piece in its memory, with the strides of row-major order, from
  -- where the transport receives it.
  abbrev pub IsReadable : Piece → Type 0
  IsReadable piece =
      (info : TensorRdmaInfo) × (chosen piece.raw ≡ some info)
      × IsRowMajor piece.placed.stride piece.placed.tensor.size
      × (info.storage_offset ≤ piece.placed.storage_offset)
      × (piece.placed.storage_offset * item_size piece.placed.tensor.dtype + bytes piece.placed
          ≤ info.size)
      × (receives info.node_info
            (info.addr + piece.placed.storage_offset * item_size piece.placed.tensor.dtype)
            (bytes piece.placed)
          ≡ true)

  -- What is received for a piece.
  abbrev FetchOf : Piece → ℕ → Fetch → Type 0
  FetchOf piece local fetch =
      (info : TensorRdmaInfo) × (chosen piece.raw ≡ some info)
      × IsRowMajor piece.placed.stride piece.placed.tensor.size
      × (fetch ≡ record {
        piece = piece;
        local = local;
        node_info = info.node_info;
        remote_addr = info.addr + piece.placed.storage_offset * item_size piece.placed.tensor.dtype;
        byte_size = bytes piece.placed;
      })

  get_remote-FetchOf :
      (piece : Piece) (local : ℕ)
      → IsReadable piece
      → (fetch : Fetch) × (get_remote item_size receives role_rank rdma_infos piece local
          ≡ some fetch)
        × FetchOf piece local fetch
  unfolding get_remote
  get_remote-FetchOf piece local (info, e, strides, l, fits, received) =
      let offset =
        remote_byte_offset_behind (item_size piece.placed.tensor.dtype) piece.placed.storage_offset
          info.storage_offset l in
      let small =
        le→ltb info.size
          (piece.placed.storage_offset * item_size piece.placed.tensor.dtype + bytes piece.placed)
          fits in
      (
        record {
          piece = piece;
          local = local;
          node_info = info.node_info;
          remote_addr =
              info.addr + piece.placed.storage_offset * item_size piece.placed.tensor.dtype;
          byte_size = bytes piece.placed;
        },
        rw (e, offset, small, received) refl,
        (info, e, strides, refl),
      )

  -- The fetches lie one behind the other in the cache.
  abbrev pub InTurn : ℕ → ℕ → List Fetch → Type 0
  InTurn total_size offset [] = offset ≤ total_size
  InTurn total_size offset (fetch ∷ fetches) =
      (fetch.local ≡ offset) × InTurn total_size (offset + fetch.byte_size) fetches

  -- The fetches of the pieces, in their order.
  abbrev FetchesOf : List Piece → List Fetch → Type 0
  FetchesOf [] [] = Unit
  FetchesOf (piece ∷ pieces) (fetch ∷ fetches) =
      FetchOf piece fetch.local fetch × FetchesOf pieces fetches
  FetchesOf _ _ = ⊥

  lay_out-InTurn :
      (total_size offset : ℕ) (pieces : List Piece)
      → All IsReadable pieces
      → offset + sum_bytes pieces ≤ total_size
      → (queries : List (ℕ × Piece)) × (fetches : List Fetch) × (lay_out item_size receives
            role_rank rdma_infos total_size offset pieces
          ≡ some queries)
        × (get_queries item_size receives role_rank rdma_infos queries ≡ some fetches)
        × InTurn total_size offset fetches
        × FetchesOf pieces fetches
  unfolding lay_out get_queries
  lay_out-InTurn total_size offset [] h l = ([], [], refl, refl, omega (arith, l), tt)
  lay_out-InTurn total_size offset (piece ∷ pieces) (h, hs) l =
      let (fetch, e, f) = get_remote-FetchOf piece offset h in
      let (queries, fetches, e', es, turn, fs) =
        lay_out-InTurn total_size (offset + bytes piece.placed) pieces hs (omega (arith, l)) in
      (
        (offset, piece) ∷ queries,
        fetch ∷ fetches,
        rw (le→ltb total_size (offset + bytes piece.placed) (omega (arith, l)), e') refl,
        rw (e, es) refl,
        subst (λ (x : Fetch). (x.local ≡ offset) × InTurn total_size (offset + x.byte_size) fetches)
            (sym f.3) (refl, turn),
        (subst (λ n. FetchOf piece n fetch) (sym (ap (λ (x : Fetch). x.local) f.3)) f, fs),
      )

  -- The element at `coords` is among the received bytes, and is received from where a sender of the list has it: from the storage of the
  -- sender that is chosen for the shard, in the place that the shard gives it.
  abbrev pub Fetches : List Meta → List ℕ → Fetch → Type 0
  Fetches metas coords fetch =
      (meta : Meta) × IsIn meta metas
      × Holds meta.0 meta.1.tensor coords
      × Holds fetch.piece.adjusted fetch.piece.placed.tensor coords
      × (info : TensorRdmaInfo) × (chosen meta.0 ≡ some info)
      × (fetch.node_info ≡ info.node_info)
      × (distance fetch.piece.placed.stride coords fetch.piece.adjusted.global_offset
              * item_size fetch.piece.placed.tensor.dtype
            + item_size fetch.piece.placed.tensor.dtype
          ≤ fetch.byte_size)
      × (fetch.remote_addr
            + distance fetch.piece.placed.stride coords fetch.piece.adjusted.global_offset
              * item_size fetch.piece.placed.tensor.dtype
          ≡ info.addr + item_at meta.0 meta.1 coords * item_size fetch.piece.placed.tensor.dtype)

  inside :
      (a : Placed) (key : ShardedKey) (coords : List ℕ)
      → IsRowMajor a.stride a.tensor.size
      → Holds key a.tensor coords
      → distance a.stride coords key.global_offset * item_size a.tensor.dtype
          + item_size a.tensor.dtype
        ≤ bytes a
  unfolding total_byte_size
  inside a key coords strides has =
      let d = distance-lt a.stride a.tensor.size coords key.global_offset strides has in
      grind (arith, mul-le-mul_right (item_size a.tensor.dtype) d)

  FetchOf-Fetches :
      (metas : List Meta) (coords : List ℕ) (piece : Piece) (local : ℕ) (fetch : Fetch)
      → FetchOf piece local fetch
      → Delivers metas coords piece
      → Fetches metas coords fetch
  FetchOf-Fetches metas coords piece local fetch (info, e, strides, f)
        (meta, m, raw, held, has, place, _) =
      subst (Fetches metas coords) (sym f) (
        meta,
        m,
        held,
        has,
        info,
        subst (λ k. chosen k ≡ some info) raw e,
        refl,
        inside piece.placed piece.adjusted coords strides has,
        there info.addr piece.placed.storage_offset
              (distance piece.placed.stride coords piece.adjusted.global_offset)
              (item_size piece.placed.tensor.dtype)
            ∙ ap (λ n. info.addr + n * item_size piece.placed.tensor.dtype) place,
      )
    where
      there : (a o d w : ℕ) → a + o * w + d * w ≡ a + (o + d) * w
      there a o d w = grind arith

  FetchesOf-Any :
      (metas : List Meta) (coords : List ℕ) (pieces : List Piece) (fetches : List Fetch)
      → FetchesOf pieces fetches
      → Any (Delivers metas coords) pieces
      → Any (Fetches metas coords) fetches
  FetchesOf-Any metas coords [] fetches fs d = absurd d
  FetchesOf-Any metas coords (piece ∷ pieces) [] fs d = absurd fs
  FetchesOf-Any metas coords (piece ∷ pieces) (fetch ∷ fetches) (f, fs) (inl d) =
      inl (FetchOf-Fetches metas coords piece fetch.local fetch f d)
  FetchesOf-Any metas coords (piece ∷ pieces) (fetch ∷ fetches) (f, fs) (inr d) =
      inr (FetchesOf-Any metas coords pieces fetches fs d)

  pieces_of : Mappings × Outcome (List Piece) → List Piece
  pieces_of (c, ok pieces) = pieces
  pieces_of _ = []

  read_tensors-InTurn :
      (total_size : ℕ) (pieces : List Piece)
      → All IsReadable pieces
      → sum_bytes pieces ≤ total_size
      → (fetches : List Fetch) × (read_tensors item_size receives role_rank rdma_infos total_size
            pieces
          ≡ some fetches)
        × InTurn total_size 0 fetches
        × FetchesOf pieces fetches
  unfolding read_tensors
  read_tensors-InTurn total_size pieces h l =
      let (queries, fetches, e, es, turn, fs) =
        lay_out-InTurn total_size 0 pieces h (omega (arith, l)) in
      (fetches, rw (e, es) refl, turn, fs)

  -- If the target lies in the whole tensor and the shards of its name are usable and hold it, if
  -- each piece that the search for shards returns on a new key has row-major strides, a sender is
  -- chosen for it that has its bytes and whose published offset is not behind that of the piece,
  -- and the transport receives those bytes, and if all pieces together fit the local cache, then
  -- the pieces are received one behind the other in the cache. Each element of the target is among
  -- the bytes that are received for a piece, and is received from the place in the chosen sender's
  -- memory that a shard of the list gives it.
  pub read_tensors-Fetches :
      (total_size : ℕ) (published : List Meta) (key : ShardedKey) (target : ATensor)
      (try_prune_redundant_shard : Bool) (c c' : Mappings) (pieces : List Piece) (coords : List ℕ)
      → find_pieces key c.shard_mapping ≡ none
      → IsServed (metas_of published c) key target
      → get_remote_tensor_shards published key target try_prune_redundant_shard c ≡ (c', ok pieces)
      → All IsReadable pieces
      → sum_bytes pieces ≤ total_size
      → Holds key target coords
      → (fetches : List Fetch) × (read_tensors item_size receives role_rank rdma_infos total_size
            pieces
          ≡ some fetches)
        × InTurn total_size 0 fetches
        × Any (Fetches (metas_of published c) coords) fetches
  unfolding pieces_of
  read_tensors-Fetches total_size published key target try_prune_redundant_shard c c' pieces coords
        new served e h l held =
      let (_, found, e', deliver, _) =
        get_remote_tensor_shards-Deliver published key target try_prune_redundant_shard c coords new
          served held in
      let (fetches, r, turn, fs) = read_tensors-InTurn total_size pieces h l in
      let same : found ≡ pieces = ap pieces_of (sym e' ∙ e) in
      (
        fetches,
        r,
        turn,
        FetchesOf-Any (metas_of published c) coords pieces fetches fs
            (subst (Any (Delivers (metas_of published c) coords)) same deliver),
      )
