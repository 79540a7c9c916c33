-- ===== src/Remote/Shards/Deliver.antt =====
-- `GetRemoteTensorShards` delivers every element of the target.
use Prim.Native.String.{String}
use text.Mathlib.Text.{◌==◌ as same_text}
use asystem_astate.Base.{
  ℕ, ◌≡◌, refl, sym, ap, ◌∙◌, subst, Bool, Bool-cases, inl, inr, none, some, List, [], ◌∷◌, length,
  map, All, All-imp, Any, Any-imp,
}
use asystem_astate.Shard.Types.{ShardedKey, ATensor, Shard, CopyOperation, ok}
use asystem_astate.Shard.Copy.{find_covering_candidates_unsafe}
use asystem_astate.Shard.Find.{validate_candidate_filter_params, find_covering_candidates}
use asystem_astate.Shard.Rows.{Shaped, Holds}
use asystem_astate.Shard.Coverage.{AllShaped, Covered}
use asystem_astate.Shard.Regions.{Belongs, find_covering_candidates_unsafe-Regions}
use asystem_astate.Shard.Validate.{Fits, andthen-ok}
use asystem_astate.Shard.Complete.{Filled, align, ok-injective}
use asystem_astate.Shard.Returns.{Matches, shapes, find_covering_candidates-returns}
use asystem_astate.Protocol.Roundtrip.Keys.{same_key_refl}
use asystem_astate.Remote.Shards.{
  Meta, shard_of, Piece, pieces, named, Mappings, find_pieces, metas_of, target_pieces,
  get_remote_tensor_shards,
}
use asystem_astate.Remote.Shards.Ordered.{find_covering_candidates_unsafe-Ordered}
use asystem_astate.Remote.Shards.Adjusted.{IsWellPlaced}
use asystem_astate.Remote.Shards.Pieces.{IsIn, Delivers, AllPlaced, pieces-Delivers}

-- A published shard that the target can be read from: its vectors have one element for each dimension,
-- it lies in the whole tensor, and it has the target's shape and data type.
abbrev pub IsUsable : Shard → Meta → Type 0
IsUsable t meta =
    IsWellPlaced meta
    × (length meta.0.global_shape ≡ meta.1.tensor.dim_num)
    × Fits (shard_of meta)
    × Matches t (shard_of meta)

-- The target lies in the whole tensor, and the published shards of its name are usable and hold it.
pub record IsServed (metas : List Meta) (key : ShardedKey) (target : ATensor) : Type 0 where
  pub shaped : Shaped key target
  pub dims : length key.global_shape ≡ target.dim_num
  pub fits : Fits (key, target)
  pub usable : All (IsUsable (key, target)) (named key.key metas)
  pub covered : Covered (map shard_of (named key.key metas)) key target

shard_of-All :
    (P : Meta → Type 0) (Q : Shard → Type 0) (metas : List Meta)
    → ((meta : Meta) → P meta → Q (shard_of meta))
    → All P metas
    → All Q (map shard_of metas)
shard_of-All P Q [] f h = tt
shard_of-All P Q (meta ∷ metas) f (p, h) = (f meta p, shard_of-All P Q metas f h)

named-IsIn :
    (name : String) (metas : List Meta) (meta : Meta)
    → IsIn meta (named name metas)
    → IsIn meta metas
unfolding named
named-IsIn name [] meta h = h
named-IsIn name (x ∷ metas) meta h = elim (Bool-cases (same_text x.0.key name)) [
  | inl s ↦ elim (rw s at h) [ inl e ↦ inl e | inr r ↦ inr (named-IsIn name metas meta r) ]
  | inr s ↦ inr (named-IsIn name metas meta (rw s at h))
]

module _ (metas : List Meta) (key : ShardedKey) (target : ATensor)
    (served : IsServed metas key target) (try_prune_redundant_shard : Bool) where
  abbrev t : Shard
  t = (key, target)

  abbrev candidates : List Shard
  candidates = map shard_of (named key.key metas)

  candidates-AllShaped : AllShaped candidates
  candidates-AllShaped = shard_of-All (IsUsable t) _ (named key.key metas) shaped served.usable
    where
      shaped : (meta : Meta) → IsUsable t meta → Shaped meta.0 meta.1.tensor
      shaped meta h = (h.0.2 ∙ sym h.1, h.0.0 ∙ sym h.1)

  candidates-Match : All (Matches t) candidates
  candidates-Match = shard_of-All (IsUsable t) _ (named key.key metas) (λ meta h. h.3) served.usable

  candidates-Fit : All Fits candidates
  candidates-Fit = shard_of-All (IsUsable t) _ (named key.key metas) (λ meta h. h.2) served.usable

  named-AllPlaced : AllPlaced (length key.global_shape) (named key.key metas)
  named-AllPlaced =
      All-imp (λ meta h. (h.0, sym h.1 ∙ ap length h.3.0)) (named key.key metas) served.usable

  -- The pieces of the operations that the search returns.
  ops-Deliver :
      (ops : List CopyOperation)
      → find_covering_candidates candidates key target ≡ ok ops
      → (ps : List Piece) × (pieces (named key.key metas) try_prune_redundant_shard ops ≡ ok ps)
        × ((coords : List ℕ)
            → Any (Filled candidates t coords) ops
            → Any (Delivers (named key.key metas) coords) ps)
  unfolding find_covering_candidates
  ops-Deliver ops e =
      let found =
        andthen-ok (validate_candidate_filter_params candidates key target)
          (find_covering_candidates_unsafe candidates key target) ops e in
      let (regions, e', belong, _) =
        find_covering_candidates_unsafe-Regions candidates t served.shaped
          (align candidates t candidates-AllShaped (shapes candidates t candidates-Match)) in
      let ordered =
        find_covering_candidates_unsafe-Ordered candidates t ops
          (shard_of-All (IsUsable t) _ (named key.key metas)
            (λ meta h. h.0.2 ∙ sym h.1 ∙ ap length h.3.0) served.usable)
          found.1 in
      pieces-Delivers (named key.key metas) t (length key.global_shape) named-AllPlaced
        try_prune_redundant_shard (named key.key metas) 0 ops (λ j l. refl) ordered
        (subst (All (Belongs 0 candidates t)) (ok-injective regions ops (sym e' ∙ found.1)) belong)

  target_pieces-Deliver :
      (coords : List ℕ)
      → Holds key target coords
      → (ps : List Piece) × (target_pieces metas key target try_prune_redundant_shard ≡ ok ps)
        × Any (Delivers metas coords) ps
  unfolding target_pieces
  target_pieces-Deliver coords h =
      let (ops, e, filled) =
        find_covering_candidates-returns candidates t coords candidates-AllShaped served.shaped
          served.dims served.fits candidates-Fit candidates-Match served.covered h in
      let (ps, e', deliver) = ops-Deliver ops e in
      (
        ps,
        rw (e, e') refl,
        Any-imp (λ piece d. (d.0, named-IsIn key.key metas d.0 d.1, d.2, d.3, d.4, d.5, d.6)) ps
            (deliver coords filled),
      )

find_pieces_new :
    (key : ShardedKey) (ps : List Piece) (entries : List (ShardedKey × List Piece))
    → find_pieces key ((key, ps) ∷ entries) ≡ some ps
unfolding find_pieces
find_pieces_new key ps entries = rw (same_key_refl key) refl

-- The mappings that a call leaves.
abbrev pub mapped : List Meta → ShardedKey → List Piece → Mappings → Mappings
mapped published key ps c = record {
  tensor_meta_list = some (metas_of published c);
  shard_mapping = (key, ps) ∷ c.shard_mapping;
}

pub first_call :
    (published : List Meta) (key : ShardedKey) (target : ATensor) (try_prune_redundant_shard : Bool)
    (c : Mappings) (ps : List Piece)
    → find_pieces key c.shard_mapping ≡ none
    → target_pieces (metas_of published c) key target try_prune_redundant_shard ≡ ok ps
    → get_remote_tensor_shards published key target try_prune_redundant_shard c
      ≡ (mapped published key ps c, ok ps)
unfolding get_remote_tensor_shards
first_call published key target try_prune_redundant_shard c ps new e =
    rw (get_remote_tensor_shards, new, e) refl

second_call :
    (later published : List Meta) (key : ShardedKey) (target : ATensor)
    (try_prune_redundant_shard : Bool) (c : Mappings) (ps : List Piece)
    → get_remote_tensor_shards later key target try_prune_redundant_shard
        (mapped published key ps c)
      ≡ (mapped published key ps c, ok ps)
unfolding get_remote_tensor_shards
second_call later published key target try_prune_redundant_shard c ps =
    rw (get_remote_tensor_shards, find_pieces_new key ps c.shard_mapping) refl

-- A call for a key that the mapping does not have, if the target lies in the whole tensor and the
-- shards of its name among those that the table has, or else those that are published, are usable and
-- hold the target: the call returns, and each element of the target is in a piece, in the
-- place where one of these shards has it, whether shards may be pruned or not. A second call for the
-- key returns the same pieces and changes nothing.
pub get_remote_tensor_shards-Deliver :
    (published : List Meta) (key : ShardedKey) (target : ATensor) (try_prune_redundant_shard : Bool)
    (c : Mappings) (coords : List ℕ)
    → find_pieces key c.shard_mapping ≡ none
    → IsServed (metas_of published c) key target
    → Holds key target coords
    → (c' : Mappings) × (ps : List Piece) × (get_remote_tensor_shards published key target
          try_prune_redundant_shard c
        ≡ (c', ok ps))
      × Any (Delivers (metas_of published c) coords) ps
      × ((later : List Meta)
          → get_remote_tensor_shards later key target try_prune_redundant_shard c' ≡ (c', ok ps))
get_remote_tensor_shards-Deliver published key target try_prune_redundant_shard c coords new served
      h =
    let (ps, e, deliver) =
      target_pieces-Deliver (metas_of published c) key target served try_prune_redundant_shard
        coords h in
    (
      mapped published key ps c,
      ps,
      first_call published key target try_prune_redundant_shard c ps new e,
      deliver,
      λ later. second_call later published key target try_prune_redundant_shard c ps,
    )
