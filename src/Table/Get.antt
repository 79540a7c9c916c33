-- ===== src/Table/Get.antt =====
-- `Get`: what it leaves in the target.
use asystem_astate.Base.{
  ℕ, ◌+◌, ◌≡◌, refl, ◌∙◌, ap, ◌⊎◌, ◌↔◌, inl, inr, Bool, true, false, ◌&&◌, ◌||◌, Bool-cases,
  if◌then◌else◌, none, some, List, [], ◌∷◌, length, All, Any, arith, leb, ltb,
}
use asystem_astate.Shard.Types.{ShardedKey}
use asystem_astate.Shard.Copy.{differences}
use asystem_astate.Shard.Blocks.{InBlock}
use asystem_astate.Shard.Intersect.{intersect-Intersects, region_of, copy_region-eq-intersect}
use asystem_astate.Table.Torch.{Torch, IsTorch, returns}
use asystem_astate.Table.Memory.{
  TensorDict, TableData, copied, copy_sharded, copy_shards, fill, get,
}
use asystem_astate.Table.Search.{stored, all_typed, named, get_tensor_shards-eq}
use asystem_astate.Table.Copy.{decide_InBlock, IsPart, HoldsAt, HasDims, IsFilled, copied-IsFilled}

abbrev pub in_block : List ℕ → List ℕ → List ℕ → Bool
in_block [] [] [] = true
in_block (c ∷ cs) (o ∷ os) (n ∷ ns) = leb o c && (ltb c (o + n) && in_block cs os ns)
in_block _ _ _ = false

pub in_block_iff : (cs os ns : List ℕ) → (in_block cs os ns ≡ true) ↔ InBlock cs os ns
in_block_iff [] [] [] = (λ h. tt, λ h. refl)
in_block_iff [] [] (n ∷ ns) = (λ h. absurd (cc h), λ h. absurd h)
in_block_iff [] (o ∷ os) ns = (λ h. absurd (cc h), λ h. absurd h)
in_block_iff (c ∷ cs) [] ns = (λ h. absurd (cc h), λ h. absurd h)
in_block_iff (c ∷ cs) (o ∷ os) [] = (λ h. absurd (cc h), λ h. absurd h)
in_block_iff (c ∷ cs) (o ∷ os) (n ∷ ns) =
    let r = in_block_iff cs os ns in
    (
      λ h. (ground (arith, h), ground (arith, h), r.0 (ground (arith, h))),
      λ h. let t = r.1 h.2 in ground (arith, h.0, h.1, t),
    )

module _ (torch : Torch) where
  -- Does one of the tensors hold the element at these coordinates of the whole tensor?
  abbrev pub covered : List ℕ → TensorDict torch → Bool
  covered coords [] = false
  covered coords (e ∷ shards) =
      in_block coords e.0.global_offset (torch.sizes e.1) || covered coords shards

  abbrev pub is_nil : TensorDict torch → Bool
  is_nil [] = true
  is_nil (e ∷ shards) = false

  fill-shards :
      (shards : TensorDict torch) (key : ShardedKey) (target after : torch.Tensor)
      → copy_shards torch shards key target ≡ returns after
      → fill torch shards key target ≡ returns (if is_nil shards then none else some after)
  unfolding fill
  fill-shards [] key target after e = refl
  fill-shards (c ∷ shards) key target after e = rw e refl

  module _ (laws : IsTorch torch) (whole : List ℕ → ℕ) where
    -- One of the tensors holds the element at these coordinates of the whole tensor.
    abbrev AnyHolds : TensorDict torch → List ℕ → Type 0
    AnyHolds shards coords = Any (HoldsAt torch laws whole coords) shards

    decide_AnyHolds :
        (coords : List ℕ) (shards : TensorDict torch)
        → AnyHolds shards coords ⊎ (AnyHolds shards coords → ⊥)
    decide_AnyHolds coords [] = inr (λ h. h)
    decide_AnyHolds coords (e ∷ shards) =
        elim (decide_InBlock coords e.0.global_offset (torch.sizes e.1)) [
          | inl h ↦ inl (inl h)
          | inr n ↦ elim (decide_AnyHolds coords shards) [
            | inl k ↦ inl (inr k)
            | inr m ↦ inr (λ b. elim b [ inl h ↦ n h | inr k ↦ m k ])
          ]
        ]

    module _ (dims : ℕ) (key : ShardedKey) (offsets : length key.global_offset ≡ dims) where
      copy-IsFilled :
          (target : torch.Tensor) (c : ShardedKey × torch.Tensor)
          → length (torch.sizes target) ≡ dims
          → HasDims torch laws whole dims c
          → IsPart torch laws whole c
          → (after : torch.Tensor) × (done : Bool) × (copy_sharded torch c.0 c.1 key target
              ≡ returns (after, done))
            × IsFilled torch laws whole key target after
                (λ coords. HoldsAt torch laws whole coords c)
      unfolding copy_sharded
      copy-IsFilled target c l h part =
          let (r, e, i) =
            intersect-Intersects dims c.0.global_offset (torch.sizes c.1) key.global_offset
              (torch.sizes target) h.offset h.size offsets l in
          let (after, done) =
            copied torch c.1 target (region_of c.0.global_offset key.global_offset r) in
          (
            after,
            done,
            rw
                (
                  h.shape,
                  copy_region-eq-intersect dims c.0.global_offset (torch.sizes c.1)
                      key.global_offset (torch.sizes target),
                  e,
                )
                refl,
            copied-IsFilled torch laws whole key target c r i part,
          )

      shards-IsFilled :
          (shards : TensorDict torch) (target : torch.Tensor)
          → length (torch.sizes target) ≡ dims
          → All
              (λ (c : ShardedKey × torch.Tensor).
                HasDims torch laws whole dims c × IsPart torch laws whole c)
              shards
          → (after : torch.Tensor) × (copy_shards torch shards key target ≡ returns after)
            × IsFilled torch laws whole key target after (AnyHolds shards)
      unfolding copy_shards
      shards-IsFilled [] target l h = (
        target,
        refl,
        record { kind = refl; extent = refl; filled = λ cs i a. absurd a; kept = λ cs i n. refl },
      )
      shards-IsFilled (c ∷ shards) target l h =
          let (between, done, e, f) = copy-IsFilled target c l h.0.0 h.0.1 in
          let (after, e', g) = shards-IsFilled shards between (ap length f.extent ∙ l) h.1 in
          (
            after,
            rw (e, e') refl,
            record {
              kind = g.kind ∙ f.kind;
              extent = g.extent ∙ f.extent;
              filled = λ coords i a.
                  let i' : InBlock coords key.global_offset (torch.sizes between) = rw f.extent i in
                  elim (decide_AnyHolds coords shards) [
                    | inl later ↦ g.filled coords i' later
                    | inr not_later ↦ elim a [
                      | inl mine ↦ g.kept coords i' not_later ∙ f.filled coords i mine
                      | inr later ↦ absurd (not_later later)
                    ]
                  ];
              kept = λ coords i n.
                  g.kept coords (rw f.extent i) (λ later. n (inr later))
                  ∙ f.kept coords i (λ mine. n (inl mine));
            },
          )

    covered_iff :
        (coords : List ℕ) (shards : TensorDict torch)
        → (covered coords shards ≡ true → AnyHolds shards coords)
          × (covered coords shards ≡ false → AnyHolds shards coords → ⊥)
    covered_iff coords [] = (λ h. absurd (cc h), λ h k. k)
    covered_iff coords (e ∷ shards) =
        let mine = in_block_iff coords e.0.global_offset (torch.sizes e.1) in
        let (some_hold, none_holds) = covered_iff coords shards in
        elim (Bool-cases (in_block coords e.0.global_offset (torch.sizes e.1))) [
          | inl b ↦ (λ h. inl (mine.0 b), λ h. absurd (cc (rw b at h)))
          | inr b ↦ (
            λ h. inr (some_hold (rw b at h)),
            λ h k. elim k [ inl m ↦ absurd (cc (b, mine.1 m)) | inr n ↦ none_holds (rw b at h) n ],
          )
        ]

    -- The table has only tensors of the target's data type under the sequence number. Those of the
    -- target's name are parts of one whole tensor, and they and the target have as many dimensions
    -- as their keys. Then Get returns true exactly if there is a tensor of the name. In the target,
    -- which keeps its type and size, the elements that such a tensor holds are those of the whole
    -- tensor, and the others are as they were.
    pub get_fills :
        (table : TableData torch) (seq : ℕ) (key : ShardedKey) (target : torch.Tensor) (dims : ℕ)
        (coords : List ℕ)
        → all_typed torch (torch.scalar_type target) (stored torch table seq) ≡ true
        → length key.global_offset ≡ dims
        → length (torch.sizes target) ≡ dims
        → All
            (λ (c : ShardedKey × torch.Tensor).
              HasDims torch laws whole dims c × IsPart torch laws whole c)
            (named torch key.key (stored torch table seq))
        → InBlock coords key.global_offset (torch.sizes target)
        → (after : torch.Tensor) × (get torch table seq key (some target)
            ≡ returns (
                if is_nil (named torch key.key (stored torch table seq)) then none else some after))
          × (torch.scalar_type after ≡ torch.scalar_type target)
          × (torch.sizes after ≡ torch.sizes target)
          × (torch.at after (differences coords key.global_offset) ≡ (
              if covered coords (named torch key.key (stored torch table seq))
              then whole coords
              else torch.at target (differences coords key.global_offset)))
    unfolding get
    get_fills table seq key target dims coords t o l h i =
        let shards = named torch key.key (stored torch table seq) in
        let (after, e, f) = shards-IsFilled dims key o shards target l h in
        (
          after,
          rw (get_tensor_shards-eq torch table key seq target, t)
              (fill-shards shards key target after e),
          f.kind,
          f.extent,
          elim (Bool-cases (covered coords shards)) [
            | inl c ↦ rw c (f.filled coords i ((covered_iff coords shards).0 c))
            | inr c ↦ rw c (f.kept coords i ((covered_iff coords shards).1 c))
          ],
        )
