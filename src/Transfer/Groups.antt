-- ===== src/Transfer/Groups.antt =====
-- The maps of `CompactTensorInfos`, and the shards that one of its reads takes.
use asystem_astate.Base.{
  ◌≡◌, refl, sym, ap, ◌∙◌, subst, Bool, true, false, Bool-cases, Option-cases, if◌then◌else◌, inl,
  inr, Option, none, some, List, [], ◌∷◌, arith,
}
use asystem_astate.Shard.Types.{ShardedKey}
use asystem_astate.Protocol.Keys.{same_key}
use asystem_astate.Protocol.Roundtrip.Keys.{same_key_refl, same_key-eq}
use asystem_astate.Transfer.Compact.{
  find_entry, emplace_key, erase_key, TensorShardMap, TransferTensorMeta, Published, take_shards,
}

-- The key is in the map.
abbrev pub Has : {A : Type 0} → ShardedKey → List (ShardedKey × A) → Type 0
Has {A = A} key entries = (a : A) × (find_entry key entries ≡ some a)

pub absent : {B : Type 0} {A : Type 0} (o : Option A) (a : A) → o ≡ none → o ≡ some a → B
absent o a e f = absurd (ground (arith, sym e ∙ f))

absent_bool : {B : Type 0} (b : Bool) → b ≡ true → b ≡ false → B
absent_bool b e f = absurd (ground (arith, e, f))

not_same : (a b : ShardedKey) → (a ≡ b → ⊥) → same_key a b ≡ false
not_same a b h = elim (Bool-cases (same_key a b)) [
  | inl s ↦ absurd (h (same_key-eq a b s))
  | inr s ↦ s
]

module _ {A : Type 0} where
  pub find_entry_cons :
      (key : ShardedKey) (entry : ShardedKey × A) (entries : List (ShardedKey × A))
      → find_entry key (entry ∷ entries)
        ≡ (if same_key entry.0 key then some entry.1 else find_entry key entries)
  unfolding find_entry
  find_entry_cons key entry entries = refl

  pub find_emplaced :
      (key : ShardedKey) (a : A) (entries : List (ShardedKey × A))
      → Has key (emplace_key key a entries)
  unfolding emplace_key find_entry
  find_emplaced key a entries = elim (Option-cases (find_entry key entries)) [
    | inl e ↦ rw (emplace_key, e) (a, rw (same_key_refl key) refl)
    | inr (b, e) ↦ rw (emplace_key, e) (b, e)
  ]

  pub find_after_emplace :
      (key other : ShardedKey) (a : A) (entries : List (ShardedKey × A))
      → Has key entries
      → Has key (emplace_key other a entries)
  unfolding emplace_key find_entry
  find_after_emplace key other a entries h = elim (Option-cases (find_entry other entries)) [
    | inr (b, e) ↦ rw (emplace_key, e) h
    | inl e ↦
        rw (emplace_key, e)
          (elim (Bool-cases (same_key other key)) [
            | inl s ↦ (a, rw s refl)
            | inr s ↦ (h.0, rw s h.1)
          ])
  ]

  find_erased :
      (key other : ShardedKey) (entries : List (ShardedKey × A))
      → find_entry key (erase_key other entries)
        ≡ (if same_key other key then none else find_entry key entries)
  unfolding erase_key find_entry
  find_erased key other [] = elim (Bool-cases (same_key other key)) [
    | inl s ↦ rw s refl
    | inr s ↦ rw s refl
  ]
  find_erased key other (entry ∷ entries) = elim (Bool-cases (same_key entry.0 other)) [
    | inl s ↦
        let same = same_key-eq entry.0 other s in
        rw s (
          find_erased key other entries ∙ elim (Bool-cases (same_key other key)) [
            | inl t ↦ rw t refl
            | inr t ↦ rw (t, subst (λ k. same_key k key ≡ false) (sym same) t) refl
          ])
    | inr s ↦ rw s (elim (Bool-cases (same_key entry.0 key)) [
      | inl t ↦
          let differ : same_key other key ≡ false = not_same other key (λ u.
            absent_bool (same_key entry.0 other)
              (subst (λ k. same_key entry.0 k ≡ true) (same_key-eq entry.0 key t ∙ sym u)
                (same_key_refl entry.0))
              s) in
          rw (t, differ) refl
      | inr t ↦ rw t (find_erased key other entries)
    ])
  ]

  pub find_in_erased :
      (key other : ShardedKey) (entries : List (ShardedKey × A)) (a : A)
      → find_entry key (erase_key other entries) ≡ some a
      → find_entry key entries ≡ some a
  find_in_erased key other entries a e = elim (Bool-cases (same_key other key)) [
    | inl s ↦ absent none a refl (
        sym (ap (λ b. if b then none else find_entry key entries) s)
        ∙ sym (find_erased key other entries)
        ∙ e)
    | inr s ↦
        sym (ap (λ b. if b then none else find_entry key entries) s)
        ∙ sym (find_erased key other entries)
        ∙ e
  ]

  pub find_kept :
      (key other : ShardedKey) (entries : List (ShardedKey × A)) (a : A)
      → find_entry key entries ≡ some a
      → same_key other key ≡ false
      → find_entry key (erase_key other entries) ≡ some a
  find_kept key other entries a e s =
      find_erased key other entries ∙ ap (λ b. if b then none else find_entry key entries) s ∙ e

  pub find_gone :
      (key : ShardedKey) (entries : List (ShardedKey × A))
      → find_entry key (erase_key key entries) ≡ none
  find_gone key entries =
      find_erased key key entries
      ∙ ap (λ b. if b then none else find_entry key entries) (same_key_refl key)

-- What one read leaves and takes of the wanted tensors.
pub record Takes {A : Type 0} (key : ShardedKey) (shards : TensorShardMap A)
    (target : TransferTensorMeta A) (atensors : TensorShardMap A)
    (r : TransferTensorMeta A × TensorShardMap A) : Type 0 where
  pub left :
      (infos : List (Published A))
      → find_entry key r.0 ≡ some infos
      → find_entry key target ≡ some infos
  pub taken : Has key target → find_entry key r.0 ≡ none → Has key shards × Has key r.1
  pub own : Has key shards → find_entry key r.0 ≡ none
  pub kept : Has key atensors → Has key r.1

module _ {A : Type 0} (key : ShardedKey) (shard : ShardedKey × A) (shards : TensorShardMap A) where
  pick : Bool → Option A
  pick b = if b then some shard.1 else find_entry key shards

  Has-head : same_key shard.0 key ≡ true → Has key (shard ∷ shards)
  unfolding pick
  Has-head s = (shard.1, find_entry_cons key shard shards ∙ ap pick s)

  Has-tail : Has key shards → Has key (shard ∷ shards)
  unfolding pick
  Has-tail h = elim (Bool-cases (same_key shard.0 key)) [
    | inl s ↦ Has-head s
    | inr s ↦ (h.0, find_entry_cons key shard shards ∙ ap pick s ∙ h.1)
  ]

  in_tail : same_key shard.0 key ≡ false → Has key (shard ∷ shards) → Has key shards
  unfolding pick
  in_tail s h = (h.0, sym (ap pick s) ∙ sym (find_entry_cons key shard shards) ∙ h.1)

  module _ (target : TransferTensorMeta A) (atensors : TensorShardMap A)
      (r : TransferTensorMeta A × TensorShardMap A) where
    -- Nothing is left of a key that is not wanted.
    unwanted :
        ((infos : List (Published A)) → find_entry key r.0 ≡ some infos → ⊥)
        → find_entry key r.0 ≡ none
    unwanted h = elim (Option-cases (find_entry key r.0)) [
      | inl e ↦ e
      | inr (infos, e) ↦ absurd (h infos e)
    ]

    skip-Takes :
        find_entry shard.0 target ≡ none
        → Takes key shards target atensors r
        → Takes key (shard ∷ shards) target atensors r
    skip-Takes n h = record {
      left = h.left;
      taken = λ w e. let t = h.taken w e in (Has-tail t.0, t.1);
      own = λ w. elim (Bool-cases (same_key shard.0 key)) [
        | inl s ↦ unwanted (λ infos e.
            absent (find_entry key target) infos
              (subst (λ k. find_entry k target ≡ none) (same_key-eq shard.0 key s) n)
              (h.left infos e))
        | inr s ↦ h.own (in_tail s w)
      ];
      kept = h.kept;
    }

    take-Takes :
        Takes key shards (erase_key shard.0 target) (emplace_key shard.0 shard.1 atensors) r
        → Takes key (shard ∷ shards) target atensors r
    take-Takes h = record {
      left = λ infos e. find_in_erased key shard.0 target infos (h.left infos e);
      taken = λ w e. elim (Bool-cases (same_key shard.0 key)) [
        | inl s ↦ (
          Has-head s,
          h.kept (
              subst (λ k. Has k (emplace_key shard.0 shard.1 atensors)) (same_key-eq shard.0 key s)
                (find_emplaced shard.0 shard.1 atensors)),
        )
        | inr s ↦
            let t = h.taken (w.0, find_kept key shard.0 target w.0 w.1 s) e in (Has-tail t.0, t.1)
      ];
      own = λ w. elim (Bool-cases (same_key shard.0 key)) [
        | inl s ↦ unwanted (λ infos e.
            absent (find_entry key (erase_key shard.0 target)) infos
              (subst (λ k. find_entry k (erase_key shard.0 target) ≡ none)
                (same_key-eq shard.0 key s) (find_gone shard.0 target))
              (h.left infos e))
        | inr s ↦ h.own (in_tail s w)
      ];
      kept = λ w. h.kept (find_after_emplace key shard.0 shard.1 atensors w);
    }

module _ {A : Type 0} (key : ShardedKey) where
  pub take_shards-Takes :
      (shards : TensorShardMap A) (target : TransferTensorMeta A) (atensors : TensorShardMap A)
      → Takes key shards target atensors (take_shards shards target atensors)
  unfolding take_shards find_entry
  take_shards-Takes [] target atensors = record {
    left = λ infos e. e;
    taken = λ h n. absent (find_entry key target) h.0 n h.1;
    own = λ h. absurd (ground (arith, h.1));
    kept = λ h. h;
  }
  take_shards-Takes (shard ∷ shards) target atensors =
      elim (Option-cases (find_entry shard.0 target)) [
        | inl n ↦
            rw (take_shards, n)
              (skip-Takes key shard shards target atensors (take_shards shards target atensors) n
                (take_shards-Takes shards target atensors))
        | inr (infos, e) ↦
            rw (take_shards, e)
              (take-Takes key shard shards target atensors
                (take_shards shards (erase_key shard.0 target)
                  (emplace_key shard.0 shard.1 atensors))
                (take_shards-Takes shards (erase_key shard.0 target)
                  (emplace_key shard.0 shard.1 atensors)))
      ]
