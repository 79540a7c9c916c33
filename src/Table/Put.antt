-- ===== src/Table/Put.antt =====
-- `Put` and `MultiPut`, against the tensors that the table holds by sequence number and key.
use asystem_astate.Base.{
  ℕ, ◌≡◌, refl, sym, ◌∙◌, ap, inl, inr, Bool, true, false, ◌==◌, ==→eq, Bool-cases, if◌then◌else◌,
  Option, none, some, List, [], ◌∷◌,
}
use asystem_astate.Shard.Types.{ShardedKey}
use asystem_astate.Protocol.Keys.{same_key}
use asystem_astate.Protocol.Roundtrip.Keys.{same_key-eq}
use asystem_astate.Table.Torch.{Torch}
use asystem_astate.Table.Memory.{
  TensorDict, TableData, assign, find_seq, change_seq, put, put_all, multi_put,
}

-- Equal keys compare alike.
same_key_trans : (a b c : ShardedKey) → same_key a b ≡ true → same_key a c ≡ same_key b c
same_key_trans a b c h = ap (λ k. same_key k c) (same_key-eq a b h)

module _ {ℓ} {V : Type ℓ} where
  abbrev pub find_key : ShardedKey → List (ShardedKey × V) → Option V
  find_key key [] = none
  find_key key (e ∷ dict) = if same_key e.0 key then some e.1 else find_key key dict

  find_key-assign :
      (key : ShardedKey) (v : V) (dict : List (ShardedKey × V)) (k : ShardedKey)
      → find_key k (assign key v dict) ≡ (if same_key key k then some v else find_key k dict)
  unfolding assign
  find_key-assign key v [] k = refl
  find_key-assign key v (e ∷ dict) k = elim (Bool-cases (same_key e.0 key)) [
    | inl s ↦
        rw (s, same_key_trans e.0 key k s)
          (elim (Bool-cases (same_key key k)) [ inl t ↦ rw t refl | inr t ↦ rw t refl ])
    | inr d ↦
        rw (d, find_key-assign key v dict k)
          (elim (Bool-cases (same_key e.0 k)) [
            | inl t ↦
                let n : same_key key k ≡ false = elim (Bool-cases (same_key key k)) [
                  | inl u ↦ absurd (cc (d, ap (λ x. same_key e.0 x) (same_key-eq key k u), t))
                  | inr u ↦ u
                ] in
                rw (t, n) refl
            | inr t ↦ rw t refl
          ])
  ]

  abbrev entries : Option (List V) → List V
  entries none = []
  entries (some dict) = dict

  find_seq-change :
      (seq : ℕ) (f : List V → List V) (table : List (ℕ × List V)) (s : ℕ)
      → find_seq s (change_seq seq f table)
        ≡ (if seq == s then some (f (entries (find_seq seq table))) else find_seq s table)
  unfolding find_seq change_seq
  find_seq-change seq f [] s = refl
  find_seq-change seq f (e ∷ table) s = elim (Bool-cases (e.0 == seq)) [
    | inl h ↦ elim (Bool-cases (seq == s)) [
      | inl t ↦ rw (h, t) refl
      | inr n ↦
          let other : (e.0 == s) ≡ false = ap (λ x. x == s) (==→eq e.0 seq h) ∙ n in
          rw (h, n, other) refl
    ]
    | inr d ↦ elim (Bool-cases (seq == s)) [
      | inl t ↦
          let other : (e.0 == s) ≡ false = ap (λ x. e.0 == x) (sym (==→eq seq s t)) ∙ d in
          rw (d, other, find_seq-change seq f table s, t) refl
      | inr n ↦ rw (d, find_seq-change seq f table s, n) refl
    ]
  ]

module _ (torch : Torch) where
  -- What the table holds.
  abbrev pub held : TableData torch → ℕ → ShardedKey → Option torch.Tensor
  held table seq key = find_key key (entries (find_seq seq table))

  -- The copy of the last tensor of a key in a list, up to the first object that is no tensor.
  abbrev pub latest :
      ShardedKey
      → List (ShardedKey × Option torch.Tensor)
      → Option torch.Tensor
      → Option torch.Tensor
  latest key [] old = old
  latest key ((k, none) ∷ list) old = old
  latest key ((k, some t) ∷ list) old =
      latest key list (if same_key k key then some (torch.clone t) else old)

  abbrev pub are_tensors : List (ShardedKey × Option torch.Tensor) → Bool
  are_tensors [] = true
  are_tensors ((k, none) ∷ list) = false
  are_tensors ((k, some t) ∷ list) = are_tensors list

  put_all-latest :
      (list : List (ShardedKey × Option torch.Tensor)) (dict : TensorDict torch) (key : ShardedKey)
      → (find_key key (put_all torch list dict).0 ≡ latest key list (find_key key dict))
        × ((put_all torch list dict).1 ≡ are_tensors list)
  unfolding put_all
  put_all-latest [] dict key = (refl, refl)
  put_all-latest ((k, none) ∷ list) dict key = (refl, refl)
  put_all-latest ((k, some t) ∷ list) dict key =
      let (p, q) = put_all-latest list (assign k (torch.clone t) dict) key in
      (p ∙ ap (latest key list) (find_key-assign k (torch.clone t) dict key), q)

  -- MultiPut copies the tensors of its list into the table, up to the first object that is no
  -- tensor, and returns true if there is no such object: for the sequence number the table then holds
  -- the last tensor of each key, and all else is as it was. Put of a tensor is MultiPut of one.
  pub multi_put-held :
      (table : TableData torch) (seq : ℕ) (list : List (ShardedKey × Option torch.Tensor)) (s : ℕ)
      (key : ShardedKey) (t : torch.Tensor)
      → (held (multi_put torch table seq list).0 s key
          ≡ (if seq == s then latest key list (held table s key) else held table s key))
        × ((multi_put torch table seq list).1 ≡ are_tensors list)
        × (put torch table seq key (some t) ≡ multi_put torch table seq ((key, some t) ∷ []))
  unfolding multi_put put put_all
  multi_put-held table seq list s key t = (
    rw (find_seq-change seq (λ dict. (put_all torch list dict).0) table s)
        (elim (Bool-cases (seq == s)) [
          | inl h ↦ rw h (
              (put_all-latest list (entries (find_seq seq table)) key).0
              ∙ ap (λ x. latest key list (held table x key)) (==→eq seq s h))
          | inr n ↦ rw n refl
        ]),
    (put_all-latest list (entries (find_seq seq table)) key).1,
    refl,
  )
