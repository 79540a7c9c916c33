-- ===== src/Remote/Fresh.antt =====
-- Which weights a cached tensor holds.
use asystem_astate.Base.{
  ℕ, ◌≡◌, refl, sym, ap, subst, ◌∙◌, ◌⊎◌, inl, inr, Bool, true, false, if◌then◌else◌, Bool-cases,
  some, some-injective, List, [], ◌∷◌, All, All-imp, Any, arith,
}
use asystem_astate.Shard.Types.{ShardedKey}
use asystem_astate.Protocol.Keys.{same_key}
use asystem_astate.Protocol.Roundtrip.Keys.{same_key_refl}
use asystem_astate.Remote.Prefetch.{Cached, find_cached, not_ready, write_cached, set_ready}

-- A tensor that is ready holds the weights of the sequence id.
abbrev pub IsFresh : ℕ → Cached → Type 0
IsFresh seq_id entry = entry.ready ≡ true → entry.holds ≡ some seq_id

-- An entry that is ready is fresh, and one whose key is among the keys will be written.
abbrev pub Awaits : ℕ → List ShardedKey → Cached → Type 0
Awaits seq_id keys entry = (entry.holds ≡ some seq_id) ⊎ Any (λ k. k ≡ entry.key) keys

pub write-Awaits :
    (seq_id : ℕ) (key : ShardedKey) (keys : List ShardedKey) (entries : List Cached)
    → All (Awaits seq_id (key ∷ keys)) entries
    → All (Awaits seq_id keys) (write_cached seq_id key entries)
unfolding write_cached
write-Awaits seq_id key keys [] h = tt
write-Awaits seq_id key keys (entry ∷ entries) (a, h) = (
  elim (Bool-cases (same_key entry.key key)) [
    | inl s ↦ rw s (inl refl)
    | inr s ↦ rw s (elim a [
      | inl e ↦ inl e
      | inr (inl e) ↦ absurd (
          ground
            (arith, s, subst (λ k. same_key entry.key k ≡ true) (sym e) (same_key_refl entry.key)))
      | inr (inr m) ↦ inr m
    ])
  ],
  write-Awaits seq_id key keys entries h,
)

pub write-IsFresh :
    (seq_id : ℕ) (key : ShardedKey) (entries : List Cached)
    → All (IsFresh seq_id) entries
    → All (IsFresh seq_id) (write_cached seq_id key entries)
unfolding write_cached
write-IsFresh seq_id key [] h = tt
write-IsFresh seq_id key (entry ∷ entries) (a, h) = (
  elim (Bool-cases (same_key entry.key key)) [ inl s ↦ rw s (λ r. refl) | inr s ↦ rw s a ],
  write-IsFresh seq_id key entries h,
)

-- All tensors hold the weights of the sequence id.
abbrev pub AreRead : ℕ → List Cached → Type 0
AreRead seq_id = All (λ entry. entry.holds ≡ some seq_id)

-- Where nothing is to be read any more.
pub Awaits-AreRead :
    (seq_id : ℕ) (entries : List Cached) → All (Awaits seq_id []) entries → AreRead seq_id entries
Awaits-AreRead seq_id entries h =
    All-imp (λ entry a. elim a [ inl r ↦ r | inr m ↦ absurd m ]) entries h

-- More keys to read.
Awaits-more :
    (seq_id : ℕ) (key : ShardedKey) (keys : List ShardedKey) (entries : List Cached)
    → All (Awaits seq_id keys) entries
    → All (Awaits seq_id (key ∷ keys)) entries
Awaits-more seq_id key keys entries h =
    All-imp (λ entry a. elim a [ inl e ↦ inl e | inr m ↦ inr (inr m) ]) entries h

not_ready-cons :
    (entry : Cached) (entries : List Cached)
    → not_ready (entry ∷ entries)
      ≡ (if entry.ready then not_ready entries else entry.key ∷ not_ready entries)
unfolding not_ready
not_ready-cons entry entries = refl

pub not_ready-Awaits :
    (seq_id : ℕ) (entries : List Cached)
    → All (IsFresh seq_id) entries
    → All (Awaits seq_id (not_ready entries)) entries
not_ready-Awaits seq_id [] h = tt
not_ready-Awaits seq_id (entry ∷ entries) (a, h) =
    let rest = not_ready-Awaits seq_id entries h in
    let split = not_ready-cons entry entries in
    let pick : Bool → List ShardedKey =
      λ b. if b then not_ready entries else entry.key ∷ not_ready entries in
    elim (Bool-cases entry.ready) [
      | inl r ↦
          subst (λ keys. All (Awaits seq_id keys) (entry ∷ entries)) (sym (split ∙ ap pick r))
            (inl (a r), rest)
      | inr n ↦
          subst (λ keys. All (Awaits seq_id keys) (entry ∷ entries)) (sym (split ∙ ap pick n))
            (inr (inl refl), Awaits-more seq_id entry.key (not_ready entries) entries rest)
    ]

pub set_ready-IsFresh :
    (seq_id : ℕ) (entries : List Cached)
    → AreRead seq_id entries
    → All (IsFresh seq_id) (set_ready true entries)
unfolding set_ready
set_ready-IsFresh seq_id [] h = tt
set_ready-IsFresh seq_id (entry ∷ entries) (a, h) = (λ r. a, set_ready-IsFresh seq_id entries h)

pub cleared-IsFresh :
    (seq_id : ℕ) (entries : List Cached) → All (IsFresh seq_id) (set_ready false entries)
unfolding set_ready
cleared-IsFresh seq_id [] = tt
cleared-IsFresh seq_id (entry ∷ entries) = (λ r. cc, cleared-IsFresh seq_id entries)

-- The entry that is found is one of the entries.
pub find_cached-All :
    (P : Cached → Type 0) (key : ShardedKey) (entries : List Cached) (entry : Cached)
    → All P entries
    → find_cached key entries ≡ some entry
    → P entry
unfolding find_cached
find_cached-All P key [] entry h e = absurd (ground (arith, e))
find_cached-All P key (first ∷ entries) entry (a, h) e =
    elim (Bool-cases (same_key first.key key)) [
      | inl s ↦ subst P (some-injective _ _ (rw s at e)) a
      | inr s ↦ find_cached-All P key entries entry h (rw s at e)
    ]
