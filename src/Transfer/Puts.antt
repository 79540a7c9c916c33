-- ===== src/Transfer/Puts.antt =====
-- What a writer has put, in every interleaving.
use asystem_astate.Base.{
  ℕ, ◌≡◌, refl, sym, ◌∙◌, ap, Bool, true, false, if◌then◌else◌, Bool-cases, ◌⊎◌, inl, inr, some,
  some-injective, List, [], arith,
}
use asystem_astate.Shard.Types.{ShardedKey}
use asystem_astate.Protocol.Json.{Json}
use asystem_astate.Protocol.Nodes.{NodeInfo}
use asystem_astate.Protocol.Publish.{TensorMemoryInfo}
use asystem_astate.Transfer.Hosts.{same_node}
use asystem_astate.Transfer.Rounds.{
  WriterPhase, writing, announcing, waiting, Writer, System, at, returns_true, Writes, Step, writes,
  reads, announces, notifies, Reach, here, next,
}
use asystem_astate.Transfer.Rounds

-- What is recorded as put has the sequence id of the round, and there is something where the writer
-- does not put any more.
abbrev pub IsPut : (ℕ → ℕ) → Writer → Type 0
IsPut seq_of x =
    ((q : ℕ × List (ShardedKey × TensorMemoryInfo)) → x.put ≡ some q → q.0 ≡ seq_of x.round)
    × ((x.phase ≡ writing)
        ⊎ ((atensors : List (ShardedKey × TensorMemoryInfo)) × (x.put
              ≡ some (seq_of x.round, atensors))))

at-all :
    (P : Writer → Type 0) (w : NodeInfo) (x : Writer) (f : NodeInfo → Writer)
    → P x
    → ((v : NodeInfo) → P (f v))
    → (v : NodeInfo) → P (at w x f v)
at-all P w x f p q v = elim (Bool-cases (same_node v w)) [ inl s ↦ rw s p | inr s ↦ rw s (q v) ]

module _ (json : Json) (seq_of : ℕ → ℕ) where
  -- Where the phase and the service change alone, outside of `writing`.
  kept :
      (x : Writer) (p : WriterPhase)
      → (x.phase ≡ writing → ⊥)
      → IsPut seq_of x
      → IsPut seq_of (record x { phase = p })
  kept x p n h = (h.0, inr (elim h.1 [ inl e ↦ absurd (n e) | inr k ↦ k ]))

  announcing-not_writing :
      (p : WriterPhase) (rest : List NodeInfo) → p ≡ announcing rest → p ≡ writing → ⊥
  announcing-not_writing p rest e f = ground (arith, sym e ∙ f)

  Writes-IsPut : (x x' : Writer) → Writes json seq_of x x' → IsPut seq_of x → IsPut seq_of x'
  Writes-IsPut x x' (Rounds.puts running sent registers atensors s p e f) h =
      (chosen (returns_true sent p), inl e)
    where
      chosen :
          (b : Bool) (q : ℕ × List (ShardedKey × TensorMemoryInfo))
          → (if b then some (seq_of x.round, atensors) else x.put) ≡ some q
          → q.0 ≡ seq_of x.round
      chosen true q e' = sym (ap (λ r. r.0) (some-injective _ _ e'))
      chosen false q e' = h.0 q e'
  Writes-IsPut x x' (Rounds.Writes.completes q e f g) h =
      (h.0, inr (q.1, g ∙ ap (λ n. some (n, q.1)) (h.0 q g)))
  Writes-IsPut x x' (Rounds.waits e) h = kept x waiting (announcing-not_writing x.phase [] e) h
  Writes-IsPut x x' (Rounds.Writes.ends e f) h = (λ q e'. absurd (ground (arith, e')), inl refl)

  module _ (writers readers : List NodeInfo) where
    Step-IsPut :
        (s t : System)
        → Step json seq_of writers readers s t
        → ((w : NodeInfo) → IsPut seq_of (s.writer w))
        → (w : NodeInfo) → IsPut seq_of (t.writer w)
    Step-IsPut s t (writes w x m d) h =
        at-all (IsPut seq_of) w x s.writer (Writes-IsPut (s.writer w) x d (h w)) h
    Step-IsPut s t (reads r y m d) h = h
    Step-IsPut s t (announces w r rest delivered m e k l) h =
        at-all (IsPut seq_of) w _ s.writer
          (kept (s.writer w) _ (announcing-not_writing (s.writer w).phase rest e) (h w)) h
    Step-IsPut s t (notifies w r rest true m e k l) h = at-all (IsPut seq_of) w _ s.writer (h w) h
    Step-IsPut s t (notifies w r rest false m e k l) h = h

    pub Reach-IsPut :
        (s t : System)
        → Reach json seq_of writers readers s t
        → ((w : NodeInfo) → IsPut seq_of (s.writer w))
        → (w : NodeInfo) → IsPut seq_of (t.writer w)
    Reach-IsPut s _ here h = h
    Reach-IsPut s t (next {t = u} r d) h = Step-IsPut u t d (Reach-IsPut s u r h)
