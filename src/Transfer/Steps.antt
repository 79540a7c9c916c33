-- ===== src/Transfer/Steps.antt =====
-- What a step of one node keeps of each writer and each reader.
use asystem_astate.Base.{
  ℕ, ◌+◌, ◌≡◌, sym, ap, subst, Bool, true, false, not, if◌then◌else◌, inl, inr, Bool-cases, List,
  [], length, ◌==◌,
}
use asystem_astate.Protocol.Json.{Json, IsJson}
use asystem_astate.Protocol.Nodes.{NodeInfo}
use asystem_astate.Transfer.Hosts.{same_node, same_node-eq, mem_node}
use asystem_astate.Transfer.Service.{all_ready, all_consumed, reset}
use asystem_astate.Transfer.Rounds.{
  WriterPhase, writing, announcing, waiting, ReaderPhase, getting, reading, notifying, Writer,
  Reader, System, drop_node, at, Writes, Reads, Step, writes, reads, announces, notifies, Reach,
  here, next,
}
use asystem_astate.Transfer.Rounds
use asystem_astate.Transfer.Pairs.{told, stage, Synced}
use asystem_astate.Transfer.Pairs
use asystem_astate.Transfer.Parties.{
  IsParty, has_all, multi_put-IsParty, begin_read-IsParty, reset-IsParty,
}

-- The writer `w` and the reader `r`.
abbrev pub Pair : NodeInfo → Writer → NodeInfo → Reader → Type 0
Pair w x r y =
    Synced (told x.phase r) (mem_node w y.service.ready_nodes) (mem_node r x.service.consumed_nodes)
      x.round y.round (stage y.phase w)

at_cases {ℓ} :
    {A : Type ℓ} (P : NodeInfo → A → Type 0) (n : NodeInfo) (x : A) (f : NodeInfo → A)
    (m : NodeInfo)
    → P n x
    → (same_node m n ≡ false → P m (f m))
    → P m (at n x f m)
at_cases P n x f m p q = elim (Bool-cases (same_node m n)) [
  | inl s ↦ rw s (subst (λ k. P k x) (sym (same_node-eq m n s)) p)
  | inr s ↦ rw s (q s)
]

-- A pair, with the phase of the writer or that of the reader put in.
pub at_phase :
    (w r : NodeInfo) (x : Writer) (y : Reader) (p : WriterPhase)
    → x.phase ≡ p
    → Pair w x r y
    → Pair w (record x { phase = p }) r y
at_phase w r x y p e d =
    subst
      (λ q.
        Synced (told q r) (mem_node w y.service.ready_nodes) (mem_node r x.service.consumed_nodes)
          x.round y.round (stage y.phase w))
      e d

pub at_stage :
    (w r : NodeInfo) (x : Writer) (y : Reader) (p : ReaderPhase)
    → y.phase ≡ p
    → Pair w x r y
    → Pair w x r (record y { phase = p })
at_stage w r x y p e d =
    subst
      (λ q.
        Synced (told x.phase r) (mem_node w y.service.ready_nodes)
          (mem_node r x.service.consumed_nodes) x.round y.round (stage q w))
      e d

-- A node in `Complete`, or reading, has named its sequence id.
abbrev pub engaged_writer : WriterPhase → Bool → Bool
engaged_writer writing is_write = is_write
engaged_writer (announcing rest) is_write = true
engaged_writer waiting is_write = true

abbrev pub engaged_reader : ReaderPhase → Bool → Bool
engaged_reader getting is_read = is_read
engaged_reader reading is_read = true
engaged_reader (notifying rest) is_read = true

module _ (json : Json) (laws : IsJson json) (seq_of : ℕ → ℕ) (writers readers : List NodeInfo) where
  abbrev pub IsWriter : NodeInfo → Writer → Type 0
  IsWriter w x =
      IsParty (seq_of x.round) w readers (engaged_writer x.phase x.service.is_write) x.service

  abbrev pub IsReader : NodeInfo → Reader → Type 0
  IsReader r y =
      IsParty (seq_of y.round) r writers (engaged_reader y.phase y.service.is_read) y.service

  pub record IsSynced (s : System) : Type 0 where
    pub writer : (w : NodeInfo) → mem_node w writers ≡ true → IsWriter w (s.writer w)
    pub reader : (r : NodeInfo) → mem_node r readers ≡ true → IsReader r (s.reader r)
    pub pair :
        (w r : NodeInfo)
        → mem_node w writers ≡ true
        → mem_node r readers ≡ true
        → Pair w (s.writer w) r (s.reader r)

  pub replace_writer :
      (s : System) (w : NodeInfo) (x : Writer)
      → IsSynced s
      → IsWriter w x
      → ((r : NodeInfo) → mem_node r readers ≡ true → Pair w x r (s.reader r))
      → IsSynced (record s { writer = at w x s.writer })
  replace_writer s w x h p pairs = record {
    writer = λ v m. at_cases IsWriter w x s.writer v p (λ n. h.writer v m);
    reader = h.reader;
    pair = λ v r m k.
        at_cases (λ v' x'. Pair v' x' r (s.reader r)) w x s.writer v (pairs r k)
          (λ n. h.pair v r m k);
  }

  pub replace_reader :
      (s : System) (r : NodeInfo) (y : Reader)
      → IsSynced s
      → IsReader r y
      → ((w : NodeInfo) → mem_node w writers ≡ true → Pair w (s.writer w) r y)
      → IsSynced (record s { reader = at r y s.reader })
  replace_reader s r y h p pairs = record {
    writer = h.writer;
    reader = λ v m. at_cases IsReader r y s.reader v p (λ n. h.reader v m);
    pair = λ w v m k.
        at_cases (λ v' y'. Pair w (s.writer w) v' y') r y s.reader v (pairs w m)
          (λ n. h.pair w v m k);
  }

  -- Both ends of a message.
  pub replace_both :
      (s : System) (w r : NodeInfo) (x : Writer) (y : Reader)
      → IsSynced s
      → IsWriter w x
      → IsReader r y
      → Pair w x r y
      → ((v : NodeInfo)
          → same_node v r ≡ false
          → mem_node v readers ≡ true
          → Pair w x v (s.reader v))
      → ((v : NodeInfo)
          → same_node v w ≡ false
          → mem_node v writers ≡ true
          → Pair v (s.writer v) r y)
      → IsSynced (record { writer = at w x s.writer; reader = at r y s.reader })
  replace_both s w r x y h p q own readers_pairs writers_pairs = record {
    writer = λ v m. at_cases IsWriter w x s.writer v p (λ n. h.writer v m);
    reader = λ v m. at_cases IsReader r y s.reader v q (λ n. h.reader v m);
    pair = λ v u m k.
        at_cases (λ v' x'. Pair v' x' u (at r y s.reader u)) w x s.writer v
          (at_cases (λ u' y'. Pair w x u' y') r y s.reader u own (λ n. readers_pairs u n k))
          (λ n.
            at_cases (λ u' y'. Pair v (s.writer v) u' y') r y s.reader u (writers_pairs v n m)
              (λ o. h.pair v u m k));
  }

  -- A party, with the phase put in.
  pub writer_at :
      (w : NodeInfo) (x : Writer) (p : WriterPhase)
      → x.phase ≡ p
      → IsWriter w x
      → IsWriter w (record x { phase = p })
  writer_at w x p e h =
      subst
        (λ q. IsParty (seq_of x.round) w readers (engaged_writer q x.service.is_write) x.service) e
        h

  pub reader_at :
      (r : NodeInfo) (y : Reader) (p : ReaderPhase)
      → y.phase ≡ p
      → IsReader r y
      → IsReader r (record y { phase = p })
  reader_at r y p e h =
      subst (λ q. IsParty (seq_of y.round) r writers (engaged_reader q y.service.is_read) y.service)
        e h

  pub Writes-Pair :
      (w r : NodeInfo) (x x' : Writer) (y : Reader)
      → Writes json seq_of x x'
      → IsWriter w x
      → mem_node r readers ≡ true
      → Pair w x r y
      → Pair w x' r y
  unfolding reset all_consumed
  Writes-Pair w r x x' y (Rounds.puts running sent registers atensors s p e f) h m d =
      let (q, a, c) =
        multi_put-IsParty running registers (seq_of x.round) atensors w readers x.service s p f
          (writer_at w x writing e h) in
      subst
        (λ nodes.
          Synced (told x.phase r) (mem_node w y.service.ready_nodes) (mem_node r nodes) x.round
            y.round (stage y.phase w))
        (sym c) d
  Writes-Pair w r x x' y (Rounds.Writes.completes q e f g) h m d =
      subst
        (λ b.
          Synced b (mem_node w y.service.ready_nodes) (mem_node r x.service.consumed_nodes) x.round
            y.round (stage y.phase w))
        (ap not (sym (subst (λ hosts. mem_node r hosts ≡ true) (sym h.hosts) m)))
        (at_phase w r x y writing e d)
  Writes-Pair w r x x' y (Rounds.waits e) h m d = at_phase w r x y (announcing []) e d
  Writes-Pair w r x x' y (Rounds.Writes.ends e f) h m d =
      Pairs.ends_writing
        (has_all readers x.service.consumed_nodes h.consumed
          (subst (λ hosts. (length x.service.consumed_nodes == length hosts) ≡ true) h.hosts f) r m)
        (at_phase w r x y waiting e d)

  pub Writes-IsWriter :
      (w : NodeInfo) (x x' : Writer) → Writes json seq_of x x' → IsWriter w x → IsWriter w x'
  unfolding reset
  Writes-IsWriter w x x' (Rounds.puts running sent registers atensors s p e f) h =
      subst (λ q. IsParty (seq_of x.round) w readers (engaged_writer q s.is_write) s) (sym e)
        (multi_put-IsParty running registers (seq_of x.round) atensors w readers x.service s p f
          (writer_at w x writing e h)).0
  Writes-IsWriter w x x' (Rounds.Writes.completes q e f g) h =
      subst (λ b. IsParty (seq_of x.round) w readers b x.service) f (writer_at w x writing e h)
  Writes-IsWriter w x x' (Rounds.waits e) h = writer_at w x (announcing []) e h
  Writes-IsWriter w x x' (Rounds.Writes.ends e f) h =
      reset-IsParty (seq_of x.round) (seq_of (x.round + 1)) w readers true x.service
        (writer_at w x waiting e h)

  pub Reads-Pair :
      (w r : NodeInfo) (x : Writer) (y y' : Reader)
      → Reads json seq_of y y'
      → IsReader r y
      → mem_node w writers ≡ true
      → Pair w x r y
      → Pair w x r y'
  unfolding reset all_ready
  Reads-Pair w r x y y' (Rounds.asks running ok s e f) h m d =
      let (q, a, c) =
        begin_read-IsParty running (seq_of y.round) r writers y.service s ok f
          (reader_at r y getting e h) in
      subst
        (λ nodes.
          Synced (told x.phase r) (mem_node w nodes) (mem_node r x.service.consumed_nodes) x.round
            y.round (stage y.phase w))
        (sym a) d
  Reads-Pair w r x y y' (Rounds.starts e f g) h m d =
      Pairs.starts_reading
        (has_all writers y.service.ready_nodes h.ready
          (subst (λ hosts. (length y.service.ready_nodes == length hosts) ≡ true) h.hosts g) w m)
        (at_stage w r x y getting e d)
  Reads-Pair w r x y y' (Rounds.Reads.completes e) h m d =
      subst
        (λ b.
          Synced (told x.phase r) (mem_node w y.service.ready_nodes)
            (mem_node r x.service.consumed_nodes) x.round y.round (if b then 2 else 3))
        (sym (subst (λ hosts. mem_node w hosts ≡ true) (sym h.hosts) m))
        (Pairs.completes_reading (at_stage w r x y reading e d))
  Reads-Pair w r x y y' (Rounds.Reads.ends e) h m d =
      Pairs.ends_reading (at_stage w r x y (notifying []) e d)

  pub Reads-IsReader :
      (r : NodeInfo) (y y' : Reader) → Reads json seq_of y y' → IsReader r y → IsReader r y'
  unfolding reset
  Reads-IsReader r y y' (Rounds.asks running ok s e f) h =
      subst (λ q. IsParty (seq_of y.round) r writers (engaged_reader q s.is_read) s) (sym e)
        (begin_read-IsParty running (seq_of y.round) r writers y.service s ok f
          (reader_at r y getting e h)).0
  Reads-IsReader r y y' (Rounds.starts e f g) h =
      subst (λ b. IsParty (seq_of y.round) r writers b y.service) f (reader_at r y getting e h)
  Reads-IsReader r y y' (Rounds.Reads.completes e) h = reader_at r y reading e h
  Reads-IsReader r y y' (Rounds.Reads.ends e) h =
      reset-IsParty (seq_of y.round) (seq_of (y.round + 1)) r writers true y.service
        (reader_at r y (notifying []) e h)
