-- ===== src/Regist/Invariant.antt =====
-- Every interleaving keeps the set valid and the count of pending registrations exact.
use asystem_astate.Base.{
  ◌+◌, ◌^◌, ◌<◌, ◌≡◌, refl, sym, ◌∙◌, ap, subst, List, [], ◌∷◌, ◌++◌, All, All-append, All-prefix,
  All-suffix, arith,
}
use asystem_astate.MrSet.Refine.{IsValid}
use asystem_astate.Regist.Runs.{IsRange}
use asystem_astate.Regist.Moves.{IsThread, After, move-After}
use asystem_astate.Regist.Threads.{
  Thread, asking, registering, recording, failing, removing, finished, destroying, removed, System,
  Step, step, Reach, here, next, pending, in_flight,
}

pub record IsConsistent (s : System) : Type 0 where
  pub valid : IsValid s.ctx.mr_set
  pub counted : s.ctx.num_pending_mrs ≡ in_flight s.threads
  pub threads : All IsThread s.threads

in_flight-append : (ts us : List Thread) → in_flight (ts ++ us) ≡ in_flight ts + in_flight us
in_flight-append [] us = omega arith
in_flight-append (t ∷ ts) us = omega (arith, in_flight-append ts us)

step-IsConsistent : {s s' : System} → IsConsistent s → Step s s' → IsConsistent s'
step-IsConsistent {s = s} h (step before after t t' ctx' e m) =
    let all = subst (All IsThread) e h.threads in
    let rest = All-suffix IsThread before (t ∷ after) all in
    let others = in_flight before + in_flight after in
    let a : After others ctx' t' = move-After m (record {
      valid = h.valid;
      counted = omega (arith, h.counted, ap in_flight e, in_flight-append before (t ∷ after));
      thread = rest.0;
    }) in
    record {
      valid = a.valid;
      counted = omega (arith, a.counted, in_flight-append before (t' ∷ after));
      threads =
          All-append IsThread before (t' ∷ after) (All-prefix IsThread before (t ∷ after) all)
            (a.thread, rest.1);
    }

-- A thread that is about to make its call.
abbrev pub IsStart : Thread → Type 0
IsStart (asking q) = IsRange q
IsStart (removing addr len) = (0 < len) × (addr + len < 2 ^ 64)
IsStart t = ⊥

start-IsThread : (t : Thread) → IsStart t → IsThread t × (pending t ≡ 0)
start-IsThread (asking q) h = (h, refl)
start-IsThread (registering q) h = absurd h
start-IsThread (recording mrk held) h = absurd h
start-IsThread (failing mrk held) h = absurd h
start-IsThread (removing addr len) h = (h, refl)
start-IsThread (finished p held) h = absurd h
start-IsThread (destroying mrk held) h = absurd h
start-IsThread (removed held) h = absurd h

starts : (ts : List Thread) → All IsStart ts → All IsThread ts × (in_flight ts ≡ 0)
starts [] h = (tt, refl)
starts (t ∷ ts) h =
    let (k, z) = start-IsThread t h.0 in
    let (ks, zs) = starts ts h.1 in ((k, ks), omega (arith, z, zs))

-- Threads start to register and deregister ranges that are not empty and end within the address
-- space, those to register not at NULL, in a context with a valid set and no pending registration.
-- UCX gives no zero where it succeeds, and a record that is taken out of the set is live. The steps
-- of a thread are its critical sections and what it does between them, with every outcome of
-- calloc, malloc and UCX; a thread whose insertion dereferences NULL makes no step. After every
-- interleaving of steps the set is valid, so that its regions are disjoint, the count of pending
-- registrations is the number of threads between the search and the end of a registration, and a
-- registration that has returned NULL holds nothing, nor does a deregistration that has returned.
pub Reach-IsConsistent :
    (s s' : System)
    → s.ctx.num_pending_mrs ≡ 0
    → IsValid s.ctx.mr_set
    → All IsStart s.threads
    → Reach s s'
    → IsConsistent s'
Reach-IsConsistent s _ z v h here =
    let (k, e) = starts s.threads h in record { valid = v; counted = z ∙ sym e; threads = k }
Reach-IsConsistent s _ z v h (next r m) = step-IsConsistent (Reach-IsConsistent s _ z v h r) m
