-- ===== src/Regist/Moves.antt =====
-- What a move of a thread keeps: the set is valid, and the count of pending registrations exact.
use asystem_astate.Base.{
  ℕ, ◌+◌, ◌-◌, ◌^◌, ◌<◌, ◌≡◌, refl, sym, ◌∙◌, ap, subst, Bool, true, false, ◌==◌, inl, inr,
  Bool-cases, if◌then◌else◌, Option, none, some, some-injective, ◌>>=◌, List, [], arith, ℤ, is_zero,
}
use asystem_astate.MrSet.Api.{MrSet, mr_set_find, mr_set_insert, mr_set_remove}
use asystem_astate.MrSet.Sorted.{IsRegion}
use asystem_astate.MrSet.Refine.{IsValid, mr_set_remove-eq}
use asystem_astate.Regist.Context.{
  MemRegion, UcxCtx, Request, Answers, Resource, begin, Prepared, ready, failed, prepare, commit,
  abandon,
}
use asystem_astate.Regist.Release.{
  IsAnswers, resources, IsRecordOf, IsReleased, Prepares, prepare-Prepares,
}
use asystem_astate.Regist.Sets.{insert-IsValid}
use asystem_astate.Regist.Api.{mr_reg_item_destroy}
use asystem_astate.Regist.Dereg.{destroy-live}
use asystem_astate.Regist.Runs.{IsRange, region_of, region_of-record}
use asystem_astate.Regist.Threads.{
  Thread, asking, registering, recording, failing, removing, finished, Move, search_fails,
  search_finds, prepares, gives_up, commits, collides, fails, removes_nothing, removes, destroys,
  destroying, removed, pending,
}

-- What is known of a thread. A registration that returns NULL holds nothing, nor does a
-- deregistration that has returned.
abbrev pub IsThread : Thread → Type 0
IsThread (asking q) = IsRange q
IsThread (registering q) = IsRange q
IsThread (recording mrk held) =
    IsRegion (region_of mrk) × (held ≡ resources mrk) × IsReleased (some mrk) held
IsThread (failing mrk held) = IsReleased mrk held
IsThread (removing addr len) = (0 < len) × (addr + len < 2 ^ 64)
IsThread (finished p held) = p ≡ 0 → held ≡ []
IsThread (destroying mrk held) = mr_reg_item_destroy mrk held ≡ some []
IsThread (removed held) = held ≡ []

-- After a move, with `n` other threads in flight.
pub record After (n : ℕ) (ctx : UcxCtx) (t : Thread) : Type 0 where
  pub valid : IsValid ctx.mr_set
  pub counted : ctx.num_pending_mrs ≡ pending t + n
  pub thread : IsThread t

-- The set and the count after the search.
abbrev Kept : UcxCtx → UcxCtx × ℕ → Type 0
Kept ctx (ctx', p) =
    (ctx'.mr_set ≡ ctx.mr_set)
    × (ctx'.num_pending_mrs ≡ (if p == 0 then ctx.num_pending_mrs + 1 else ctx.num_pending_mrs))

begin-Kept : (ctx : UcxCtx) (q : Request) → Kept ctx (begin ctx q)
unfolding begin
begin-Kept ctx q = elim (Bool-cases (q.buf_addr == 0)) [
  | inl z ↦ rw z (refl, refl)
  | inr a ↦ elim (Bool-cases (mr_set_find ctx.mr_set q.buf_addr q.buf_len == 0)) [
    | inl z ↦ rw (a, z) (refl, refl)
    | inr n ↦ rw (a, n) (refl, rw n refl)
  ]
]

begin-Kept_at :
    (ctx : UcxCtx) (q : Request) (ctx' : UcxCtx) (p : ℕ)
    → begin ctx q ≡ (ctx', p)
    → Kept ctx (ctx', p)
begin-Kept_at ctx q ctx' p e = subst (Kept ctx) e (begin-Kept ctx q)

abbrev Committed : UcxCtx → UcxCtx × Bool → Type 0
Committed ctx (ctx', done) =
    IsValid ctx'.mr_set
    × (ctx'.num_pending_mrs ≡ (if done then ctx.num_pending_mrs - 1 else ctx.num_pending_mrs))

commit-Committed :
    (malloc : Bool) (ctx : UcxCtx) (mrk : MemRegion)
    → IsValid ctx.mr_set
    → IsRegion (region_of mrk)
    → (r : UcxCtx × Bool) → commit malloc ctx mrk ≡ some r
    → Committed ctx r
unfolding commit
commit-Committed malloc ctx mrk v region =
    go (mr_set_insert malloc ctx.mr_set mrk.addr mrk.len mrk.self) refl
  where
    commits_as :
        (s' : MrSet) (zero : Bool)
        → IsValid s'
        → Committed ctx (
            if zero
            then (record { num_pending_mrs = ctx.num_pending_mrs - 1; mr_set = s' }, true)
            else (record ctx { mr_set = s' }, false))
    commits_as s' true w = (w, refl)
    commits_as s' false w = (w, refl)

    go :
        (o : Option (MrSet × ℤ))
        → mr_set_insert malloc ctx.mr_set mrk.addr mrk.len mrk.self ≡ o
        → (r : UcxCtx × Bool)
        → (do
          i ← o
          some (
              if is_zero i.1
              then (record { num_pending_mrs = ctx.num_pending_mrs - 1; mr_set = i.0 }, true)
              else (record ctx { mr_set = i.0 }, false)))
          ≡ some r
        → Committed ctx r
    go none i r e = absurd (cc e)
    go (some (s', code)) i r e = subst (Committed ctx) (some-injective _ _ e) (
        commits_as s' (is_zero code)
          (insert-IsValid malloc ctx.mr_set (region_of mrk) s' code v region i))

-- The region of a prepared record.
prepared-IsRegion :
    (q : Request) (a : Answers) (mrk : MemRegion)
    → IsRange q
    → IsRecordOf q a mrk
    → IsRegion (region_of mrk)
prepared-IsRegion q a mrk h rec =
    rw (region_of-record q a mrk rec)
      (record { not_empty = h.not_empty; fits = h.fits; has_item = rw (← rec.self) rec.not_null })

prepared :
    (q : Request) (a : Answers) (p : Prepared × List Resource)
    → IsAnswers a
    → prepare q a ≡ p
    → Prepares q a p
prepared q a p h e = subst (Prepares q a) e (prepare-Prepares q a h)

removed-IsValid :
    (s : MrSet)
    → IsValid s
    → (addr len : ℕ) → 0 < len
    → addr + len < 2 ^ 64
    → (s' : MrSet) (p : ℕ) → mr_set_remove s addr len ≡ some (s', p)
    → IsValid s'
removed-IsValid s v addr len l f s' p e =
    let (t, e', w, _) = mr_set_remove-eq s v addr len l f in
    subst IsValid (ap (λ (r : MrSet × ℕ). r.0) (some-injective _ _ (sym e' ∙ e))) w

pub move-After :
    {n : ℕ} {ctx ctx' : UcxCtx} {t t' : Thread}
    → Move ctx t ctx' t'
    → After n ctx t
    → After n ctx' t'
unfolding abandon
move-After {ctx = ctx} (search_fails q ctx' e) h =
    let (s, c) = begin-Kept_at ctx q ctx' 0 e in
    record { valid = rw s h.valid; counted = omega (arith, c, h.counted); thread = h.thread }
move-After {ctx = ctx} (search_finds q ctx' p e l) h =
    let (s, c) = begin-Kept_at ctx q ctx' p e in
    record { valid = rw s h.valid; counted = ground (arith, c, h.counted, l); thread = λ z. refl }
move-After (prepares q a mrk held k e) h =
    let (g, rec, o, r) = prepared q a (ready mrk, held) k e in
    record {
      valid = h.valid;
      counted = h.counted;
      thread = (prepared-IsRegion q a mrk h.thread rec, o, r);
    }
move-After (gives_up q a mrk held k e) h =
    let (g, r) = prepared q a (failed mrk, held) k e in
    record { valid = h.valid; counted = h.counted; thread = r }
move-After {ctx = ctx} (commits malloc mrk held ctx' e) h =
    let (v, c) = commit-Committed malloc ctx mrk h.valid h.thread.0 (ctx', true) e in
    record {
      valid = v;
      counted = omega (arith, c, h.counted);
      thread = λ z. absurd (omega (arith, z, h.thread.0.has_item));
    }
move-After {ctx = ctx} (collides malloc mrk held ctx' e) h =
    let (v, c) = commit-Committed malloc ctx mrk h.valid h.thread.0 (ctx', false) e in
    record { valid = v; counted = c ∙ h.counted; thread = h.thread.2 }
move-After {ctx = ctx} (fails mrk held rest ctx' e) h =
    let same = some-injective _ _ (sym (h.thread ctx) ∙ e) in
    record {
      valid = subst IsValid (ap (λ (r : UcxCtx × List Resource × ℕ). r.0.mr_set) same) h.valid;
      counted =
          sym (ap (λ (r : UcxCtx × List Resource × ℕ). r.0.num_pending_mrs) same)
          ∙ omega (arith, h.counted);
      thread = λ z. sym (ap (λ (r : UcxCtx × List Resource × ℕ). r.1) same);
    }
move-After {ctx = ctx} (removes_nothing addr len s e) h = record {
  valid = removed-IsValid ctx.mr_set h.valid addr len h.thread.0 h.thread.1 s 0 e;
  counted = h.counted;
  thread = refl;
}
move-After {ctx = ctx} (removes addr len p mrk s e _ live) h = record {
  valid = removed-IsValid ctx.mr_set h.valid addr len h.thread.0 h.thread.1 s p e;
  counted = h.counted;
  thread = destroy-live p mrk [] live;
}
move-After {ctx = ctx} (destroys mrk held rest e) h = record {
  valid = h.valid;
  counted = h.counted;
  thread = some-injective _ _ (sym e ∙ h.thread);
}
