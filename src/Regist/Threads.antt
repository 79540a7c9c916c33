-- ===== src/Regist/Threads.antt =====
-- Threads that register and deregister memory at the same time. A step is what a thread does while
-- it holds the lock, or between two locks, where it touches only its own record.
use asystem_astate.Base.{ℕ, ◌+◌, ◌<◌, ◌≡◌, Bool, true, false, Option, some, List, [], ◌∷◌, ◌++◌}
use asystem_astate.MrSet.Api.{MrSet, mr_set_remove}
use asystem_astate.Regist.Context.{
  MemRegion, UcxCtx, Request, Answers, Resource, begin, ready, failed, prepare, commit,
}
use asystem_astate.Regist.Api.{fail, mr_reg_item_destroy}
use asystem_astate.Regist.Release.{IsAnswers, resources}
use asystem_astate.Regist.Dereg.{IsLive}

-- Where a thread is in `_regist_pub_buf`: before the search, after it, with a prepared record, at the
-- label `failed`; or it has the record of its result, and holds resources. In `utrans_dereg_mem`: before
-- the removal, with the record that was removed, or at the end.
pub data Thread : Type 0 where
  asking : Request → Thread
  registering : Request → Thread
  recording : MemRegion → List Resource → Thread
  failing : Option MemRegion → List Resource → Thread
  removing : ℕ → ℕ → Thread
  finished : ℕ → List Resource → Thread
  destroying : MemRegion → List Resource → Thread
  removed : List Resource → Thread

pub data Move (ctx : UcxCtx) : Thread → UcxCtx → Thread → Type 0 where
  search_fails :
      (q : Request) (ctx' : UcxCtx)
      → begin ctx q ≡ (ctx', 0)
      → Move ctx (asking q) ctx' (registering q)
  search_finds :
      (q : Request) (ctx' : UcxCtx) (p : ℕ)
      → begin ctx q ≡ (ctx', p)
      → 0 < p
      → Move ctx (asking q) ctx' (finished p [])
  prepares :
      (q : Request) (a : Answers) (mrk : MemRegion) (held : List Resource)
      → IsAnswers a
      → prepare q a ≡ (ready mrk, held)
      → Move ctx (registering q) ctx (recording mrk held)
  gives_up :
      (q : Request) (a : Answers) (mrk : Option MemRegion) (held : List Resource)
      → IsAnswers a
      → prepare q a ≡ (failed mrk, held)
      → Move ctx (registering q) ctx (failing mrk held)
  commits :
      (malloc : Bool) (mrk : MemRegion) (held : List Resource) (ctx' : UcxCtx)
      → commit malloc ctx mrk ≡ some (ctx', true)
      → Move ctx (recording mrk held) ctx' (finished mrk.self held)
  collides :
      (malloc : Bool) (mrk : MemRegion) (held : List Resource) (ctx' : UcxCtx)
      → commit malloc ctx mrk ≡ some (ctx', false)
      → Move ctx (recording mrk held) ctx' (failing (some mrk) held)
  fails :
      (mrk : Option MemRegion) (held rest : List Resource) (ctx' : UcxCtx)
      → fail ctx mrk held ≡ some (ctx', rest, 0)
      → Move ctx (failing mrk held) ctx' (finished 0 rest)
  removes_nothing :
      (addr len : ℕ) (s : MrSet)
      → mr_set_remove ctx.mr_set addr len ≡ some (s, 0)
      → Move ctx (removing addr len) (record ctx { mr_set = s }) (removed [])
  -- The record that is taken out is live, and holds its resources.
  removes :
      (addr len p : ℕ) (mrk : MemRegion) (s : MrSet)
      → mr_set_remove ctx.mr_set addr len ≡ some (s, p)
      → 0 < p
      → IsLive p mrk
      → Move ctx (removing addr len) (record ctx { mr_set = s }) (destroying mrk (resources mrk))
  destroys :
      (mrk : MemRegion) (held rest : List Resource)
      → mr_reg_item_destroy mrk held ≡ some rest
      → Move ctx (destroying mrk held) ctx (removed rest)

pub record System : Type 0 where
  pub ctx : UcxCtx
  pub threads : List Thread

-- One thread moves.
pub data Step (s : System) : System → Type 0 where
  step :
      (before after : List Thread) (t t' : Thread) (ctx' : UcxCtx)
      → s.threads ≡ before ++ t ∷ after
      → Move s.ctx t ctx' t'
      → Step s (record { ctx = ctx'; threads = before ++ t' ∷ after })

pub data Reach (s : System) : System → Type 0 where
  here : Reach s s
  next : {t u : System} → Reach s t → Step t u → Reach s u

-- Is the thread counted as pending?
abbrev pub pending : Thread → ℕ
pending (registering q) = 1
pending (recording mrk held) = 1
pending (failing mrk held) = 1
pending t = 0

abbrev pub in_flight : List Thread → ℕ
in_flight [] = 0
in_flight (t ∷ ts) = pending t + in_flight ts
