-- ===== src/Regist/Tests.antt =====
-- Two threads that register overlapping ranges, and the theorems at concrete inputs.
use asystem_astate.Base.{ℕ, ◌≡◌, refl, some, true, List, [], ◌∷◌, ◌++◌, arith, pos}
use asystem_astate.MrSet.Node.{null, node}
use asystem_astate.MrSet.Api.{mr_set_find}
use asystem_astate.MrSet.Tree.{avl_find}
use asystem_astate.MrSet.Refine.{IsValid, contents, without}
use asystem_astate.MrSet.Sorted.{containing}
use asystem_astate.Regist.Context.{MemRegion, UcxCtx, Request, Answers, Resource, memory, begin}
use asystem_astate.Regist.Api.{regist_pub_buf, regist_vram, get_vram_mem_type, dereg_mem}
use asystem_astate.Regist.Release.{IsAnswers}
use asystem_astate.Regist.Runs.{IsRange, Registers, regist-Registers}
use asystem_astate.Regist.Dereg.{held_for, dereg_mem-eq}
use asystem_astate.Regist.Threads.{
  asking, registering, removing, search_fails, System, step, Reach, here, next,
}
use asystem_astate.Regist.Invariant.{IsConsistent, Reach-IsConsistent}

-- One region, [100, 150), with its record at address 7.
abbrev old : UcxCtx
old = record {
  num_pending_mrs = 0;
  mr_set = record {
    root = node (record { addr = 100; len = 50; value = 7 }) null null 1;
    size = 1;
  };
}

old-IsValid : IsValid old.mr_set
old-IsValid = record {
  sorted = (record { not_empty = omega arith; fits = omega arith; has_item = omega arith }, tt, tt);
  counted = refl;
}

abbrev new_buffer : Request
new_buffer = record { mem_type = pos 0; buf_addr = 200; buf_len = 20 }

new_buffer-IsRange : IsRange new_buffer
new_buffer-IsRange = record { not_null = omega arith; not_empty = omega arith; fits = omega arith }

abbrev granted : Answers
granted = record { calloc = 9; mem_map = some 31; rkey_pack = some (41, 16); malloc = true }

granted-IsAnswers : IsAnswers granted
granted-IsAnswers = record { handle = omega arith; packed = (omega arith, omega arith) }

regist-Registers_example :
    (ctx' : UcxCtx) × (held : List Resource) × (ret : ℕ) × (regist_pub_buf old new_buffer granted
      ≡ some (ctx', held, ret))
    × Registers old new_buffer granted ctx' held ret
regist-Registers_example =
    regist-Registers old new_buffer granted old-IsValid (tt, tt, (omega arith, omega arith), refl)
      new_buffer-IsRange granted-IsAnswers

abbrev records : ℕ → MemRegion
records p = record {
  self = p;
  addr = 100;
  len = 50;
  type = pos 0;
  hdl = 30;
  rkey_size = 16;
  rkey_cont = 40;
}

dereg_mem-eq_example :
    (ctx' : UcxCtx) × (dereg_mem records old
        (held_for records (containing 110 10 (contents old.mr_set)) ++ memory 9 ∷ [])
        110
        10
      ≡ some (ctx', memory 9 ∷ [], pos 0))
    × IsValid ctx'.mr_set
    × (contents ctx'.mr_set
        ≡ without (containing 110 10 (contents old.mr_set)) (contents old.mr_set))
    × (ctx'.num_pending_mrs ≡ old.num_pending_mrs)
dereg_mem-eq_example =
    dereg_mem-eq records old (memory 9 ∷ []) 110 10 old-IsValid (omega arith) (omega arith)
      (omega arith)
      (record {
        self = refl;
        mapped = omega arith;
        has_rkey = omega arith;
        rkey_not_empty = omega arith;
      })

-- A thread that registers, and one that removes the old region.
abbrev at_start : System
at_start = record { ctx = old; threads = asking new_buffer ∷ removing 100 50 ∷ [] }

abbrev after_search : System
after_search = record {
  ctx = record old { num_pending_mrs = 1 };
  threads = registering new_buffer ∷ removing 100 50 ∷ [];
}

search_run : begin old new_buffer ≡ (after_search.ctx, 0)
unfolding begin mr_set_find avl_find
search_run = refl

searched : Reach at_start after_search
searched = next here (
    step [] (removing 100 50 ∷ []) (asking new_buffer) (registering new_buffer) after_search.ctx
      refl (search_fails new_buffer after_search.ctx search_run))

Reach-IsConsistent_example : IsConsistent after_search
Reach-IsConsistent_example =
    Reach-IsConsistent at_start after_search refl old-IsValid
      (new_buffer-IsRange, ((omega arith, omega arith), tt)) searched

no_such_gpu : regist_vram old 200 20 (pos 64) granted ≡ some (old, [], 0)
unfolding regist_vram get_vram_mem_type
no_such_gpu = refl
