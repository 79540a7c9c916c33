-- ===== src/Regist/Api.antt =====
-- `_regist_pub_buf`, with its callers, and `utrans_dereg_mem`. The context is not NULL.
use asystem_astate.Base.{
  ℕ, ◌+◌, Bool, ◌&&◌, ◌||◌, ◌==◌, ltb, not, if◌then◌else◌, Option, none, some, ◌>>=◌, List, [], ℤ,
  pos, negsuc,
}
use asystem_astate.MrSet.Api.{mr_set_remove}
use asystem_astate.Regist.Context.{
  MemRegion, UcxCtx, Request, Answers, Resource, memory, mapping, rkey_buffer, give_back, begin,
  Prepared, ready, failed, prepare, commit, abandon,
}

-- Releases what a record holds, and the record.
unfoldable pub release_record : MemRegion → List Resource → Option (List Resource)
release_record mrk held = do
  unpacked ←
      if not (mrk.rkey_cont == 0) && not (mrk.rkey_size == 0)
      then give_back (rkey_buffer mrk.rkey_cont) held
      else some held
  unmapped ← if not (mrk.hdl == 0) then give_back (mapping mrk.hdl) unpacked else some unpacked
  give_back (memory mrk.self) unmapped

-- From the label `failed` on.
unfoldable pub fail :
    UcxCtx → Option MemRegion → List Resource → Option (UcxCtx × List Resource × ℕ)
fail ctx none held = some (abandon ctx, held, 0)
fail ctx (some mrk) held = do rest ← release_record mrk held; some (abandon ctx, rest, 0)

unfoldable pub record_region :
    Bool → UcxCtx → Prepared × List Resource → Option (UcxCtx × List Resource × ℕ)
record_region malloc ctx (failed mrk, held) = fail ctx mrk held
record_region malloc ctx (ready mrk, held) = do
  r ← commit malloc ctx mrk
  if r.1 then some (r.0, held, mrk.self) else fail r.0 (some mrk) held

-- The context after the call, the resources that a new record holds, and the record that is returned.
unfoldable pub regist_pub_buf : UcxCtx → Request → Answers → Option (UcxCtx × List Resource × ℕ)
regist_pub_buf ctx q a =
    let b = begin ctx q in
    if b.1 == 0 then record_region a.malloc b.0 (prepare q a) else some (b.0, [], b.1)

unfoldable pub regist_ram : UcxCtx → ℕ → ℕ → Answers → Option (UcxCtx × List Resource × ℕ)
regist_ram ctx addr len a =
    if addr == 0 || len == 0
    then some (ctx, [], 0)
    else regist_pub_buf ctx (record { mem_type = pos 0; buf_addr = addr; buf_len = len }) a

-- 64 GPUs, from number 8 on; `none` is -1.
unfoldable pub get_vram_mem_type : ℤ → Option ℕ
get_vram_mem_type (pos gpu_id) = if ltb gpu_id 64 then some (8 + gpu_id) else none
get_vram_mem_type (negsuc n) = none

unfoldable pub regist_vram : UcxCtx → ℕ → ℕ → ℤ → Answers → Option (UcxCtx × List Resource × ℕ)
regist_vram ctx addr len gpu_id a =
    if addr == 0 || len == 0 then some (ctx, [], 0) else elim (get_vram_mem_type gpu_id) [
      | none ↦ some (ctx, [], 0)
      | some mem_gpu ↦
          regist_pub_buf ctx (record { mem_type = pos mem_gpu; buf_addr = addr; buf_len = len }) a
    ]

unfoldable pub mr_reg_item_destroy : MemRegion → List Resource → Option (List Resource)
mr_reg_item_destroy pmr_item held = release_record pmr_item held

-- `records` are the records by their addresses. The context after the call, what is still held, and
-- the code that is returned.
unfoldable pub dereg_mem :
    (ℕ → MemRegion) → UcxCtx → List Resource → ℕ → ℕ → Option (UcxCtx × List Resource × ℤ)
dereg_mem records ctx held addr len =
    if addr == 0 || len == 0 then some (ctx, held, negsuc 2) else (do
      r ← mr_set_remove ctx.mr_set addr len
      rest ← if r.1 == 0 then some held else mr_reg_item_destroy (records r.1) held
      some (record ctx { mr_set = r.0 }, rest, pos 0))
