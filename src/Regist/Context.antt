-- ===== src/Regist/Context.antt =====
-- The steps of `_regist_pub_buf` between the points where it takes and releases its lock. Pointers
-- and handles are numbers, and 0 is NULL. What `calloc`, `malloc` and UCX answer is an argument.
use asystem_astate.Base.{
  ℕ, ◌+◌, ◌-◌, Bool, true, false, ◌&&◌, ◌==◌, not, if◌then◌else◌, Option, none, some, ◌>>=◌, List,
  [], ◌∷◌, ℤ, is_zero,
}
use asystem_astate.MrSet.Api.{MrSet, mr_set_find, mr_set_insert}

-- `mem_region_registed_t`, with its own address
pub record MemRegion : Type 0 where
  pub self : ℕ
  pub addr : ℕ
  pub len : ℕ
  pub type : ℤ
  pub hdl : ℕ
  pub rkey_size : ℕ
  pub rkey_cont : ℕ

-- The fields of `ucx_ctx_t` that are used.
pub record UcxCtx : Type 0 where
  pub num_pending_mrs : ℕ
  pub mr_set : MrSet

pub record Request : Type 0 where
  pub mem_type : ℤ
  pub buf_addr : ℕ
  pub buf_len : ℕ

-- `calloc`; `ucp_mem_map` (`none`: it fails and leaves the handle NULL); `ucp_rkey_pack` likewise;
-- whether `malloc` succeeds in the insertion.
pub record Answers : Type 0 where
  pub calloc : ℕ
  pub mem_map : Option ℕ
  pub rkey_pack : Option (ℕ × ℕ)
  pub malloc : Bool

-- What has to be given back to `free`, `ucp_mem_unmap` and `ucp_rkey_buffer_release`.
pub data Resource : Type 0 where
  memory : ℕ → Resource
  mapping : ℕ → Resource
  rkey_buffer : ℕ → Resource

unfoldable pub same_resource : Resource → Resource → Bool
same_resource (memory p) (memory q) = p == q
same_resource (mapping p) (mapping q) = p == q
same_resource (rkey_buffer p) (rkey_buffer q) = p == q
same_resource r s = false

-- Gives back a resource that is held; giving back what is not held is an error (`none`).
unfoldable pub give_back : Resource → List Resource → Option (List Resource)
give_back r [] = none
give_back r (s ∷ held) =
    let later = (do rest ← give_back r held; some (s ∷ rest)) in
    if same_resource r s then some held else later

-- Under the read lock: the record that is found, or 0 and one more pending registration.
unfoldable pub begin : UcxCtx → Request → UcxCtx × ℕ
begin ctx q =
    let reged = mr_set_find ctx.mr_set q.buf_addr q.buf_len in
    if not (q.buf_addr == 0) && not (reged == 0)
    then (ctx, reged)
    else (record ctx { num_pending_mrs = ctx.num_pending_mrs + 1 }, 0)

-- Without a lock: the record is filled, or it fails with the record as far as it is, if there is one.
pub data Prepared : Type 0 where
  ready : MemRegion → Prepared
  failed : Option MemRegion → Prepared

abbrev pub with_rkey : MemRegion → Option (ℕ × ℕ) → List Resource → Prepared × List Resource
with_rkey mrk none held = (failed (some mrk), held)
with_rkey mrk (some (cont, size)) held =
    (ready (record mrk { rkey_cont = cont; rkey_size = size }), rkey_buffer cont ∷ held)

abbrev pub with_handle :
    MemRegion → Option ℕ → Option (ℕ × ℕ) → List Resource → Prepared × List Resource
with_handle mrk none pack held = (failed (some mrk), held)
with_handle mrk (some h) pack held = with_rkey (record mrk { hdl = h }) pack (mapping h ∷ held)

-- What is prepared, and the resources that it holds.
unfoldable pub prepare : Request → Answers → Prepared × List Resource
prepare q a =
    if a.calloc == 0
    then (failed none, [])
    else with_handle
        (record {
          self = a.calloc;
          addr = q.buf_addr;
          len = q.buf_len;
          type = q.mem_type;
          hdl = 0;
          rkey_size = 0;
          rkey_cont = 0;
        })
        a.mem_map a.rkey_pack (memory a.calloc ∷ [])

-- Under the write lock: is the record in the set now? If it is, a registration less is pending.
-- `malloc` says whether it succeeds in the insertion. `none`: the set dereferences NULL.
unfoldable pub commit : Bool → UcxCtx → MemRegion → Option (UcxCtx × Bool)
commit malloc ctx mrk = do
  r ← mr_set_insert malloc ctx.mr_set mrk.addr mrk.len mrk.self
  some (
      if is_zero r.1
      then (record { num_pending_mrs = ctx.num_pending_mrs - 1; mr_set = r.0 }, true)
      else (record ctx { mr_set = r.0 }, false))

-- `failed:` counts the registration as done.
unfoldable pub abandon : UcxCtx → UcxCtx
abandon ctx = record ctx { num_pending_mrs = ctx.num_pending_mrs - 1 }
