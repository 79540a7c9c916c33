-- ===== src/Regist/Release.antt =====
-- A registration that fails gives back what it has taken.
use asystem_astate.Base.{
  ℕ, ◌<◌, ◌≡◌, refl, Bool, true, false, ◌&&◌, ◌==◌, eq→==, inl, inr, Bool-cases, not, Option, none,
  some, List, [], ◌∷◌, arith,
}
use asystem_astate.Regist.Context.{
  MemRegion, UcxCtx, Request, Answers, Resource, memory, mapping, rkey_buffer, same_resource,
  give_back, Prepared, ready, failed, with_handle, prepare, abandon,
}
use asystem_astate.Regist.Api.{release_record, fail}

abbrev pub IsHandle : Option ℕ → Type 0
IsHandle none = Unit
IsHandle (some h) = 0 < h

abbrev pub IsPacked : Option (ℕ × ℕ) → Type 0
IsPacked none = Unit
IsPacked (some (cont, size)) = (0 < cont) × (0 < size)

-- Where UCX succeeds, the handle, the buffer and its size are not 0.
pub record IsAnswers (a : Answers) : Type 0 where
  pub handle : IsHandle a.mem_map
  pub packed : IsPacked a.rkey_pack

abbrev is_given {ℓ} : {A : Type ℓ} → Option A → Bool
is_given none = false
is_given (some x) = true

-- Does every call succeed that fills the record?
abbrev pub grants : Answers → Bool
grants a = not (a.calloc == 0) && is_given a.mem_map && is_given a.rkey_pack

abbrev pub resources : MemRegion → List Resource
resources mrk = rkey_buffer mrk.rkey_cont ∷ mapping mrk.hdl ∷ memory mrk.self ∷ []

-- A record of the requested range.
pub record IsRecordOf (q : Request) (a : Answers) (mrk : MemRegion) : Type 0 where
  pub self : mrk.self ≡ a.calloc
  pub not_null : 0 < mrk.self
  pub addr : mrk.addr ≡ q.buf_addr
  pub len : mrk.len ≡ q.buf_len

-- What was taken is given back at the label `failed`.
abbrev pub IsReleased : Option MemRegion → List Resource → Type 0
IsReleased mrk held = (ctx : UcxCtx) → fail ctx mrk held ≡ some (abandon ctx, [], 0)

abbrev pub Prepares : Request → Answers → Prepared × List Resource → Type 0
Prepares q a (failed mrk, held) = (grants a ≡ false) × IsReleased mrk held
Prepares q a (ready mrk, held) =
    (grants a ≡ true) × IsRecordOf q a mrk × (held ≡ resources mrk) × IsReleased (some mrk) held

not_zero : (h : ℕ) → 0 < h → (h == 0) ≡ false
not_zero h l = ground (arith, l)

prepare_with :
    (q : Request) (p : ℕ) (map : Option ℕ) (pack : Option (ℕ × ℕ)) (m : Bool)
    → (p == 0) ≡ false
    → IsHandle map
    → IsPacked pack
    → Prepares q
        (record { calloc = p; mem_map = map; rkey_pack = pack; malloc = m })
        (with_handle
          (record {
            self = p;
            addr = q.buf_addr;
            len = q.buf_len;
            type = q.mem_type;
            hdl = 0;
            rkey_size = 0;
            rkey_cont = 0;
          })
          map
          pack
          (memory p ∷ []))
unfolding fail release_record give_back same_resource
prepare_with q p none pack m z h k = (ground (arith, z), λ ctx. rw (eq→== p p refl) refl)
prepare_with q p (some h) none m z l k =
    (ground (arith, z), λ ctx. rw (not_zero h l, eq→== h h refl, eq→== p p refl) refl)
prepare_with q p (some h) (some (c, s)) m z l k = (
  ground (arith, z),
  record { self = refl; not_null = ground (arith, z); addr = refl; len = refl },
  refl,
  λ ctx.
      rw (not_zero c k.0, not_zero s k.1, not_zero h l, eq→== c c refl)
        (rw (eq→== h h refl) (rw (eq→== p p refl) refl)),
)

pub prepare-Prepares : (q : Request) (a : Answers) → IsAnswers a → Prepares q a (prepare q a)
unfolding prepare fail
prepare-Prepares q a h = elim (Bool-cases (a.calloc == 0)) [
  | inl z ↦ rw z (rw z refl, λ ctx. refl)
  | inr n ↦ rw n (prepare_with q a.calloc a.mem_map a.rkey_pack a.malloc n h.handle h.packed)
]
