-- ===== src/Regist/Runs.antt =====
-- A registration that no other thread interrupts.
use asystem_astate.Base.{
  ℕ, ◌+◌, ◌-◌, ◌^◌, ◌<◌, ◌≡◌, refl, ◌∙◌, ap, Bool, true, false, not, ◌&&◌, ◌==◌, inl, inr,
  Bool-cases, Option-cases, if◌then◌else◌, Option, none, some, ◌>>=◌, List, [], arith,
}
use asystem_astate.MrSet.Node.{Region}
use asystem_astate.MrSet.Api.{MrSet}
use asystem_astate.MrSet.Sorted.{IsRegion, collides, insert_sorted, containing}
use asystem_astate.MrSet.Laws.{All-containing, IsSorted-regions}
use asystem_astate.MrSet.Insert.Balanced.{IsAvl}
use asystem_astate.MrSet.Refine.{
  IsValid, contents, mr_set_find-eq, mr_set_insert_balanced, mr_set_insert_no_memory,
}
use asystem_astate.Regist.Context.{
  MemRegion, UcxCtx, Request, Answers, Resource, begin, Prepared, ready, failed, prepare, commit,
  abandon,
}
use asystem_astate.Regist.Api.{record_region, regist_pub_buf, fail}
use asystem_astate.Regist.Release.{
  IsAnswers, grants, resources, IsRecordOf, IsReleased, Prepares, prepare-Prepares,
}

-- A range that is not empty and ends within the address space.
pub record IsRange (q : Request) : Type 0 where
  pub not_null : 0 < q.buf_addr
  pub not_empty : 0 < q.buf_len
  pub fits : q.buf_addr + q.buf_len < 2 ^ 64

-- The region of a record that is stored at an address.
abbrev pub region_at : Request → ℕ → Region
region_at q p = record { addr = q.buf_addr; len = q.buf_len; value = p }

-- The context, what a new record holds, and the record that is returned.
pub data Registers (ctx : UcxCtx) (q : Request) (a : Answers)
    : UcxCtx → List Resource → ℕ → Type 0 where
  -- The range lies in a region of the set.
  already :
      (x : Region)
      → containing q.buf_addr q.buf_len (contents ctx.mr_set) ≡ some x
      → Registers ctx q a ctx [] x.value
  -- A call fails, or the range overlaps a region of the set.
  refused :
      containing q.buf_addr q.buf_len (contents ctx.mr_set) ≡ none
      → (grants a && (a.malloc && not (collides (region_at q a.calloc) (contents ctx.mr_set))))
        ≡ false
      → Registers ctx q a ctx [] 0
  added :
      (s : MrSet) (mrk : MemRegion)
      → grants a ≡ true
      → a.malloc ≡ true
      → collides (region_at q a.calloc) (contents ctx.mr_set) ≡ false
      → IsRecordOf q a mrk
      → IsValid s
      → IsAvl s.root
      → contents s ≡ insert_sorted (region_at q a.calloc) (contents ctx.mr_set)
      → Registers ctx q a (record ctx { mr_set = s }) (resources mrk) mrk.self

abbrev Result : UcxCtx → Request → Answers → Option (UcxCtx × List Resource × ℕ) → Type 0
Result ctx q a o =
    (ctx' : UcxCtx) × (held : List Resource) × (ret : ℕ) × (o ≡ some (ctx', held, ret))
    × Registers ctx q a ctx' held ret

add-sub : (n : ℕ) → n + 1 - 1 ≡ n
add-sub n = omega arith

pending_again :
    (ctx : UcxCtx) (s : MrSet)
    → record { num_pending_mrs = ctx.num_pending_mrs + 1 - 1; mr_set = s }
      ≡ record ctx { mr_set = s }
pending_again ctx s =
    ap (λ (n : ℕ). record { num_pending_mrs = n; mr_set = s }) (add-sub ctx.num_pending_mrs)

abbrev pub region_of : MemRegion → Region
region_of mrk = record { addr = mrk.addr; len = mrk.len; value = mrk.self }

pub region_of-record :
    (q : Request) (a : Answers) (mrk : MemRegion)
    → IsRecordOf q a mrk
    → region_of mrk ≡ region_at q a.calloc
region_of-record q a mrk h = λ i. record { addr = h.addr i; len = h.len i; value = h.self i }

-- `_regist_pub_buf` after its search.
run_after :
    (ctx : UcxCtx) (q : Request) (a : Answers) (ctx' : UcxCtx) (p : ℕ)
    → begin ctx q ≡ (ctx', p)
    → regist_pub_buf ctx q a
      ≡ (if p == 0 then record_region a.malloc ctx' (prepare q a) else some (ctx', [], p))
unfolding regist_pub_buf
run_after ctx q a ctx' p e =
    ap
      (λ (b : UcxCtx × ℕ).
        if b.1 == 0 then record_region a.malloc b.0 (prepare q a) else some (b.0, [], b.1))
      e

module _ (ctx : UcxCtx) (q : Request) (a : Answers) (valid : IsValid ctx.mr_set)
    (avl : IsAvl ctx.mr_set.root) (range : IsRange q) where
  -- The context while the registration is pending.
  abbrev during : UcxCtx
  during = record ctx { num_pending_mrs = ctx.num_pending_mrs + 1 }

  begin_new :
      containing q.buf_addr q.buf_len (contents ctx.mr_set) ≡ none → begin ctx q ≡ (during, 0)
  unfolding begin
  begin_new c =
      let found = mr_set_find-eq ctx.mr_set valid q.buf_addr q.buf_len range.not_empty range.fits in
      rw (found, c) (ground (arith, range.not_null))

  begin_found :
      (x : Region)
      → containing q.buf_addr q.buf_len (contents ctx.mr_set) ≡ some x
      → 0 < x.value
      → begin ctx q ≡ (ctx, x.value)
  unfolding begin
  begin_found x c l =
      let found = mr_set_find-eq ctx.mr_set valid q.buf_addr q.buf_len range.not_empty range.fits in
      rw (found, c) (ground (arith, range.not_null, l))

  -- The insertion of a record of the range.
  data Commits (mrk : MemRegion) : Option (UcxCtx × Bool) → Type 0 where
    hit :
        (a.malloc && not (collides (region_of mrk) (contents ctx.mr_set))) ≡ false
        → Commits mrk (some (during, false))
    free :
        (s : MrSet)
        → a.malloc ≡ true
        → collides (region_of mrk) (contents ctx.mr_set) ≡ false
        → IsValid s
        → IsAvl s.root
        → contents s ≡ insert_sorted (region_of mrk) (contents ctx.mr_set)
        → Commits mrk (some (record ctx { mr_set = s }, true))

  commit-Commits :
      (mrk : MemRegion) → IsRegion (region_of mrk) → Commits mrk (commit a.malloc during mrk)
  unfolding commit
  commit-Commits mrk region =
      let x = region_of mrk in
      let (s, i, v, w, same, new) = mr_set_insert_balanced ctx.mr_set valid x region avl in
      elim (Bool-cases a.malloc) [
        | inr n ↦ rw (n, mr_set_insert_no_memory ctx.mr_set x region avl) (hit refl)
        | inl m ↦ elim (Bool-cases (collides x (contents ctx.mr_set))) [
          | inl h ↦ rw (m, i, h) (rw (same h) (hit (rw h refl)))
          | inr f ↦ rw (m, i, f) (rw (add-sub ctx.num_pending_mrs) (free s refl f v w (new f)))
        ]
      ]

  fails :
      (mrk : Option MemRegion) (held : List Resource)
      → IsReleased mrk held
      → fail during mrk held ≡ some (ctx, [], 0)
  unfolding abandon
  fails mrk held r = r during ∙ ap (λ x. some (x, [], 0)) (pending_again ctx ctx.mr_set)

  record-Registers :
      (p : Prepared) (held : List Resource)
      → Prepares q a (p, held)
      → containing q.buf_addr q.buf_len (contents ctx.mr_set) ≡ none
      → Result ctx q a (record_region a.malloc during (p, held))
  unfolding record_region
  record-Registers (failed mrk) held (g, r) c =
      (ctx, [], 0, fails mrk held r, refused c (rw g refl))
  record-Registers (ready mrk) held (g, rec, e, r) c = go (commit a.malloc during mrk) (
      commit-Commits mrk (
        rw same (record {
          not_empty = range.not_empty;
          fits = range.fits;
          has_item = rw (← rec.self) rec.not_null;
        })))
    where
      same : region_of mrk ≡ region_at q a.calloc
      same = region_of-record q a mrk rec

      go :
          (o : Option (UcxCtx × Bool))
          → Commits mrk o
          → Result ctx q a
              (do r ← o; if r.1 then some (r.0, held, mrk.self) else fail r.0 (some mrk) held)
      go _ (hit h) = (ctx, [], 0, fails (some mrk) held r, refused c (rw (g, ← same, h) refl))
      go _ (free s m f v w new) = (
        record ctx { mr_set = s },
        resources mrk,
        mrk.self,
        rw e refl,
        added s mrk g m (rw (← same) f) rec v w (rw (← same) new),
      )

  -- The set of the context is a valid AVL tree, the range is not at NULL, not empty, and ends
  -- within the address space, and the handle, key and key size that UCX gives where it succeeds are
  -- not 0. Then a registration returns without a fault: the record of a region that contains the
  -- range, if there is one; otherwise a new record that holds its resources and is added to the
  -- set, if all calls succeed, the malloc of the insertion included, and no region overlaps;
  -- otherwise NULL, with everything given back and the context unchanged.
  pub regist-Registers :
      IsAnswers a
      → (ctx' : UcxCtx) × (held : List Resource) × (ret : ℕ) × (regist_pub_buf ctx q a
          ≡ some (ctx', held, ret))
        × Registers ctx q a ctx' held ret
  regist-Registers h = elim (Option-cases (containing q.buf_addr q.buf_len (contents ctx.mr_set))) [
    | inl c ↦
        rw (run_after ctx q a during 0 (begin_new c))
          (record-Registers (prepare q a).0 (prepare q a).1 (prepare-Prepares q a h) c)
    | inr (x, c) ↦
        let region =
          All-containing IsRegion q.buf_addr q.buf_len (contents ctx.mr_set)
            (IsSorted-regions (contents ctx.mr_set) valid.sorted) c in
        (
          ctx,
          [],
          x.value,
          run_after ctx q a ctx x.value (begin_found x c region.has_item)
              ∙ ground (arith, region.has_item),
          already x c,
        )
  ]
