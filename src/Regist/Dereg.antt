-- ===== src/Regist/Dereg.antt =====
-- A deregistration that no other thread interrupts.
use asystem_astate.Base.{
  ℕ, ◌+◌, ◌^◌, ◌<◌, ◌≡◌, refl, false, ◌==◌, eq→==, if◌then◌else◌, Option, none, some, ◌>>=◌, List,
  [], ◌++◌, arith, ℤ, pos,
}
use asystem_astate.MrSet.Node.{Region}
use asystem_astate.MrSet.Api.{MrSet}
use asystem_astate.MrSet.Sorted.{IsRegion, containing}
use asystem_astate.MrSet.Laws.{All-containing, IsSorted-regions}
use asystem_astate.MrSet.Refine.{IsValid, contents, item_of, without, mr_set_remove-eq}
use asystem_astate.Regist.Context.{MemRegion, UcxCtx, Resource, same_resource, give_back}
use asystem_astate.Regist.Api.{release_record, mr_reg_item_destroy, dereg_mem}
use asystem_astate.Regist.Release.{resources}

-- A registered record, at its address.
pub record IsLive (p : ℕ) (mrk : MemRegion) : Type 0 where
  pub self : mrk.self ≡ p
  pub mapped : 0 < mrk.hdl
  pub has_rkey : 0 < mrk.rkey_cont
  pub rkey_not_empty : 0 < mrk.rkey_size

not_zero : (n : ℕ) → 0 < n → (n == 0) ≡ false
not_zero n h = ground (arith, h)

pub destroy-live :
    (p : ℕ) (mrk : MemRegion) (others : List Resource)
    → IsLive p mrk
    → mr_reg_item_destroy mrk (resources mrk ++ others) ≡ some others
unfolding mr_reg_item_destroy release_record give_back same_resource
destroy-live p mrk others h =
    rw
      (
        not_zero mrk.rkey_cont h.has_rkey,
        not_zero mrk.rkey_size h.rkey_not_empty,
        not_zero mrk.hdl h.mapped,
        eq→== mrk.rkey_cont mrk.rkey_cont refl,
      )
      (rw (eq→== mrk.hdl mrk.hdl refl) (rw (eq→== mrk.self mrk.self refl) refl))

-- What the record of a region holds.
abbrev pub held_for : (ℕ → MemRegion) → Option Region → List Resource
held_for records none = []
held_for records (some x) = resources (records x.value)

abbrev pub IsLiveFor : (ℕ → MemRegion) → Option Region → Type 0
IsLiveFor records none = Unit
IsLiveFor records (some x) = IsLive x.value (records x.value)

abbrev succeeds : UcxCtx → List Resource → Option (UcxCtx × List Resource × ℤ)
succeeds ctx rest = some (ctx, rest, pos 0)

-- In a context with a valid set, deregistering a range that is not at NULL, not empty, and ends
-- within the address space, succeeds. If a region contains the range, and its record is live (it
-- stands at its own address, and its handle, key and key size are not 0), then the region is taken
-- out of the set, and just what its record holds is given back. If no region contains the range,
-- nothing changes.
pub dereg_mem-eq :
    (records : ℕ → MemRegion) (ctx : UcxCtx) (others : List Resource) (addr len : ℕ)
    → IsValid ctx.mr_set
    → 0 < addr
    → 0 < len
    → addr + len < 2 ^ 64
    → IsLiveFor records (containing addr len (contents ctx.mr_set))
    → (ctx' : UcxCtx) × (dereg_mem records ctx
          (held_for records (containing addr len (contents ctx.mr_set)) ++ others)
          addr
          len
        ≡ some (ctx', others, pos 0))
      × IsValid ctx'.mr_set
      × (contents ctx'.mr_set
          ≡ without (containing addr len (contents ctx.mr_set)) (contents ctx.mr_set))
      × (ctx'.num_pending_mrs ≡ ctx.num_pending_mrs)
unfolding dereg_mem
dereg_mem-eq records ctx others addr len v a l f h =
    let (s, e, w, k) = mr_set_remove-eq ctx.mr_set v addr len l f in
    (
      record ctx { mr_set = s },
      rw (not_zero addr a, not_zero len l, e)
          (go (containing addr len (contents ctx.mr_set)) refl s h),
      w,
      k,
      refl,
    )
  where
    go :
        (o : Option Region)
        → containing addr len (contents ctx.mr_set) ≡ o
        → (s : MrSet) → IsLiveFor records o
        → (do
          rest ←
              if item_of o == 0
              then some (held_for records o ++ others)
              else mr_reg_item_destroy (records (item_of o)) (held_for records o ++ others)
          succeeds (record ctx { mr_set = s }) rest)
          ≡ succeeds (record ctx { mr_set = s }) others
    go none c s h = refl
    go (some x) c s h =
        let region =
          All-containing IsRegion addr len (contents ctx.mr_set)
            (IsSorted-regions (contents ctx.mr_set) v.sorted) c in
        rw (not_zero x.value region.has_item, destroy-live x.value (records x.value) others h) refl
