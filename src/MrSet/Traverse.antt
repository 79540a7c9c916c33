-- ===== src/MrSet/Traverse.antt =====
-- The order in which `avl_traverse` and `avl_destroy` visit the nodes.
use asystem_astate.Base.{
  ℕ, ◌≡◌, refl, sym, ◌∙◌, ap, true, false, some, List, [], ◌∷◌, ◌++◌, if◌then◌else◌, arith, ℤ, pos,
  is_zero, not, Bool-cases, inl, inr,
}
use mathlib.Core.List.{Perm, perm_append_singleton}
use mathlib.Core.List.Perm
use asystem_astate.MrSet.Node.{AvlNode, null, node}
use asystem_astate.MrSet.Tree.{avl_scan, avl_destroy, avl_traverse, call_back}
use asystem_astate.MrSet.Api.{MrSet, mr_set_init, mr_set_traverse, mr_set_destroy}

-- `avl_destroy` frees each node of the tree once.
pub destroy-perm-scan : (t : AvlNode) → Perm (avl_destroy t) (avl_scan t)
unfolding avl_destroy avl_scan
destroy-perm-scan null = Perm.refl []
destroy-perm-scan (node x l r h) = Perm.append (destroy-perm-scan l) (
    Perm.trans (perm_append_singleton x.value (avl_destroy r))
      (Perm.cons x.value (destroy-perm-scan r)))

module _ {ℓ} {S : Type ℓ} (cb : ℕ → S → ℤ × S) where
  -- Calls on the items in turn, up to the first that does not return 0.
  abbrev pub visit : List ℕ → S → ℤ × S
  visit [] s = (pos 0, s)
  visit (v ∷ vs) s = let r = cb v s in let rest = visit vs r.1 in if is_zero r.0 then rest else r

  -- Calls on all items, whatever they return.
  abbrev pub visit_all : List ℕ → S → S
  visit_all [] s = s
  visit_all (v ∷ vs) s = visit_all vs (cb v s).1

  is_zero_eq : (z : ℤ) → is_zero z ≡ true → z ≡ pos 0
  is_zero_eq z h = ground arith

  visit-append :
      (us vs : List ℕ) (s : S)
      → visit (us ++ vs) s ≡ (let r = visit us s in if is_zero r.0 then visit vs r.1 else r)
  visit-append [] vs s = refl
  visit-append (u ∷ us) vs s = elim (Bool-cases (is_zero (cb u s).0)) [
    | inl e ↦ rw e (visit-append us vs (cb u s).1)
    | inr e ↦ rw (e, e)
  ]

  visit_all-append :
      (us vs : List ℕ) (s : S) → visit_all (us ++ vs) s ≡ visit_all vs (visit_all us s)
  visit_all-append [] vs s = refl
  visit_all-append (u ∷ us) vs s = visit_all-append us vs (cb u s).1

  -- The three tests of `avl_traverse` pass on the first result that is not 0.
  choose :
      (r₁ r₂ r₃ : ℤ × S)
      → (if not (is_zero r₁.0)
          then r₁
          else if not (is_zero r₂.0)
          then r₂
          else if not (is_zero r₃.0)
          then r₃
          else (pos 0, r₃.1))
        ≡ (if is_zero r₁.0 then (if is_zero r₂.0 then r₃ else r₂) else r₁)
  choose r₁ r₂ r₃ = elim (Bool-cases (is_zero r₃.0)) [
    | inl e ↦ rw (e, ← is_zero_eq r₃.0 e) (ground arith)
    | inr e ↦ rw e (ground arith)
  ]

  traverse-eq-visit : (t : AvlNode) (s : S) → avl_traverse true (some cb) t s ≡ visit (avl_scan t) s
  unfolding avl_traverse call_back avl_scan
  traverse-eq-visit null s = refl
  traverse-eq-visit (node x l r h) s =
      let first = visit (avl_scan l) s in
      let own = cb x.value first.1 in
      rw
        (
          traverse-eq-visit l s,
          visit-append (avl_scan l) (x.value ∷ avl_scan r) s,
          traverse-eq-visit r own.1,
        )
        (choose first own (visit (avl_scan r) own.1))

  -- Without the check of the results every item is visited.
  traverse_all-eq-visit :
      (t : AvlNode) (s : S) → (avl_traverse false (some cb) t s).1 ≡ visit_all (avl_scan t) s
  unfolding avl_traverse call_back avl_scan
  traverse_all-eq-visit null s = refl
  traverse_all-eq-visit (node x l r h) s =
      traverse_all-eq-visit r (cb x.value (avl_traverse false (some cb) l s).1).1
      ∙ ap (λ u. visit_all (avl_scan r) (cb x.value u).1) (traverse_all-eq-visit l s)
      ∙ sym (visit_all-append (avl_scan l) (x.value ∷ avl_scan r) s)

  -- `utrans_mr_set_destroy` calls back on every item once, in address order, whatever the calls
  -- return. Then it frees each node once, and leaves the empty set.
  pub destroy_lem :
      (m : MrSet) (s : S)
      → ((mr_set_destroy m (some cb) s).0 ≡ visit_all (avl_scan m.root) s)
        × Perm (mr_set_destroy m (some cb) s).1 (avl_scan m.root)
        × ((mr_set_destroy m (some cb) s).2 ≡ mr_set_init)
  unfolding mr_set_destroy mr_set_init
  destroy_lem m s = (traverse_all-eq-visit m.root s, destroy-perm-scan m.root, refl)

  -- `utrans_mr_set_traverse` calls back on the items in address order, and stops at the first call
  -- that does not return 0, whose result it returns; otherwise it returns 0.
  pub mr_set_traverse-eq-visit :
      (m : MrSet) (s : S) → mr_set_traverse m (some cb) s ≡ visit (avl_scan m.root) s
  unfolding mr_set_traverse
  mr_set_traverse-eq-visit m s = traverse-eq-visit m.root s
