-- ===== src/MrSet/Insert/Fresh.antt =====
-- A region that collides with none is inserted without a fault, whatever the heights say.
use asystem_astate.Base.{
  ℕ, ◌<◌, ◌≡◌, refl, sym, ◌∙◌, Bool, true, false, Option, none, some, ◌⊎◌, inl, inr, leb,
  Bool-cases, ◌>>=◌, arith,
}
use asystem_astate.MrSet.Node.{
  Region, AvlNode, null, node, add64, update_height, with_height, avl_rr_rotation, avl_ll_rotation,
  avl_rl_rotation, avl_lr_rotation,
}
use asystem_astate.MrSet.Tree.{avl_insert, balance_right, balance_left}
use asystem_astate.MrSet.Sorted.{
  regions, IsRegion, IsBefore, IsSorted, collides, insert_sorted, IsSorted-Parts, end_le_of_test,
  lt_end_of_test, collides_here,
}
use asystem_astate.MrSet.Insert.{collides_right, collides_left, insert-Inserts}

abbrev IsNode : AvlNode → Type 0
IsNode null = ⊥
IsNode (node y l r h) = Unit

-- Seen from the new address `a`: the child on its side is there, and a root at `a` itself is a new
-- leaf or has both children.
abbrev Rooted : ℕ → AvlNode → Type 0
Rooted a null = ⊥
Rooted a (node y l r h) =
    (a < y.addr → IsNode l)
    × (y.addr < a → IsNode r)
    × (a ≡ y.addr → (h ≡ 1) ⊎ (IsNode l × IsNode r))

-- The same, of the result of a step that does not fault.
abbrev Grown : ℕ → Option AvlNode → Type 0
Grown a none = ⊥
Grown a (some null) = ⊥
Grown a (some (node y l r h)) =
    (a < y.addr → IsNode l) × (y.addr < a → IsNode r) × (a ≡ y.addr → IsNode l × IsNode r)

balance_right-Grown :
    (a : ℕ) (y : Region) (l r : AvlNode) (h : ℕ)
    → y.addr < a
    → Rooted a r
    → Grown a (balance_right a (node y l r h))
unfolding balance_right avl_rr_rotation avl_rl_rotation
balance_right-Grown a y l null h b k = absurd k
balance_right-Grown a y l (node z null null zh) h b k = ground arith
balance_right-Grown a y l (node z (node v vl vr vh) null zh) h b k = ground arith
balance_right-Grown a y l (node z null (node w wl wr wh) zh) h b k = ground arith
balance_right-Grown a y l (node z (node v vl vr vh) (node w wl wr wh) zh) h b k = ground arith

balance_left-Grown :
    (a : ℕ) (y : Region) (l r : AvlNode) (h : ℕ)
    → a < y.addr
    → Rooted a l
    → Grown a (balance_left a (node y l r h))
unfolding balance_left avl_ll_rotation avl_lr_rotation
balance_left-Grown a y null r h b k = absurd k
balance_left-Grown a y (node z null null zh) r h b k = ground arith
balance_left-Grown a y (node z (node v vl vr vh) null zh) r h b k = ground arith
balance_left-Grown a y (node z null (node w wl wr wh) zh) r h b k = ground arith
balance_left-Grown a y (node z (node v vl vr vh) (node w wl wr wh) zh) r h b k = ground arith

-- An insertion that neither faults nor sets the flag.
abbrev pub Succeeds : ℕ → Option (AvlNode × Bool) → Type 0
Succeeds a o = (t : AvlNode) × (o ≡ some (t, false)) × Rooted a t

Succeeds-finish :
    (a : ℕ) (o : Option AvlNode)
    → Grown a o
    → Succeeds a (o >>= λ t. update_height t >>= λ t'. some (t', false))
unfolding update_height with_height
Succeeds-finish a none k = absurd k
Succeeds-finish a (some null) k = absurd k
Succeeds-finish a (some (node y l r h)) k = (with_height y l r, refl, (k.0, k.1, λ e. inr (k.2 e)))

insert-Succeeds :
    (t : AvlNode) (x : Region)
    → IsRegion x
    → IsSorted (regions t)
    → collides x (regions t) ≡ false
    → Succeeds x.addr (avl_insert true t x false)
unfolding avl_insert update_height with_height
insert-Succeeds null x r s c = (with_height x null null, refl, ground arith)
insert-Succeeds (node y left right h) x r s c =
    let ok = IsSorted-Parts (regions left) y (regions right) s in
    elim (Bool-cases (leb (add64 y.addr y.len) x.addr)) [
      | inl e ↦
          let b : IsBefore y x = end_le_of_test y x.addr ok.root e in
          let (t', e', k) =
            insert-Succeeds right x r ok.right (sym (collides_right x y left right h r ok b) ∙ c) in
          rw (e, e')
            (Succeeds-finish x.addr (balance_right x.addr (node y left t' h))
              (balance_right-Grown x.addr y left t' h (omega (arith, ok.root.not_empty)) k))
      | inr e ↦ elim (Bool-cases (leb (add64 x.addr x.len) y.addr)) [
        | inl e₂ ↦
            let b : IsBefore x y = end_le_of_test x y.addr r e₂ in
            let (t', e', k) =
              insert-Succeeds left x r ok.left (sym (collides_left x y left right h r ok b) ∙ c) in
            rw (e, e₂, e')
              (Succeeds-finish x.addr (balance_left x.addr (node y t' right h))
                (balance_left-Grown x.addr y t' right h (omega (arith, r.not_empty)) k))
        | inr e' ↦
            let hit =
              collides_here x (regions left) y (regions right) (lt_end_of_test y x.addr ok.root e)
                (lt_end_of_test x y.addr r e') in
            absurd (cc hit)
      ]
    ]

-- A region that collides with none, put into a tree that has every region in order, is inserted
-- at its place: `avl_insert` does not fault and does not set the flag, whatever the height fields
-- of the tree say.
pub avl_insert_fresh :
    (t : AvlNode) (x : Region)
    → IsRegion x
    → IsSorted (regions t)
    → collides x (regions t) ≡ false
    → (t' : AvlNode) × (avl_insert true t x false ≡ some (t', false))
      × (regions t' ≡ insert_sorted x (regions t))
avl_insert_fresh t x r s c =
    let (t', e, k) = insert-Succeeds t x r s c in (t', e, (rw (e, c) at (insert-Inserts t x r s)).1)
