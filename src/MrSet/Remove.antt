-- ===== src/MrSet/Remove.antt =====
-- `avl_delete_node` on the list of regions.
use asystem_astate.Base.{
  ℕ, ◌<◌, ◌≡◌, refl, sym, ap, subst, ◌∙◌, Option, none, some, List, [], ◌∷◌, ◌++◌, append_assoc,
  append-nil, inl, inr, ltb, ltb→lt, Bool-cases, some_of_ne_none, if◌then◌else◌, ◌>>=◌, ◌==◌, All,
  All-imp, arith,
}
use asystem_astate.MrSet.Node.{
  Region, AvlNode, null, node, avl_ll_rotation, avl_rr_rotation, avl_lr_rotation, avl_rl_rotation,
}
use asystem_astate.MrSet.Tree.{
  avl_max, avl_min, rebalance_right, rebalance_left, delete_root, avl_delete_node,
}
use asystem_astate.MrSet.Sorted.{regions, IsBefore, IsSorted, erase, Parts, IsSorted-Parts}
use asystem_astate.MrSet.Shape.{Keeps, rebalance_right-Keeps, rebalance_left-Keeps}

-- The item of the region at an address.
abbrev pub item_at : ℕ → List Region → Option ℕ
item_at key [] = none
item_at key (y ∷ ys) = if y.addr == key then some y.value else item_at key ys

starts_before :
    (xs : List Region) (x : Region)
    → IsSorted xs
    → All (λ z. IsBefore z x) xs
    → All (λ z. z.addr < x.addr) xs
starts_before [] x s h = tt
starts_before (y ∷ xs) x s h = (omega (arith, s.0.not_empty), starts_before xs x s.2 h.1)

module _ (key : ℕ) where
  erase_before :
      (xs ys : List Region)
      → All (λ y. y.addr < key) xs
      → (erase key (xs ++ ys) ≡ xs ++ erase key ys) × (item_at key (xs ++ ys) ≡ item_at key ys)
  erase_before [] ys h = (refl, refl)
  erase_before (y ∷ xs) ys h = ground (arith, erase_before xs ys h.1)

  erase_after :
      (ys : List Region)
      → All (λ y. key < y.addr) ys
      → (erase key ys ≡ ys) × (item_at key ys ≡ none)
  erase_after [] h = (refl, refl)
  erase_after (y ∷ ys) h = ground (arith, erase_after ys h.1)

  erase_drop_after :
      (xs ys : List Region)
      → All (λ y. key < y.addr) ys
      → (erase key (xs ++ ys) ≡ erase key xs ++ ys) × (item_at key (xs ++ ys) ≡ item_at key xs)
  erase_drop_after [] ys h = erase_after ys h
  erase_drop_after (y ∷ xs) ys h = ground (arith, erase_drop_after xs ys h)

-- `avl_max` is the last region, and `avl_min` the first.
max_split :
    (l : AvlNode) (x : Region) (r : AvlNode)
    → (xs : List Region) × (regions l ++ x ∷ regions r ≡ xs ++ avl_max x r ∷ [])
unfolding avl_max
max_split l x null = (regions l, refl)
max_split l x (node y yl yr yh) =
    let (xs, e) = max_split yl y yr in (regions l ++ x ∷ xs, rw (e, append_assoc))

min_split :
    (l : AvlNode) (x : Region) (r : AvlNode)
    → (xs : List Region) × (regions l ++ x ∷ regions r ≡ avl_min x l ∷ xs)
unfolding avl_min
min_split null x r = (regions r, refl)
min_split (node y yl yr yh) x r = let (xs, e) = min_split yl y yr in (xs ++ x ∷ regions r, rw e)

-- Balancing after a removal never faults: the child that it rotates is there.
rebalance_right-ne-none :
    (x : Region) (l r : AvlNode) (h : ℕ) → rebalance_right (node x l r h) ≡ none → ⊥
unfolding rebalance_right avl_rr_rotation avl_rl_rotation
rebalance_right-ne-none x l null h = ground arith
rebalance_right-ne-none x l (node y null yr yh) h = ground arith
rebalance_right-ne-none x l (node y (node z zl zr zh) yr yh) h = ground arith

rebalance_left-ne-none :
    (x : Region) (l r : AvlNode) (h : ℕ) → rebalance_left (node x l r h) ≡ none → ⊥
unfolding rebalance_left avl_ll_rotation avl_lr_rotation
rebalance_left-ne-none x null r h = ground arith
rebalance_left-ne-none x (node y yl null yh) r h = ground arith
rebalance_left-ne-none x (node y yl (node z zl zr zh) yh) r h = ground arith

-- What `avl_delete_node` does: it returns the item at the address, and removes that region only.
abbrev pub Deletes : ℕ → AvlNode → Option (AvlNode × Option ℕ) → Type 0
Deletes key t o =
    (t' : AvlNode) × (o ≡ some (t', item_at key (regions t))) × (regions t' ≡ erase key (regions t))

Keeps-some :
    (t t' : AvlNode) (o : Option AvlNode) → Keeps t o → o ≡ some t' → regions t' ≡ regions t
Keeps-some t t' none k e = absurd (cc e)
Keeps-some t t' (some s) k e = ground (arith, k)

module _ (key : ℕ) (x : Region) (left right : AvlNode) (h : ℕ)
    (ok : Parts (regions left) x (regions right)) where
  Deletes-leftward :
      (o : Option (AvlNode × Option ℕ))
      → key < x.addr
      → Deletes key left o
      → Deletes key
          (node x left right h)
          (o >>= λ r. rebalance_right (node x r.0 right h) >>= λ t. some (t, r.1))
  Deletes-leftward o b (l', e, k) =
      let s =
        some_of_ne_none (rebalance_right (node x l' right h))
          (rebalance_right-ne-none x l' right h) in
      let after =
        erase_drop_after key (regions left) (x ∷ regions right)
          (b, All-imp (λ z (q : IsBefore x z). omega arith) (regions right) ok.after) in
      (
        s.0,
        rw (e, after.1) (rw s.1),
        rw after.0 (
            Keeps-some (node x l' right h) s.0 (rebalance_right (node x l' right h))
              (rebalance_right-Keeps (node x l' right h)) s.1
            ∙ ap (λ l. l ++ x ∷ regions right) k),
      )

  Deletes-rightward :
      (o : Option (AvlNode × Option ℕ))
      → x.addr < key
      → Deletes key right o
      → Deletes key
          (node x left right h)
          (o >>= λ r. rebalance_left (node x left r.0 h) >>= λ t. some (t, r.1))
  Deletes-rightward o b (r', e, k) =
      let s =
        some_of_ne_none (rebalance_left (node x left r' h)) (rebalance_left-ne-none x left r' h) in
      let before = erase_before key (regions left) (x ∷ regions right) (
        All-imp (λ z (q : z.addr < x.addr). omega arith) (regions left)
          (starts_before (regions left) x ok.left ok.before)) in
      let root = erase_before key (x ∷ []) (regions right) (b, tt) in
      (
        s.0,
        rw (e, before.1, root.1) (rw s.1),
        rw (before.0, root.0)
            (Keeps-some (node x left r' h) s.0 (rebalance_left (node x left r' h))
                (rebalance_left-Keeps (node x left r' h)) s.1
              ∙ ap (λ l. regions left ++ x ∷ l) k),
      )

-- Removing the last region of a sorted list, or the first.
erase_last :
    (xs : List Region) (m : Region) → IsSorted (xs ++ m ∷ []) → erase m.addr (xs ++ m ∷ []) ≡ xs
erase_last xs m s =
    let ok = IsSorted-Parts xs m [] s in
    (erase_before m.addr xs (m ∷ []) (starts_before xs m ok.left ok.before)).0
    ∙ ground (arith, append-nil xs)

erase_root :
    (xs : List Region) (x : Region) (ys : List Region)
    → Parts xs x ys
    → (erase x.addr (xs ++ x ∷ ys) ≡ xs ++ ys) × (item_at x.addr (xs ++ x ∷ ys) ≡ some x.value)
erase_root xs x ys ok =
    let before = erase_before x.addr xs (x ∷ ys) (starts_before xs x ok.left ok.before) in
    ground (arith, before)

-- The node that is removed is replaced by its child, or by a neighbour that is removed below.
delete_root-Deletes :
    (x : Region) (left right : AvlNode) (h : ℕ)
    → (ldel rdel : ℕ → Option (AvlNode × Option ℕ)) → ((k : ℕ) → Deletes k left (ldel k))
    → ((k : ℕ) → Deletes k right (rdel k))
    → IsSorted (regions left)
    → IsSorted (regions right)
    → (t : AvlNode) × (delete_root x left right h ldel rdel ≡ some t)
      × (regions t ≡ regions left ++ regions right)
unfolding delete_root
delete_root-Deletes x null right h ldel rdel l r sl sr = (right, refl, refl)
delete_root-Deletes x (node y yl yr yh) null h ldel rdel l r sl sr =
    (node y yl yr yh, refl, sym (append-nil (regions (node y yl yr yh))))
delete_root-Deletes x (node y yl yr yh) (node z zl zr zh) h ldel rdel l r sl sr =
    let m = avl_max y yr in
    let n = avl_min z zl in
    let (xs, ex) = max_split yl y yr in
    let (ys, ey) = min_split zl z zr in
    let (tl, el, kl) = l m.addr in
    let (tr, er, kr) = r n.addr in
    elim (Bool-cases (ltb zh yh)) [
      | inl e ↦ (
        node m tl (node z zl zr zh) h,
        rw (e, el),
        rw kl (
            ap (λ l. l ++ m ∷ regions (node z zl zr zh))
              (ap (erase m.addr) ex ∙ erase_last xs m (subst IsSorted ex sl))
            ∙ sym (append_assoc xs (m ∷ []) (regions (node z zl zr zh)))
            ∙ ap (λ l. l ++ regions (node z zl zr zh)) (sym ex)),
      )
      | inr e ↦ (
        node n (node y yl yr yh) tr h,
        rw (e, er),
        rw kr (
            ap (λ l. regions (node y yl yr yh) ++ n ∷ l)
              (ap (erase n.addr) ey
                ∙ (erase_root [] n ys (IsSorted-Parts [] n ys (subst IsSorted ey sr))).0)
            ∙ ap (λ l. regions (node y yl yr yh) ++ l) (sym ey)),
      )
    ]

-- On a tree that has its regions in order, whatever its height fields say, `avl_delete_node` does not
-- fault. It returns the item of the region at the address, and the tree that it leaves has exactly the
-- other regions, in the same order.
pub delete_node-Deletes :
    (t : AvlNode) (key : ℕ) → IsSorted (regions t) → Deletes key t (avl_delete_node t key)
unfolding avl_delete_node
delete_node-Deletes null key s = (null, refl, refl)
delete_node-Deletes (node x left right h) key s =
    let ok = IsSorted-Parts (regions left) x (regions right) s in
    let root =
      delete_root-Deletes x left right h (avl_delete_node left) (avl_delete_node right)
        (λ k. delete_node-Deletes left k ok.left) (λ k. delete_node-Deletes right k ok.right)
        ok.left ok.right in
    elim (Bool-cases (ltb key x.addr)) [
      | inl e ↦ rw e (
          Deletes-leftward key x left right h ok (avl_delete_node left key) (ltb→lt key x.addr e)
            (delete_node-Deletes left key ok.left))
      | inr e ↦ elim (Bool-cases (ltb x.addr key)) [
        | inl e₂ ↦
            rw (e, e₂)
              (Deletes-rightward key x left right h ok (avl_delete_node right key)
                (ltb→lt x.addr key e₂) (delete_node-Deletes right key ok.right))
        | inr e₂ ↦
            let same : key ≡ x.addr = ground arith in
            let (t', e₃, k) = root in
            let out = erase_root (regions left) x (regions right) ok in
            (t', rw (e, e₂, e₃, same, out.1), rw (same, out.0) k)
      ]
    ]
