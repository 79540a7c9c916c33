-- ===== src/MrSet/Shape.antt =====
-- Rotations and balancing steps change the shape of a region tree, and leave its regions as they are.
use asystem_astate.Base.{
  ℕ, ◌≡◌, refl, sym, ap, ◌∙◌, Bool, true, false, Option, none, some, ◌∷◌, ◌++◌, append_assoc, ltb,
  ◌==◌, ◌+◌, if◌then◌else◌,
}
use asystem_astate.MrSet.Node.{
  AvlNode, null, node, update_height, avl_height, avl_ll_rotation, avl_rr_rotation, avl_lr_rotation,
  avl_rl_rotation,
}
use asystem_astate.MrSet.Tree.{balance_right, balance_left, rebalance_right, rebalance_left}
use asystem_astate.MrSet.Sorted.{regions}

-- Nothing is said of a fault: `none` has no regions to speak of.
abbrev pub Keeps : AvlNode → Option AvlNode → Type 0
Keeps t none = Unit
Keeps t (some t') = regions t' ≡ regions t

pub update_height-Keeps : (t : AvlNode) → Keeps t (update_height t)
unfolding update_height
update_height-Keeps null = tt
update_height-Keeps (node x l r h) = refl

pub ll_rotation-Keeps : (t : AvlNode) → Keeps t (avl_ll_rotation t)
unfolding avl_ll_rotation
ll_rotation-Keeps (node x (node y yl yr yh) r h) =
    sym (append_assoc (regions yl) (y ∷ regions yr) (x ∷ regions r))
ll_rotation-Keeps (node x null r h) = tt
ll_rotation-Keeps null = tt

pub rr_rotation-Keeps : (t : AvlNode) → Keeps t (avl_rr_rotation t)
unfolding avl_rr_rotation
rr_rotation-Keeps (node x l (node y yl yr yh) h) =
    append_assoc (regions l) (x ∷ regions yl) (y ∷ regions yr)
rr_rotation-Keeps (node x l null h) = tt
rr_rotation-Keeps null = tt

pub lr_rotation-Keeps : (t : AvlNode) → Keeps t (avl_lr_rotation t)
unfolding avl_lr_rotation
lr_rotation-Keeps (node x (node y yl (node z zl zr zh) yh) r h) =
    ll_rotation-Keeps (node x (node z (node y yl zl 0) zr 0) r h)
    ∙ ap (λ l. l ++ x ∷ regions r) (rr_rotation-Keeps (node y yl (node z zl zr zh) yh))
lr_rotation-Keeps (node x (node y yl null yh) r h) = tt
lr_rotation-Keeps (node x null r h) = tt
lr_rotation-Keeps null = tt

pub rl_rotation-Keeps : (t : AvlNode) → Keeps t (avl_rl_rotation t)
unfolding avl_rl_rotation
rl_rotation-Keeps (node x l (node y (node z zl zr zh) yr yh) h) =
    rr_rotation-Keeps (node x l (node z zl (node y zr yr 0) 0) h)
    ∙ ap (λ r. regions l ++ x ∷ r) (ll_rotation-Keeps (node y (node z zl zr zh) yr yh))
rl_rotation-Keeps (node x l (node y null yr yh) h) = tt
rl_rotation-Keeps (node x l null h) = tt
rl_rotation-Keeps null = tt

-- Balancing makes one of two rotations or none.
Keeps-selected :
    (t : AvlNode) (b c : Bool) (o p : Option AvlNode)
    → Keeps t o
    → Keeps t p
    → Keeps t (if b then (if c then o else p) else some t)
Keeps-selected t true true o p h k = h
Keeps-selected t true false o p h k = k
Keeps-selected t false c o p h k = refl

Keeps-unless : (t : AvlNode) (b : Bool) → Keeps t (if b then none else some t)
Keeps-unless t true = tt
Keeps-unless t false = refl

pub balance_right-Keeps : (key : ℕ) (t : AvlNode) → Keeps t (balance_right key t)
unfolding balance_right
balance_right-Keeps key null = tt
balance_right-Keeps key (node x l null h) =
    Keeps-unless (node x l null h) (avl_height null == avl_height l + 2)
balance_right-Keeps key (node x l (node y yl yr yh) h) =
    let t = node x l (node y yl yr yh) h in
    Keeps-selected t (yh == avl_height l + 2) (ltb y.addr key) (avl_rr_rotation t)
      (avl_rl_rotation t) (rr_rotation-Keeps t) (rl_rotation-Keeps t)

pub balance_left-Keeps : (key : ℕ) (t : AvlNode) → Keeps t (balance_left key t)
unfolding balance_left
balance_left-Keeps key null = tt
balance_left-Keeps key (node x null r h) =
    Keeps-unless (node x null r h) (avl_height null == avl_height r + 2)
balance_left-Keeps key (node x (node y yl yr yh) r h) =
    let t = node x (node y yl yr yh) r h in
    Keeps-selected t (yh == avl_height r + 2) (ltb key y.addr) (avl_ll_rotation t)
      (avl_lr_rotation t) (ll_rotation-Keeps t) (lr_rotation-Keeps t)

pub rebalance_right-Keeps : (t : AvlNode) → Keeps t (rebalance_right t)
unfolding rebalance_right
rebalance_right-Keeps null = tt
rebalance_right-Keeps (node x l null h) =
    Keeps-unless (node x l null h) (avl_height null == avl_height l + 2)
rebalance_right-Keeps (node x l (node y yl yr yh) h) =
    let t = node x l (node y yl yr yh) h in
    Keeps-selected t (yh == avl_height l + 2) (ltb (avl_height yr) (avl_height yl))
      (avl_rl_rotation t) (avl_rr_rotation t) (rl_rotation-Keeps t) (rr_rotation-Keeps t)

pub rebalance_left-Keeps : (t : AvlNode) → Keeps t (rebalance_left t)
unfolding rebalance_left
rebalance_left-Keeps null = tt
rebalance_left-Keeps (node x null r h) =
    Keeps-unless (node x null r h) (avl_height null == avl_height r + 2)
rebalance_left-Keeps (node x (node y yl yr yh) r h) =
    let t = node x (node y yl yr yh) r h in
    Keeps-selected t (yh == avl_height r + 2) (ltb (avl_height yl) (avl_height yr))
      (avl_lr_rotation t) (avl_ll_rotation t) (lr_rotation-Keeps t) (ll_rotation-Keeps t)
