-- ===== src/MrSet/Insert/Balanced.antt =====
-- A tree that is built by insertions alone is an AVL tree, and inserting into it never faults.
use asystem_astate.Base.{
  ℕ, ◌+◌, ◌<◌, ◌≤◌, ◌≡◌, refl, Option, none, some, ◌⊎◌, inl, inr, Bool-cases, ltb, ◌==◌, ==→eq,
  ==→ne, ltb→lt, ltb→le, arith, max, dec_lt,
}
use asystem_astate.MrSet.Node.{
  Region, AvlNode, null, node, avl_height, avl_rr_rotation, avl_ll_rotation, avl_rl_rotation,
  avl_lr_rotation,
}
use asystem_astate.MrSet.Tree.{balance_right, balance_left}

-- The heights of the children of a node differ by at most one.
abbrev pub Even : ℕ → ℕ → Type 0
Even m n = (m ≤ n + 1) × (n ≤ m + 1)

-- The height fields are right, and the tree is balanced.
abbrev pub IsAvl : AvlNode → Type 0
IsAvl null = Unit
IsAvl (node x l r h) =
    IsAvl l
    × IsAvl r
    × Even (avl_height l) (avl_height r)
    × (h ≡ max (avl_height l) (avl_height r) + 1)

-- A tree that has grown at address `a` is higher on that side.
abbrev pub Leans : ℕ → ℕ → ℕ → ℕ → Type 0
Leans a y m n = (a < y → m ≡ n + 1) × (y < a → n ≡ m + 1) × (y ≡ a → max m n ≡ 0)

abbrev pub Higher : ℕ → AvlNode → Type 0
Higher a null = ⊥
Higher a (node y l r h) = Leans a y.addr (avl_height l) (avl_height r)

-- The result of a balancing step, up to its own height field. `k` is the height before.
abbrev pub Balanced : ℕ → ℕ → Option AvlNode → Type 0
Balanced a k none = ⊥
Balanced a k (some null) = ⊥
Balanced a k (some (node y l r h)) =
    IsAvl l
    × IsAvl r
    × Even (avl_height l) (avl_height r)
    × ((max (avl_height l) (avl_height r) + 1 ≡ k)
        ⊎ ((max (avl_height l) (avl_height r) ≡ k) × Leans a y.addr (avl_height l) (avl_height r)))

-- The heights where a single rotation is made. `m` and `n` are those of the grandchildren: the far
-- one, on the side of the insertion, and the near one.
outer_heights :
    (o k zh m n : ℕ)
    → Even o k
    → zh ≡ max n m + 1
    → ((zh ≡ k) ⊎ ((zh ≡ k + 1) × (m ≡ n + 1)))
    → zh ≡ o + 2
    → (k ≡ o + 1) × (m ≡ o + 1) × (n ≡ o)
outer_heights o k zh m n e q (inl g) t = absurd (omega arith)
outer_heights o k zh m n e q (inr g) t = omega arith

-- The same for a double rotation, where the near grandchild is the higher one.
inner_heights :
    (o k zh m n : ℕ)
    → Even o k
    → zh ≡ max m n + 1
    → ((zh ≡ k) ⊎ ((zh ≡ k + 1) × ((m ≡ n + 1) ⊎ (max m n ≡ 0))))
    → zh ≡ o + 2
    → (k ≡ o + 1) × (m ≡ o + 1) × (n ≡ o)
inner_heights o k zh m n e q (inl g) t = absurd (omega arith)
inner_heights o k zh m n e q (inr g) t = omega arith

module _ {a z m n h k : ℕ} where
  far_right :
      ((h ≡ k) ⊎ ((h ≡ k + 1) × Leans a z m n)) → z < a → (h ≡ k) ⊎ ((h ≡ k + 1) × (n ≡ m + 1))
  far_right (inl e) b = inl e
  far_right (inr e) b = inr (e.0, e.1.1 b)

  near_right :
      ((h ≡ k) ⊎ ((h ≡ k + 1) × Leans a z m n))
      → a ≤ z
      → (h ≡ k) ⊎ ((h ≡ k + 1) × ((m ≡ n + 1) ⊎ (max m n ≡ 0)))
  near_right (inl e) b = inl e
  near_right (inr e) b = elim (dec_lt a z) [
    | yes c ↦ inr (e.0, inl (e.1.0 c))
    | no c ↦ inr (e.0, inr (e.1.2 (omega arith)))
  ]

  near_left :
      ((h ≡ k) ⊎ ((h ≡ k + 1) × Leans a z m n))
      → z ≤ a
      → (h ≡ k) ⊎ ((h ≡ k + 1) × ((n ≡ m + 1) ⊎ (max n m ≡ 0)))
  near_left (inl e) b = inl e
  near_left (inr e) b = elim (dec_lt z a) [
    | yes c ↦ inr (e.0, inl (e.1.1 c))
    | no c ↦ inr (e.0, inr (omega (arith, e.1.2 (omega arith))))
  ]

  far_left :
      ((h ≡ k) ⊎ ((h ≡ k + 1) × Leans a z m n)) → a < z → (h ≡ k) ⊎ ((h ≡ k + 1) × (m ≡ n + 1))
  far_left (inl e) b = inl e
  far_left (inr e) b = inr (e.0, e.1.0 b)

-- Without a rotation the node has grown at most on the side of the insertion.
stays_right :
    (a y o k zh : ℕ)
    → y < a
    → Even o k
    → ((zh ≡ k) ⊎ (zh ≡ k + 1))
    → (zh ≡ o + 2 → ⊥)
    → Even o zh × ((max o zh + 1 ≡ max o k + 1) ⊎ ((max o zh ≡ max o k + 1) × Leans a y o zh))
stays_right a y o k zh b e (inl g) ne = (omega arith, inl (omega arith))
stays_right a y o k zh b e (inr g) ne = elim (dec_lt o zh) [
  | yes c ↦ (
    omega arith,
    inr (omega arith, (λ q. absurd (omega arith), λ q. omega arith, λ q. absurd (omega arith))),
  )
  | no c ↦ (omega arith, inl (omega arith))
]

stays_left :
    (a y o k zh : ℕ)
    → a < y
    → Even k o
    → ((zh ≡ k) ⊎ (zh ≡ k + 1))
    → (zh ≡ o + 2 → ⊥)
    → Even zh o × ((max zh o + 1 ≡ max k o + 1) ⊎ ((max zh o ≡ max k o + 1) × Leans a y zh o))
stays_left a y o k zh b e (inl g) ne = (omega arith, inl (omega arith))
stays_left a y o k zh b e (inr g) ne = elim (dec_lt o zh) [
  | yes c ↦ (
    omega arith,
    inr (omega arith, (λ q. omega arith, λ q. absurd (omega arith), λ q. absurd (omega arith))),
  )
  | no c ↦ (omega arith, inl (omega arith))
]

grows_by {κ} : {h k : ℕ} {P : Type κ} → (h ≡ k) ⊎ ((h ≡ k + 1) × P) → (h ≡ k) ⊎ (h ≡ k + 1)
grows_by (inl e) = inl e
grows_by (inr e) = inr e.0

pub balance_right-Balanced :
    (a : ℕ) (y : Region) (l r : AvlNode) (h k : ℕ)
    → y.addr < a
    → IsAvl l
    → IsAvl r
    → Even (avl_height l) k
    → ((avl_height r ≡ k) ⊎ ((avl_height r ≡ k + 1) × Higher a r))
    → Balanced a (max (avl_height l) k + 1) (balance_right a (node y l r h))
unfolding balance_right avl_rr_rotation avl_rl_rotation
balance_right-Balanced a y l null h k b p q e g = ground arith
balance_right-Balanced a y l (node z null zr zh) h k b p q e g = ground arith
balance_right-Balanced a y l (node z (node v vl vr vh) zr zh) h k b p q e g =
    elim (Bool-cases (zh == avl_height l + 2)) [
      | inl t ↦ elim (Bool-cases (ltb z.addr a)) [
        | inl u ↦
            let f =
              outer_heights (avl_height l) k zh (avl_height zr) vh e q.3
                (far_right g (ltb→lt z.addr a u)) (==→eq zh (avl_height l + 2) t) in
            rw (t, u)
              ((p, q.0, omega (arith, f), refl), q.1, omega (arith, f), inl (omega (arith, f)))
        | inr u ↦
            let f =
              inner_heights (avl_height l) k zh vh (avl_height zr) e q.3
                (near_right g (ltb→le z.addr a u)) (==→eq zh (avl_height l + 2) t) in
            let v = q.0 in
            rw (t, u)
              (
                (p, v.0, omega (arith, f, v), refl),
                (v.1, q.1, omega (arith, f, v), refl),
                omega (arith, f, v),
                inl (omega (arith, f, v)),
              )
      ]
      | inr t ↦
          let w =
            stays_right a y.addr (avl_height l) k zh b e (grows_by g)
              (==→ne zh (avl_height l + 2) t) in
          rw t (p, q, w.0, w.1)
    ]

pub balance_left-Balanced :
    (a : ℕ) (y : Region) (l r : AvlNode) (h k : ℕ)
    → a < y.addr
    → IsAvl r
    → IsAvl l
    → Even k (avl_height r)
    → ((avl_height l ≡ k) ⊎ ((avl_height l ≡ k + 1) × Higher a l))
    → Balanced a (max k (avl_height r) + 1) (balance_left a (node y l r h))
unfolding balance_left avl_ll_rotation avl_lr_rotation
balance_left-Balanced a y null r h k b p q e g = ground arith
balance_left-Balanced a y (node z zl null zh) r h k b p q e g = ground arith
balance_left-Balanced a y (node z zl (node v vl vr vh) zh) r h k b p q e g =
    elim (Bool-cases (zh == avl_height r + 2)) [
      | inl t ↦ elim (Bool-cases (ltb a z.addr)) [
        | inl u ↦
            let f =
              outer_heights (avl_height r) k zh (avl_height zl) vh (e.1, e.0) (omega (arith, q.3))
                (far_left g (ltb→lt a z.addr u)) (==→eq zh (avl_height r + 2) t) in
            rw (t, u)
              (q.0, (q.1, p, omega (arith, f), refl), omega (arith, f), inl (omega (arith, f)))
        | inr u ↦
            let f =
              inner_heights (avl_height r) k zh vh (avl_height zl) (e.1, e.0) (omega (arith, q.3))
                (near_left g (ltb→le a z.addr u)) (==→eq zh (avl_height r + 2) t) in
            let v = q.1 in
            rw (t, u)
              (
                (q.0, v.0, omega (arith, f, v), refl),
                (v.1, p, omega (arith, f, v), refl),
                omega (arith, f, v),
                inl (omega (arith, f, v)),
              )
      ]
      | inr t ↦
          let w =
            stays_left a y.addr (avl_height r) k zh b e (grows_by g)
              (==→ne zh (avl_height r + 2) t) in
          rw t (q, p, w.0, w.1)
    ]
