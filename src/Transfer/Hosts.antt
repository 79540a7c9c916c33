-- ===== src/Transfer/Hosts.antt =====
-- Sets of nodes, as `std::unordered_set<NodeInfo, NodeInfoHash>` keeps them.
use text.Mathlib.Text.{◌==◌ as same_text}
use text.Mathlib.TextEquality.{eq_iff}
use asystem_astate.Base.{
  suc, ◌≤◌, ◌≡◌, refl, sym, ap, subst, Bool, true, false, ◌&&◌, ◌||◌, ◌==◌, if◌then◌else◌, inl, inr,
  Bool-cases, List, [], ◌∷◌, length, arith,
}
use asystem_astate.Protocol.Nodes.{NodeInfo}

-- `NodeInfo::operator==`
unfoldable pub same_node : NodeInfo → NodeInfo → Bool
same_node a b =
    same_text a.hostname_or_ip b.hostname_or_ip
    && a.rdma_port == b.rdma_port
    && a.ctrl_flow_port == b.ctrl_flow_port

abbrev pub mem_node : NodeInfo → List NodeInfo → Bool
mem_node a [] = false
mem_node a (x ∷ xs) = same_node a x || mem_node a xs

-- `insert`, which leaves a set alone that has the node.
unfoldable pub insert_node : NodeInfo → List NodeInfo → List NodeInfo
insert_node a xs = if mem_node a xs then xs else a ∷ xs

abbrev pub IsDistinct : List NodeInfo → Type 0
IsDistinct [] = Unit {0}
IsDistinct (x ∷ xs) = (mem_node x xs ≡ false) × IsDistinct xs

abbrev pub IsIn : List NodeInfo → List NodeInfo → Type 0
IsIn xs ys = (a : NodeInfo) → mem_node a xs ≡ true → mem_node a ys ≡ true

pub same_node-eq : (a b : NodeInfo) → same_node a b ≡ true → a ≡ b
unfolding same_node
same_node-eq a b h = ground (arith, eq_iff a.hostname_or_ip b.hostname_or_ip)

pub same_node_refl : (a : NodeInfo) → same_node a a ≡ true
unfolding same_node
same_node_refl a = ground (arith, eq_iff a.hostname_or_ip a.hostname_or_ip)

pub mem-insert :
    (a b : NodeInfo) (xs : List NodeInfo)
    → mem_node a (insert_node b xs) ≡ (same_node a b || mem_node a xs)
unfolding insert_node
mem-insert a b xs = elim (Bool-cases (mem_node b xs)) [
  | inl m ↦ rw m (elim (Bool-cases (same_node a b)) [
    | inl s ↦ rw s (subst (λ c. mem_node c xs ≡ true) (sym (same_node-eq a b s)) m)
    | inr s ↦ rw s refl
  ])
  | inr m ↦ rw m refl
]

pub insert-IsDistinct :
    (a : NodeInfo) (xs : List NodeInfo) → IsDistinct xs → IsDistinct (insert_node a xs)
unfolding insert_node
insert-IsDistinct a xs d = elim (Bool-cases (mem_node a xs)) [
  | inl m ↦ rw m d
  | inr m ↦ rw m (m, d)
]

pub insert-IsIn :
    (a : NodeInfo) (xs ys : List NodeInfo)
    → mem_node a ys ≡ true
    → IsIn xs ys
    → IsIn (insert_node a xs) ys
insert-IsIn a xs ys m i b h = elim (Bool-cases (same_node b a)) [
  | inl s ↦ subst (λ c. mem_node c ys ≡ true) (sym (same_node-eq b a s)) m
  | inr s ↦ i b (ground (arith, h, s, mem-insert b a xs))
]

-- The list without the first occurrence of a node.
abbrev without : NodeInfo → List NodeInfo → List NodeInfo
without a [] = []
without a (x ∷ xs) = let rest = without a xs in if same_node a x then xs else x ∷ rest

length-without :
    (a : NodeInfo) (xs : List NodeInfo)
    → mem_node a xs ≡ true
    → length xs ≡ suc (length (without a xs))
length-without a [] m = absurd (ground (arith, m))
length-without a (x ∷ xs) m = elim (Bool-cases (same_node a x)) [
  | inl s ↦ rw s refl
  | inr s ↦ rw s (ap suc (length-without a xs (ground (arith, m, s))))
]

mem-without :
    (a b : NodeInfo) (xs : List NodeInfo)
    → same_node b a ≡ false
    → mem_node b xs ≡ true
    → mem_node b (without a xs) ≡ true
mem-without a b [] n m = m
mem-without a b (x ∷ xs) n m = elim (Bool-cases (same_node a x)) [
  | inl s ↦ rw s (ground (arith, m, subst (λ c. same_node b c ≡ false) (same_node-eq a x s) n))
  | inr s ↦ rw s (elim (Bool-cases (same_node b x)) [
    | inl t ↦ rw t refl
    | inr t ↦ ground (arith, m, t, mem-without a b xs n)
  ])
]

other :
    (x : NodeInfo) (xs : List NodeInfo)
    → mem_node x xs ≡ false
    → (a : NodeInfo) → mem_node a xs ≡ true
    → same_node a x ≡ false
other x xs m a h = elim (Bool-cases (same_node a x)) [
  | inl s ↦ absurd (ground (arith, m, subst (λ c. mem_node c xs ≡ true) (same_node-eq a x s) h))
  | inr s ↦ s
]

length-le : (xs ys : List NodeInfo) → IsDistinct xs → IsIn xs ys → length xs ≤ length ys
length-le [] ys d i = omega arith
length-le (x ∷ xs) ys (m, d) i =
    let others : IsIn xs (without x ys) =
      λ a h. mem-without x a ys (other x xs m a h) (i a (ground (arith, h))) in
    omega (
      arith,
      length-le xs (without x ys) d others,
      length-without x ys (i x (ground (arith, same_node_refl x))),
    )

insert_front :
    (a : NodeInfo) (xs ys : List NodeInfo) → mem_node a ys ≡ true → IsIn xs ys → IsIn (a ∷ xs) ys
insert_front a xs ys m i b h = elim (Bool-cases (same_node b a)) [
  | inl s ↦ subst (λ c. mem_node c ys ≡ true) (sym (same_node-eq b a s)) m
  | inr s ↦ i b (ground (arith, h, s))
]

-- A distinct list of nodes of another, as long as that one, has all of its nodes.
pub all_are-IsIn :
    (xs ys : List NodeInfo) → IsDistinct xs → IsIn xs ys → length xs ≡ length ys → IsIn ys xs
all_are-IsIn xs ys d i e a m = elim (Bool-cases (mem_node a xs)) [
  | inl h ↦ h
  | inr n ↦ absurd (omega (arith, e, length-le (a ∷ xs) ys (n, d) (insert_front a xs ys m i)))
]
