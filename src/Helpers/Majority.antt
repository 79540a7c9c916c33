-- ===== src/Helpers/Majority.antt =====
-- `ram_numa_node_detect_rough` finds the node with most pages.
use asystem_astate.Base.{
  ℕ, zero, suc, ◌+◌, ◌*◌, ◌≤◌, ◌<◌, ◌==◌, Bool, true, false, ltb, if◌then◌else◌, some, List, [],
  ◌∷◌, length, ℤ, pos, negsuc, ◌≡◌, refl, ◌⊎◌, inl, inr, arith, Bool-cases, sym, ◌∙◌, subst, ◌^◌,
  ltb→lt, ltb→le, le→ltb,
}
use asystem_astate.Helpers.Numa.{
  ures_success, ures_err_numa_oper, Numa, align_page, page_count, page_list, add_page, counted,
  negative_status, count_pages, most_pages, detect_node, ram_numa_node_detect_rough,
}

-- How many statuses are the node.
abbrev pub pages_on : ℕ → List ℤ → ℕ
pages_on node [] = 0
pages_on node (negsuc n ∷ statuses) = pages_on node statuses
pages_on node (pos n ∷ statuses) =
    if node == n then suc (pages_on node statuses) else pages_on node statuses

-- Every status that is not negative is a node.
abbrev pub AreNodes : ℕ → List ℤ → Type 0
AreNodes max_node [] = true ≡ true
AreNodes max_node (negsuc n ∷ statuses) = AreNodes max_node statuses
AreNodes max_node (pos n ∷ statuses) = (n ≤ max_node) × AreNodes max_node statuses

-- Some status is negative.
abbrev pub some_negative : List ℤ → Bool
some_negative [] = false
some_negative (negsuc n ∷ statuses) = true
some_negative (pos n ∷ statuses) = some_negative statuses

-- Below `bound`, no node has more pages than `node`, and the lower ones have fewer.
abbrev pub IsFirstMost : (ℕ → ℕ) → ℕ → ℕ → Type 0
IsFirstMost counters bound node =
    (node < bound)
    × ((other : ℕ) → other < bound → counters other ≤ counters node)
    × ((other : ℕ) → other < node → counters other < counters node)

below_suc :
    (P : ℕ → Type 0) (bound other : ℕ)
    → other < suc bound
    → (other < bound → P other)
    → P bound
    → P other
below_suc P bound other h below last = elim (Bool-cases (ltb other bound)) [
  | inl z ↦ below (omega (arith, ltb→lt other bound z))
  | inr z ↦ subst P (omega (arith, h, ltb→le other bound z)) last
]

IsFirstMost-grows :
    (counters : ℕ → ℕ) (nn node : ℕ)
    → IsFirstMost counters nn node
    → counters node < counters nn
    → IsFirstMost counters (suc nn) nn
IsFirstMost-grows counters nn node (b, all, first) l = (
  omega arith,
  λ other h.
      below_suc (λ o. counters o ≤ counters nn) nn other h (λ i. omega (arith, all other i, l))
        (omega arith),
  λ other h. omega (arith, all other h, l),
)

IsFirstMost-stays :
    (counters : ℕ → ℕ) (nn node : ℕ)
    → IsFirstMost counters nn node
    → counters nn ≤ counters node
    → IsFirstMost counters (suc nn) node
IsFirstMost-stays counters nn node (b, all, first) l = (
  omega (arith, b),
  λ other h. below_suc (λ o. counters o ≤ counters node) nn other h (all other) l,
  first,
)

most_pages-IsFirstMost :
    (counters : ℕ → ℕ) (remaining nn node : ℕ)
    → IsFirstMost counters nn node
    → IsFirstMost counters (nn + remaining) (most_pages counters remaining nn (counters node) node)
unfolding most_pages
most_pages-IsFirstMost counters zero nn node f =
    subst (λ k. IsFirstMost counters k node) (omega arith) f
most_pages-IsFirstMost counters (suc remaining) nn node f =
    subst
      (λ k. IsFirstMost counters k (most_pages counters (suc remaining) nn (counters node) node))
      {x = suc nn + remaining} (omega arith)
      (elim (Bool-cases (ltb (counters node) (counters nn))) [
        | inl z ↦ rw z (
            most_pages-IsFirstMost counters remaining (suc nn) nn
              (IsFirstMost-grows counters nn node f (ltb→lt (counters node) (counters nn) z)))
        | inr z ↦ rw z (
            most_pages-IsFirstMost counters remaining (suc nn) node
              (IsFirstMost-stays counters nn node f (ltb→le (counters node) (counters nn) z)))
      ])

add_page_adds :
    (n : ℕ) (counters : ℕ → ℕ) (node rest : ℕ)
    → counters node + suc rest < 2 ^ 32
    → (add_page n counters node + rest < 2 ^ 32)
      × ((pages : ℕ)
          → add_page n counters node + pages
            ≡ counters node + (if node == n then suc pages else pages))
unfolding add_page
add_page_adds n counters node rest h = elim (Bool-cases (node == n)) [
  | inl z ↦ rw z (omega (arith, h), λ pages. omega (arith, h))
  | inr z ↦ rw z (omega (arith, h), λ pages. refl)
]

pages_on-cons :
    (node n : ℕ) (statuses : List ℤ)
    → pages_on node (pos n ∷ statuses)
      ≡ (if node == n then suc (pages_on node statuses) else pages_on node statuses)
pages_on-cons node n statuses = refl

counted_with :
    (max_node : ℕ) (statuses : List ℤ) (counters : ℕ → ℕ)
    → AreNodes max_node statuses
    → ((node : ℕ) → counters node + length statuses < 2 ^ 32)
    → (some_negative statuses ≡ true) × (count_pages max_node statuses counters ≡ negative_status)
      ⊎ ((final : ℕ → ℕ) × (some_negative statuses ≡ false)
          × (count_pages max_node statuses counters ≡ counted final)
          × ((node : ℕ) → final node ≡ counters node + pages_on node statuses))
unfolding count_pages
counted_with max_node [] counters a h = inr (counters, refl, refl, λ node. omega arith)
counted_with max_node (negsuc n ∷ statuses) counters a h = inl (refl, refl)
counted_with max_node (pos n ∷ statuses) counters (a, nodes) h =
    rw (le→ltb max_node n a)
      (elim (counted_with max_node statuses (add_page n counters) nodes
        (λ node. (add_page_adds n counters node (length statuses) (h node)).0)) [
          | inl r ↦ inl r
          | inr (final, none_neg, e, same) ↦ inr (
            final,
            none_neg,
            e,
            λ node.
                same node
                ∙ (add_page_adds n counters node (length statuses) (h node)).1
                    (pages_on node statuses),
          )
        ])

IsFirstMost-of_same :
    (counters pages : ℕ → ℕ) (bound node : ℕ)
    → ((n : ℕ) → counters n ≡ pages n)
    → IsFirstMost counters bound node
    → IsFirstMost pages bound node
IsFirstMost-of_same counters pages bound node same (b, all, first) = (
  b,
  λ other h. omega (arith, same other, same node, all other h),
  λ other h. omega (arith, same other, same node, first other h),
)

detect_node-IsFirstMost :
    (max_node : ℕ) (statuses : List ℤ)
    → AreNodes max_node statuses
    → length statuses < 2 ^ 32
    → (some_negative statuses ≡ true)
        × (detect_node max_node statuses ≡ some (ures_err_numa_oper, negsuc 0))
      ⊎ ((node : ℕ) × (some_negative statuses ≡ false)
          × (detect_node max_node statuses ≡ some (ures_success, pos node))
          × IsFirstMost (λ n. pages_on n statuses) (suc max_node) node)
unfolding detect_node
detect_node-IsFirstMost max_node statuses nodes h =
    elim (counted_with max_node statuses (λ n. 0) nodes (λ node. omega (arith, h))) [
      | inl (neg, e) ↦ inl (neg, rw (e, detect_node) refl)
      | inr (final, none_neg, e, same) ↦ inr (
        most_pages final max_node 1 (final 0) 0,
        none_neg,
        rw (e, detect_node) refl,
        IsFirstMost-of_same final (λ n. pages_on n statuses) (suc max_node)
            (most_pages final max_node 1 (final 0) 0) (λ n. same n ∙ omega arith)
            (subst (λ k. IsFirstMost final k (most_pages final max_node 1 (final 0) 0))
              {x = 1 + max_node} (omega arith)
              (most_pages-IsFirstMost final max_node 1 0 (
                omega arith,
                λ other l.
                    below_suc (λ o. final o ≤ final 0) 0 other l (λ i. absurd (omega (arith, i)))
                      (omega arith),
                λ other l. absurd (omega (arith, l)),
              ))),
      )
    ]

nonzero : (n : ℕ) → 0 < n → (n == 0) ≡ false
nonzero n h = ground arith

page_count_bound : (e : Numa) (addr len : ℕ) → page_count e addr len < 2 ^ 32
unfolding page_count
page_count_bound e addr len = omega arith

-- If the arguments are not null, NUMA is available, memory can be allocated, and libnuma gives a
-- status for each page, of which those that are not negative are nodes, then the detection fails
-- with `URES_ERR_NUMA_OPER` and answers -1 if a status is negative, and otherwise succeeds with the
-- lowest of the nodes that have most pages.
pub ram_numa_node_detect_rough-IsFirstMost :
    (e : Numa) (addr len : ℕ) (old : ℤ) (statuses : List ℤ)
    → 0 < addr
    → 0 < len
    → e.available ≡ true
    → e.malloc (page_count e addr len * 8) ≡ true
    → e.malloc (page_count e addr len * 4) ≡ true
    → e.move_pages (page_list e.page_size (page_count e addr len) (align_page addr e.page_size))
      ≡ some statuses
    → length statuses ≡ page_count e addr len
    → AreNodes e.max_node statuses
    → (some_negative statuses ≡ true)
        × (ram_numa_node_detect_rough e addr len (some old)
            ≡ some (ures_err_numa_oper, some (negsuc 0)))
      ⊎ ((node : ℕ) × (some_negative statuses ≡ false)
          × (ram_numa_node_detect_rough e addr len (some old)
              ≡ some (ures_success, some (pos node)))
          × IsFirstMost (λ n. pages_on n statuses) (suc e.max_node) node)
unfolding ram_numa_node_detect_rough
ram_numa_node_detect_rough-IsFirstMost e addr len old statuses a l available pages status moved
      count nodes =
    rw (nonzero len l) (
      rw (nonzero addr a) (
        rw pages (
          rw status (
            rw moved (
              rw available
                (elim (detect_node-IsFirstMost e.max_node statuses nodes
                  (subst (λ k. k < 2 ^ 32) (sym count) (page_count_bound e addr len))) [
                    | inl (neg, d) ↦ inl (neg, rw d refl)
                    | inr (node, none_neg, d, f) ↦ inr (node, none_neg, rw d refl, f)
                  ]))))))
