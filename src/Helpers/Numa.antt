-- ===== src/Helpers/Numa.antt =====
-- `align_page` and `ram_numa_node_detect_rough`: the NUMA node of a range of main memory.
use Prim.Native.Nat.{bit_and}
use asystem_astate.Base.{
  ℕ, zero, suc, ◌+◌, ◌-◌, ◌*◌, ◌/◌, ◌%◌, ◌^◌, Bool, not, ◌||◌, ◌==◌, ltb, if◌then◌else◌, Option,
  none, some, List, [], ◌∷◌, ℤ, pos, negsuc,
}

-- `user_req_exec_result`, as far as the detection returns it.
pub data UserReqExecResult : Type 0 where
  ures_success : UserReqExecResult
  ures_err_inv_arg : UserReqExecResult
  ures_err_no_memory : UserReqExecResult
  ures_err_numa_oper : UserReqExecResult

-- What the system and libnuma answer: `numa_available`, the page size, whether `malloc` of a number
-- of bytes succeeds, the statuses that `numa_move_pages` writes for a list of pages (`none` if it
-- fails), and the highest node.
pub record Numa : Type 0 where
  pub available : Bool
  pub page_size : ℕ
  pub malloc : ℕ → Bool
  pub move_pages : List ℕ → Option (List ℤ)
  pub max_node : ℕ

-- `align_page`; the complement has 64 bits.
unfoldable pub align_page : ℕ → ℕ → ℕ
align_page addr page_size = bit_and addr (2 ^ 64 - 1 - (page_size - 1))

-- The `uint32_t` number of pages that a range touches.
unfoldable pub page_count : Numa → ℕ → ℕ → ℕ
page_count e addr len =
    (((addr - align_page addr e.page_size + len + e.page_size - 1) % 2 ^ 64) / e.page_size) % 2 ^ 32

-- The addresses of `n` pages from `start`.
unfoldable pub page_list : ℕ → ℕ → ℕ → List ℕ
page_list page_size zero start = []
page_list page_size (suc n) start = start ∷ page_list page_size n ((start + page_size) % 2 ^ 64)

-- Adds 1 to a `uint32_t` counter.
unfoldable pub add_page : ℕ → (ℕ → ℕ) → ℕ → ℕ
add_page node counters n = if n == node then (counters n + 1) % 2 ^ 32 else counters n

-- How the loop over the statuses ends.
pub data Counted : Type 0 where
  counted : (ℕ → ℕ) → Counted
  negative_status : Counted
  out_of_bounds : Counted

-- The loop that counts the pages on each node.
unfoldable pub count_pages : ℕ → List ℤ → (ℕ → ℕ) → Counted
count_pages max_node [] counters = counted counters
count_pages max_node (negsuc n ∷ statuses) counters = negative_status
count_pages max_node (pos n ∷ statuses) counters =
    let rest = count_pages max_node statuses (add_page n counters) in
    if ltb max_node n then out_of_bounds else rest

-- The search for the node with most pages: `remaining` nodes from `nn` on, after a node that has
-- `max_pgnum` pages.
unfoldable pub most_pages : (ℕ → ℕ) → ℕ → ℕ → ℕ → ℕ → ℕ
most_pages counters zero nn max_pgnum node = node
most_pages counters (suc remaining) nn max_pgnum node =
    let r : ℕ × ℕ = if ltb max_pgnum (counters nn) then (counters nn, nn) else (max_pgnum, node) in
    most_pages counters remaining (suc nn) r.0 r.1

-- The detection after the statuses are known: the result and what `*pret_numa` is. It is `none` if a
-- status is no node, where the code writes past its array.
unfoldable pub detect_node : ℕ → List ℤ → Option (UserReqExecResult × ℤ)
detect_node max_node statuses = elim (count_pages max_node statuses (λ n. 0)) [
  | counted counters ↦ some (ures_success, pos (most_pages counters max_node 1 (counters 0) 0))
  | negative_status ↦ some (ures_err_numa_oper, negsuc 0)
  | out_of_bounds ↦ none
]

-- `ram_numa_node_detect_rough`; `pret_numa` is `none` for a null pointer, or what it points to. The
-- answer has the value behind the pointer after the call.
unfoldable pub ram_numa_node_detect_rough :
    Numa → ℕ → ℕ → Option ℤ → Option (UserReqExecResult × Option ℤ)
ram_numa_node_detect_rough e addr len none = some (ures_err_inv_arg, none)
ram_numa_node_detect_rough e addr len (some old) =
    if (len == 0) || (addr == 0)
    then some (ures_err_inv_arg, some old)
    else if not e.available
    then some (ures_success, some (negsuc 0))
    else let page_num = page_count e addr len in
      if not (e.malloc (page_num * 8)) || not (e.malloc (page_num * 4))
      then some (ures_err_no_memory, some (negsuc 0))
      else elim (e.move_pages (page_list e.page_size page_num (align_page addr e.page_size))) [
        | none ↦ some (ures_err_numa_oper, some (negsuc 0))
        | some statuses ↦ elim (detect_node e.max_node statuses) [
          | none ↦ none
          | some r ↦ some (r.0, some r.1)
        ]
      ]
