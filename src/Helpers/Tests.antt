-- ===== src/Helpers/Tests.antt =====
-- Runs on short strings, and on a range of three pages.
use asystem_astate.Base.{
  ℕ, ◌/◌, ◌%◌, ◌⊎◌, map, pos, negsuc, Bool, true, false, ◌==◌, if◌then◌else◌, some, List, [], ◌∷◌,
  ◌≡◌, refl, arith,
}
use mathlib.Core.List.{Permᴰ}
use asystem_astate.Helpers.Strings.{
  Str, strcmp_gt, sweep, sort_strs, split_at_comma, is_empty, match_turn, match_patterns,
}
use asystem_astate.Helpers.Sorting.{IsSortedStrs, sort_strs-IsSortedStrs}
use asystem_astate.Helpers.Numa.{
  ures_success, ures_err_numa_oper, Numa, align_page, page_count, page_list, add_page, count_pages,
  most_pages, detect_node, ram_numa_node_detect_rough,
}
use asystem_astate.Helpers.Majority.{
  pages_on, some_negative, IsFirstMost, ram_numa_node_detect_rough-IsFirstMost,
}
use asystem_astate.Helpers.Patterns.{fields, some_match, match_patterns-some_match}

-- b, ab, a
abbrev three : List Str
three = (98 ∷ []) ∷ (97 ∷ 98 ∷ []) ∷ (97 ∷ []) ∷ []

sort_three : sort_strs 3 three ≡ (97 ∷ []) ∷ (97 ∷ 98 ∷ []) ∷ (98 ∷ []) ∷ []
unfolding sort_strs sweep strcmp_gt
sort_three = refl

sort_strs-IsSortedStrs_example : IsSortedStrs (sort_strs 3 three) × Permᴰ (sort_strs 3 three) three
sort_strs-IsSortedStrs_example = sort_strs-IsSortedStrs three

-- Patterns without wildcards.
abbrev equal : Str → Str → Bool
equal [] [] = true
equal (x ∷ a) (y ∷ b) = let rest = equal a b in if x == y then rest else false
equal _ _ = false

match_second : match_patterns equal (98 ∷ []) 9 (97 ∷ 44 ∷ 44 ∷ 98 ∷ []) ≡ some true
unfolding match_patterns match_turn split_at_comma is_empty
match_second = refl

match_patterns-some_match_example :
    match_patterns equal (98 ∷ []) 9 (97 ∷ 44 ∷ 44 ∷ 98 ∷ [])
    ≡ some (
        some_match
          (λ p. equal p (98 ∷ []))
          (fields (97 ∷ 44 ∷ 44 ∷ 98 ∷ [])).0
          (fields (97 ∷ 44 ∷ 44 ∷ 98 ∷ [])).1)
match_patterns-some_match_example =
    match_patterns-some_match equal (98 ∷ []) 9 (97 ∷ 44 ∷ 44 ∷ 98 ∷ []) (omega arith)

-- The pages of even number are on node 0, the others on node 1.
abbrev two_nodes : Numa
two_nodes = record {
  available = true;
  page_size = 4096;
  malloc = λ bytes. true;
  move_pages = λ pages. some (map (λ page. pos ((page / 4096) % 2)) pages);
  max_node = 1;
}

detect_three_pages :
    ram_numa_node_detect_rough two_nodes 5000 8000 (some (pos 7))
    ≡ some (ures_success, some (pos 1))
unfolding ram_numa_node_detect_rough detect_node most_pages count_pages add_page page_list
    page_count align_page
detect_three_pages = refl

-- -14 is EFAULT.
detect_fault :
    ram_numa_node_detect_rough
      (record two_nodes { move_pages = λ pages. some (pos 0 ∷ negsuc 13 ∷ pos 0 ∷ []) })
      5000
      8000
      (some (pos 7))
    ≡ some (ures_err_numa_oper, some (negsuc 0))
unfolding ram_numa_node_detect_rough detect_node most_pages count_pages add_page page_list
    page_count align_page
detect_fault = refl

ram_numa_node_detect_rough-IsFirstMost_example :
    (some_negative (pos 1 ∷ pos 0 ∷ pos 1 ∷ []) ≡ true)
      × (ram_numa_node_detect_rough two_nodes 5000 8000 (some (pos 7))
          ≡ some (ures_err_numa_oper, some (negsuc 0)))
    ⊎ ((node : ℕ) × (some_negative (pos 1 ∷ pos 0 ∷ pos 1 ∷ []) ≡ false)
        × (ram_numa_node_detect_rough two_nodes 5000 8000 (some (pos 7))
            ≡ some (ures_success, some (pos node)))
        × IsFirstMost (λ n. pages_on n (pos 1 ∷ pos 0 ∷ pos 1 ∷ [])) 2 node)
unfolding page_list page_count align_page
ram_numa_node_detect_rough-IsFirstMost_example =
    ram_numa_node_detect_rough-IsFirstMost two_nodes 5000 8000 (pos 7) (pos 1 ∷ pos 0 ∷ pos 1 ∷ [])
      (omega arith) (omega arith) refl refl refl refl refl
      (omega arith, (omega arith, (omega arith, refl)))
