-- ===== src/MrSet/Tests.antt =====
-- Runs of the region set, and its theorems at concrete inputs.
use asystem_astate.Base.{
  ℕ, ◌+◌, ◌≡◌, refl, true, false, none, some, List, [], ◌∷◌, arith, ℤ, pos, map, length, ltb,
  if◌then◌else◌,
}
use asystem_astate.MrSet.Node.{Region, null, node, update_height, avl_lr_rotation, avl_rl_rotation}
use asystem_astate.MrSet.Tree.{
  avl_insert, avl_find, avl_scan, avl_delete_node, delete_root, balance_right, balance_left,
  rebalance_right, rebalance_left,
}
use asystem_astate.MrSet.Api.{
  MrSet, mr_set_getall, mr_set_traverse, mr_set_destroy, mr_set_init, mr_set_insert, mr_set_find,
  mr_set_remove,
}
use asystem_astate.MrSet.Sorted.{collides, insert_sorted}
use asystem_astate.MrSet.Script.{
  Call, insert, find, remove, code, item, run, call, replay, run_refines, AllClean,
}
use asystem_astate.MrSet.Refine.{
  IsValid, contents, mr_set_insert_fresh, mr_set_insert_balanced, mr_set_getall-eq,
}
use asystem_astate.MrSet.Insert.Balanced.{IsAvl}
use asystem_astate.MrSet.Traverse.{visit, visit_all, mr_set_traverse-eq-visit, destroy_lem}
use mathlib.Core.List.{Perm}
use asystem_astate.MrSet.Faults.{colliding_insert_faults}

abbrev region : ℕ → ℕ → Region
region addr len = record { addr = addr; len = len; value = addr + 1 }

-- Insertions in an order that calls for single and double rotations.
abbrev script : List Call
script =
    insert true (region 30 10)
    ∷ insert true (region 110 10)
    ∷ insert true (region 40 10)
    ∷ insert true (region 80 10)
    ∷ remove 80 10
    ∷ insert true (region 10 10)
    ∷ remove 40 10
    ∷ find 112 4
    ∷ []

abbrev after_script : MrSet
after_script = record {
  root = node (region 110 10) (node (region 30 10) (node (region 10 10) null null 1) null 2) null 3;
  size = 3;
}

-- The height fields say 2 and 0 for the children of the root, which no removal has balanced.
run-script :
    run script mr_set_init
    ≡ some (
      after_script,
      code (pos 0)
          ∷ code (pos 0)
          ∷ code (pos 0)
          ∷ code (pos 0)
          ∷ item 81
          ∷ code (pos 0)
          ∷ item 41
          ∷ item 111
          ∷ [],
    )
unfolding run call mr_set_init mr_set_insert mr_set_find mr_set_remove avl_insert avl_find
    avl_delete_node delete_root balance_right balance_left rebalance_right rebalance_left
    avl_lr_rotation avl_rl_rotation update_height
run-script = refl

-- An insertion beside these for which `malloc` fails then dereferences a null pointer.
run-script_no_memory : call (insert false (region 50 10)) after_script ≡ none
unfolding call mr_set_insert avl_insert balance_left avl_lr_rotation balance_right update_height
run-script_no_memory = refl

-- Registering a buffer that overlaps one of these then dereferences a null pointer.
run-script_faults : call (insert true (region 35 10)) after_script ≡ none
unfolding call mr_set_insert avl_insert balance_left avl_lr_rotation
run-script_faults = refl

colliding_insert_faults_example : avl_insert true after_script.root (region 35 10) false ≡ none
colliding_insert_faults_example =
    colliding_insert_faults (region 110 10) (region 30 10) (region 35 10)
      (node (region 10 10) null null 1) null 2 3 (omega arith) (omega arith) (omega arith)
      (omega arith) (omega arith) (omega arith) refl

after_script-IsValid : IsValid after_script
after_script-IsValid = record { sorted = omega arith; counted = refl }

script-AllClean : AllClean script []
script-AllClean = ground arith

run_refines_example :
    (s' : MrSet) × (run script (record { root = null; size = 0 }) ≡ some (s', (replay script []).1))
    × IsValid s'
    × (contents s' ≡ (replay script []).0)
run_refines_example =
    run_refines script (record { root = null; size = 0 }) (record { sorted = tt; counted = refl })
      script-AllClean

mr_set_insert_fresh_example :
    (s' : MrSet) × (mr_set_insert true after_script 50 10 51 ≡ some (s', pos 0))
    × IsValid s'
    × (contents s' ≡ insert_sorted (region 50 10) (contents after_script))
mr_set_insert_fresh_example =
    mr_set_insert_fresh after_script after_script-IsValid (region 50 10) (omega arith) refl

abbrev balanced : MrSet
balanced = record {
  root = node (region 40 10) (node (region 30 10) null null 1) (node (region 110 10) null null 1) 2;
  size = 3;
}

balanced-IsValid : IsValid balanced
balanced-IsValid = record { sorted = omega arith; counted = refl }

mr_set_insert_balanced_example :
    (s' : MrSet) × (mr_set_insert true balanced 35 10 36 ≡ some (s', pos 1))
    × IsValid s'
    × IsAvl s'.root
    × (collides (region 35 10) (contents balanced) ≡ true → s' ≡ balanced)
    × (collides (region 35 10) (contents balanced) ≡ false
        → contents s' ≡ insert_sorted (region 35 10) (contents balanced))
mr_set_insert_balanced_example =
    mr_set_insert_balanced balanced balanced-IsValid (region 35 10) (omega arith) (omega arith)

mr_set_getall-eq_example :
    (mr_set_getall true after_script 7 ≡ (some (11 ∷ 31 ∷ 111 ∷ []), 3))
    × (length (map (λ (x : Region). x.value) (contents after_script)) ≡ 3)
mr_set_getall-eq_example = mr_set_getall-eq after_script 7 after_script-IsValid (omega arith)

-- A callback that adds the items up and stops at the first above 20.
abbrev add_up : ℕ → ℕ → ℤ × ℕ
add_up v s = (if ltb 20 v then pos 1 else pos 0, s + v)

mr_set_traverse-eq-visit_example :
    mr_set_traverse after_script (some add_up) 0 ≡ visit add_up (avl_scan after_script.root) 0
mr_set_traverse-eq-visit_example = mr_set_traverse-eq-visit add_up after_script 0

destroy_lem_example :
    ((mr_set_destroy after_script (some add_up) 0).0
      ≡ visit_all add_up (avl_scan after_script.root) 0)
    × Perm (mr_set_destroy after_script (some add_up) 0).1 (avl_scan after_script.root)
    × ((mr_set_destroy after_script (some add_up) 0).2 ≡ mr_set_init)
destroy_lem_example = destroy_lem add_up after_script 0
