-- ===== src/MrSet/Faults.antt =====
-- Where `avl_insert` dereferences a null pointer. `avl_delete_node` leaves the height fields of the
-- nodes on its path as they are, so that after removals the heights of two children may differ by
-- two before an insertion. An insertion that collides then rotates at a child that is not there.
use asystem_astate.Base.{ℕ, ◌+◌, ◌<◌, ◌≤◌, ◌≡◌, true, false, none, some, arith}
use asystem_astate.MrSet.Node.{
  Region, AvlNode, null, node, avl_height, avl_rr_rotation, avl_lr_rotation,
}
use asystem_astate.MrSet.Tree.{avl_insert, balance_left}
use asystem_astate.MrSet.Sorted.{end_of, IsRegion, IsBefore}

collides_at_child :
    (z x : Region) (l r : AvlNode) (h : ℕ)
    → IsRegion z
    → IsRegion x
    → x.addr < end_of z
    → z.addr < end_of x
    → avl_insert true (node z l r h) x false ≡ some (node z l r h, true)
unfolding avl_insert
collides_at_child z x l r h p q b c = ground arith

-- Take a root whose left child has no right child, where the height field of the left child is that
-- of the root's right child plus two, which removals leave behind. Inserting a region that overlaps
-- that child, does not start before it, and ends before the root's region then dereferences a null
-- pointer, if the regions are not empty and do not wrap.
pub colliding_insert_faults :
    (y z x : Region) (zl r : AvlNode) (zh h : ℕ)
    → IsRegion y
    → IsRegion z
    → IsRegion x
    → IsBefore x y
    → z.addr ≤ x.addr
    → x.addr < end_of z
    → zh ≡ avl_height r + 2
    → avl_insert true (node y (node z zl null zh) r h) x false ≡ none
unfolding avl_insert balance_left avl_lr_rotation avl_rr_rotation
colliding_insert_faults y z x zl r zh h p q s b c d e =
    ground (arith, collides_at_child z x zl null zh q s d)
