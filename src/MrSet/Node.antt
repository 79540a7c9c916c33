-- ===== src/MrSet/Node.antt =====
-- src/utrans/utrans_mr_set.c: the nodes of the region tree and their rotations.
-- A node owns its children, so a tree is a value. `none` is a fault: a null pointer that the code
-- would dereference. Pointers to items are numbers, and 0 is NULL.
use asystem_astate.Base.{ℕ, ◌+◌, ◌%◌, ◌^◌, max, Option, none, some, ◌>>=◌}

-- What `avl_copy` copies: the key range and the item of a node.
pub record Region : Type 0 where
  pub addr : ℕ
  pub len : ℕ
  pub value : ℕ

-- `struct avl_node *`
pub data AvlNode : Type 0 where
  null : AvlNode
  node : Region → AvlNode → AvlNode → ℕ → AvlNode

-- the sum of two `uint64_t`
abbrev pub add64 : ℕ → ℕ → ℕ
add64 a b = (a + b) % 2 ^ 64

abbrev pub avl_height : AvlNode → ℕ
avl_height null = 0
avl_height (node x left right h) = h

-- A node whose height field is calculated from its children.
unfoldable pub with_height : Region → AvlNode → AvlNode → AvlNode
with_height x left right = node x left right (max (avl_height left) (avl_height right) + 1)

-- `ptree->height = max(...) + 1`
unfoldable pub update_height : AvlNode → Option AvlNode
unfolding with_height
update_height null = none
update_height (node x left right h) = some (with_height x left right)

unfoldable pub avl_ll_rotation : AvlNode → Option AvlNode
unfolding with_height
avl_ll_rotation (node x (node y yl yr yh) right h) =
    some (with_height y yl (with_height x yr right))
avl_ll_rotation _ = none

unfoldable pub avl_rr_rotation : AvlNode → Option AvlNode
unfolding with_height
avl_rr_rotation (node x left (node y yl yr yh) h) = some (with_height y (with_height x left yl) yr)
avl_rr_rotation _ = none

unfoldable pub avl_lr_rotation : AvlNode → Option AvlNode
unfolding avl_ll_rotation avl_rr_rotation
avl_lr_rotation null = none
avl_lr_rotation (node x left right h) = do
  left' ← avl_rr_rotation left
  avl_ll_rotation (node x left' right h)

unfoldable pub avl_rl_rotation : AvlNode → Option AvlNode
unfolding avl_ll_rotation avl_rr_rotation
avl_rl_rotation null = none
avl_rl_rotation (node x left right h) = do
  right' ← avl_ll_rotation right
  avl_rr_rotation (node x left right' h)
