-- ===== src/MrSet.antt =====
-- src/utrans/utrans_mr_set.c and utrans_mr_set.h: the set of registered memory regions, a tree of
-- disjoint address ranges that is meant to be kept balanced as an AVL tree.
pub mod Node
pub mod Tree
pub mod Api
pub mod Sorted
pub mod Shape
pub mod Insert
pub mod Find
pub mod Remove
pub mod Laws
pub mod Refine
pub mod Script
pub mod Traverse
pub mod Faults
mod Tests
