-- ===== src/Helpers.antt =====
-- src/utrans/utils_helper.c: lists of strings and of patterns, and the NUMA node of a range.
pub mod Strings
mod Sorting
mod Patterns
mod Numa
mod Majority
mod Tests
