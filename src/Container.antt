-- ===== src/Container.antt =====
-- What the ordered containers of immutable_container/ share: the comparator, the abstract view of a
-- container as a sorted list of entries, and the outcome of a call that may throw.
pub mod Comparator
pub mod Assoc
pub mod Outcome
pub mod Store
pub mod Blocks
pub mod Balanced
pub mod Visit
pub mod Halves
