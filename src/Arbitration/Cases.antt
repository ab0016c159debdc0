-- ===== src/Arbitration/Cases.antt =====
-- The life of a case file, as a relation between rows, and what follows from it.
pub mod Spec
pub mod Refine
pub mod Arbs
pub mod Actions
pub mod Invariant
pub mod Lifecycle
pub mod Claims
pub mod Approval
