-- ===== src/Review.antt =====
-- crates/orkia-review/src/lib.rs: deterministic review planning from captured evidence.
pub mod Components
pub mod Planning
pub mod Corrections
