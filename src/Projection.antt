-- ===== src/Projection.antt =====
-- crates/orkia-projection/src/lib.rs: patches of pull requests and their projection to branches.
pub mod Alignment
pub mod Patches
pub mod Applying
pub mod Branches
pub mod Restacking
