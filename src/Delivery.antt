-- ===== src/Delivery.antt =====
-- crates/orkia-changesets/src/lib.rs: the domain logic of stack pull requests, stacks and changesets.
pub mod Orders
pub mod Stacking
pub mod Derivation
pub mod Groups
pub mod Publication
