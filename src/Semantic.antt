-- ===== src/Semantic.antt =====
-- crates/orkia-semantic/src/lib.rs: change atoms of files, and merges of their tokens.
pub mod Tokens
pub mod Languages
pub mod Extraction
pub mod Dependencies
pub mod Trunks
pub mod Ranges
