-- ===== src/Model.antt =====
-- crates/orkia-model/src/lib.rs: the domain types and the validation of each signed document.
pub mod Ids
pub mod Json
pub mod Objects
pub mod Events
pub mod Nodes
pub mod Operations
pub mod Views
pub mod Access
pub mod Secrets
pub mod Knowledge
pub mod Atoms
pub mod Plans
pub mod Policies
pub mod PullRequests
pub mod Projections
pub mod Stacks
pub mod ChangeSets
