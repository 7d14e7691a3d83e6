-- ===== src/Lib.antt =====
-- Orkia turns the changes of an agent's session into reviewed, stacked pull requests. Its documents are
-- signed and kept in Git; before one is used its `validate` must accept it. This library models the
-- domain crates, which hold no I/O of their own.
--
-- How the parts interact. Captured changes are atoms. `plan` (crates/orkia-review) puts atoms that hard
-- dependencies join into one review unit, and orders the units by the other dependencies; a reviewer
-- corrects the plan with `apply_correction` or sets its status. `evaluate` (crates/orkia-policy) decides
-- whether a plan may be integrated. `from_review_plan` (crates/orkia-changesets) makes one pull request
-- of each unit; `stack` groups the pull requests of one repository, a changeset groups stacks, and the
-- three order functions put parents first. A projection is a pull request's branch in a forge.
-- crates/orkia-capture records what a session does, in a ledger (crates/orkia-ledger) whose events an
-- identity (crates/orkia-identity) signs. crates/orkia-semantic finds the atoms of a changed file, their
-- dependencies and the file's Trunk, and merges two revisions by tokens. crates/orkia-projection binds
-- the atoms of a pull request to patches, plans a branch for each pull request of a stack and commits
-- each on its parent's commit.
--
-- Files, and the source they model:
--   Prelude, Prelude/*     tests, lists, orders, sorted sets (BTreeSet), maps (BTreeMap) and text
--   Errors                 crates/orkia-model/src/lib.rs: OrkiaError and Result, with `?` and early returns
--   Model/*                crates/orkia-model/src/lib.rs: the documents (records), the enumerations (data)
--                          and, for each `impl SemanticDocument`, its `validate` as `validate_…`
--   Model/Plans/*          what `ReviewPlan::validate` accepts
--   ReadyLoop, ReadyLoop/* the loop over `remaining` and `complete` that crates/orkia-changesets/src/lib.rs
--                          and `ReviewPlan::validate` write out, and its invariant
--   Delivery/*             crates/orkia-changesets/src/lib.rs
--   Policy, Policy/*       crates/orkia-policy/src/lib.rs
--   Review/*               crates/orkia-review/src/lib.rs
--   Identity, Identity/*   crates/orkia-identity/src/lib.rs
--   Ledger, Ledger/*       crates/orkia-ledger/src/lib.rs
--   Projection/*           crates/orkia-projection/src/lib.rs: Alignment (align_lines), Patches (bind_patches,
--                          fragment_for_range), Applying (apply_patches), Branches (plan_mono_repository)
--                          and Restacking (restack_mono_repository)
--   Semantic/*             crates/orkia-semantic/src/lib.rs: Languages and Extraction (extract_atoms),
--                          Dependencies (infer_dependencies), Trunks (extract_trunk, delete_trunk),
--                          Ranges (changed_line_ranges) and Tokens (merge_token_text)
--   Capture, Capture/*     crates/orkia-capture/src/lib.rs
--   Forge, Forge/*         crates/orkia-forge/src/lib.rs
--   Tests/*                small documents, and each result at one of them
--
-- Conventions. An operation has the name of the function it models. A UUID is the number that its bytes
-- write, a text the list of its code points, a BTreeSet the increasing list of its members and a BTreeMap
-- that of its bindings. An integer of w bits is a natural number, with `% 2 ^ w` where the source adds to
-- it. `&mut` becomes a result beside the changed value. SHA-256, Ed25519, base64, the formatting of a
-- UUID, the parsing of a date, of JSON and of source code, the Git adapter and the execution of a command
-- are parameters.
--
-- Loops. A `for` loop is structural recursion. The loop of ReadyLoop recurses on a bound of the keys that
-- remain, which it is given a proof of and which each round keeps, so it has no case of its own for too
-- little fuel. The search of `hard_components` recurses on a bound of the atoms left: `length` of the
-- atoms is given, each atom that is taken lowers it, and at zero no atom is left.
--
-- The table of an alignment is filled row by row from the end, as its cells depend on each other, and the
-- walk over it is recursion on what is left of both sides. The search of `apply_patch` has one more than
-- the length of the content as fuel, and each occurrence takes a character of it. The outer loop of
-- `changed_line_ranges` has the lines of both texts as fuel, and each round takes one. The rounds of
-- crates/orkia-forge have as many entries as fuel, and each round that does not fail projects one at
-- least.
--
-- Not modelled: what Serde derives, random identifiers, the TOML policy format, the clocks and the lock
-- of crates/orkia-ledger, the file watcher of crates/orkia-capture; and the crates around Git, HTTP (that
-- of the forge too), PostgreSQL, the hooks of agents, the command line and the server.
pub mod Prelude
pub mod Errors
pub mod Identity
pub mod Ledger
pub mod Projection
pub mod Semantic
pub mod Capture
pub mod Forge
pub mod ReadyLoop
pub mod Model
pub mod Delivery
pub mod Policy
pub mod Review
pub mod Tests
