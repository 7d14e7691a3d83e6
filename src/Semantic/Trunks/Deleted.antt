-- ===== src/Semantic/Trunks/Deleted.antt =====
-- crates/orkia-semantic/src/lib.rs: what `delete_trunk` leaves of a Trunk.
use boop_orkia_cli.Prelude.{
  ◌≡◌, ◌≢◌, ◌↔◌, refl, Bool, pair_ord, if◌then◌else◌, AllRelated, map-AllRelated, true, false, List,
  [], ◌∷◌, map, nat_ord, list_ord,
}
use boop_orkia_cli.Prelude.Sets.{BTreeSet, insert}
use boop_orkia_cli.Model.Objects.{SemanticNodeId}
use boop_orkia_cli.Model.Nodes.{
  TrunkState, SemanticNodeState, SemanticLeaf, SemanticBranch, SemanticTrunk, validate_leaves,
  validate_branches, validate_trunk,
}
use boop_orkia_cli.Semantic.Trunks.{delete_leaf, delete_branch, delete_trunk}

validate_leaves-delete :
    (seen : BTreeSet SemanticNodeId) (leaves : List SemanticLeaf)
    → validate_leaves seen (map delete_leaf leaves) ≡ validate_leaves seen leaves
unfolding validate_leaves
validate_leaves-delete seen [] = refl
validate_leaves-delete seen (leaf ∷ leaves) =
    rw (validate_leaves-delete (insert leaf.id seen) leaves) refl

validate_branches-delete :
    (seen : BTreeSet SemanticNodeId) (branches : List SemanticBranch)
    → validate_branches seen (map delete_branch branches) ≡ validate_branches seen branches
unfolding validate_branches
validate_branches-delete seen [] = refl
validate_branches-delete seen (branch ∷ branches) =
    rw
      (
        validate_leaves-delete [] branch.leaves,
        validate_branches-delete (insert branch.id seen) branches,
      )
      refl

-- What is left of a leaf and of a branch that are deleted.
pub record IsDeletedLeaf (old new : SemanticLeaf) : Type 0 where
  pub same : new.id ≡ old.id
  pub content : new.text_hash ≡ old.text_hash
  pub gone : new.state ≡ SemanticNodeState.deleted

pub record IsTombstone (old new : SemanticBranch) : Type 0 where
  pub same : new.id ≡ old.id
  pub content : new.source_hash ≡ old.source_hash
  pub gone : new.state ≡ SemanticNodeState.deleted
  pub leaves : AllRelated IsDeletedLeaf old.leaves new.leaves

pub record IsDeletedTrunk (old new : SemanticTrunk) (still_required : Bool) : Type 0 where
  pub same : new.id ≡ old.id
  pub paths : new.paths ≡ old.paths
  pub zombie : (still_required ≡ true) ↔ (new.state ≡ TrunkState.zombie)
  pub gone : new.state ≢ TrunkState.alive
  pub branches : AllRelated IsTombstone old.branches new.branches
  pub valid : validate_trunk new ≡ validate_trunk old

pub delete_branch-IsTombstone :
    (branch : SemanticBranch) → IsTombstone branch (delete_branch branch)
delete_branch-IsTombstone branch = record {
  same = refl;
  content = refl;
  gone = refl;
  leaves =
      map-AllRelated IsDeletedLeaf delete_leaf
        (λ leaf. record { same = refl; content = refl; gone = refl }) branch.leaves;
}

-- A Trunk that is deleted has the identities, the paths, the hashes and the result of validation that it
-- had before, each branch and each leaf of it is deleted, and it is a zombie exactly when it is still
-- required, and not alive.
pub delete_trunk-IsDeletedTrunk :
    (trunk : SemanticTrunk) (still_required : Bool)
    → IsDeletedTrunk trunk (delete_trunk trunk still_required) still_required
unfolding validate_trunk delete_trunk
delete_trunk-IsDeletedTrunk trunk still_required = record {
  same = refl;
  paths = refl;
  zombie = zombie_when still_required;
  gone = not_alive still_required;
  branches = map-AllRelated IsTombstone delete_branch delete_branch-IsTombstone trunk.branches;
  valid = rw (validate_branches-delete [] trunk.branches) refl;
}
  where
    zombie_when :
        (b : Bool)
        → (b ≡ true) ↔ ((if b then TrunkState.zombie else TrunkState.deleted) ≡ TrunkState.zombie)
    zombie_when true = (λ h. refl, λ h. refl)
    zombie_when false = (λ h. cc, λ h. cc)

    not_alive :
        (b : Bool) → (if b then TrunkState.zombie else TrunkState.deleted) ≢ TrunkState.alive
    not_alive true h = cc
    not_alive false h = cc
