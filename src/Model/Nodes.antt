-- ===== src/Model/Nodes.antt =====
-- crates/orkia-model/src/lib.rs: the Trunk, Branch and Leaf overlay of a file.
use boop_orkia_cli.Prelude.{List, [], ◌∷◌, is_empty, nat_ord, list_ord}
use boop_orkia_cli.Prelude.Sets.{BTreeSet, contains, insert}
use boop_orkia_cli.Prelude.Text.{Text, text}
use boop_orkia_cli.Errors.{Result, ok, invalid, reject_if, ◌>>◌}
use boop_orkia_cli.Model.Objects.{Hash, SemanticNodeId, validate_hash, validate_node_id}

pub data TrunkState : Type 0 where
  alive deleted zombie : TrunkState

pub data SemanticNodeState : Type 0 where
  alive deleted : SemanticNodeState

pub record SemanticLeaf : Type 0 where
  pub id : SemanticNodeId
  pub state : SemanticNodeState
  pub text_hash : Hash

pub record SemanticBranch : Type 0 where
  pub id : SemanticNodeId
  pub state : SemanticNodeState
  pub source_hash : Hash
  pub leaves : List SemanticLeaf

pub record SemanticTrunk : Type 0 where
  pub id : SemanticNodeId
  pub state : TrunkState
  pub paths : BTreeSet Text
  pub branches : List SemanticBranch

-- The inner loop of `SemanticTrunk::validate`, with the leaf identities seen so far.
unfoldable pub validate_leaves : BTreeSet SemanticNodeId → List SemanticLeaf → Result (Unit {0})
validate_leaves leaf_ids [] = ok tt
validate_leaves leaf_ids (leaf ∷ leaves) = do
  validate_node_id leaf.id "leaf id"
  validate_hash leaf.text_hash "leaf text hash"
  reject_if (contains leaf.id leaf_ids) (invalid (text "duplicate leaf identity in branch"))
  validate_leaves (insert leaf.id leaf_ids) leaves

-- The outer loop, with the branch identities seen so far.
unfoldable pub validate_branches : BTreeSet SemanticNodeId → List SemanticBranch → Result (Unit {0})
validate_branches branch_ids [] = ok tt
validate_branches branch_ids (branch ∷ branches) = do
  validate_node_id branch.id "branch id"
  validate_hash branch.source_hash "branch source hash"
  reject_if (contains branch.id branch_ids) (invalid (text "duplicate branch identity in trunk"))
  validate_leaves [] branch.leaves
  validate_branches (insert branch.id branch_ids) branches

-- `SemanticTrunk::validate`
unfoldable pub validate_trunk : SemanticTrunk → Result (Unit {0})
validate_trunk trunk = do
  validate_node_id trunk.id "trunk id"
  reject_if (is_empty trunk.paths) (invalid (text "a trunk needs an observed path"))
  validate_branches [] trunk.branches
