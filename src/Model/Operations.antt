-- ===== src/Model/Operations.antt =====
-- crates/orkia-model/src/lib.rs: semantic operations and the semantic state of a commit.
use boop_orkia_cli.Prelude.{
  Bool, false, not, ◌||◌, [], ◌∷◌, ◌++◌, Option, is_empty, nat_eq, nat_ord, list_ord, ◌==◌, ℕ,
}
use boop_orkia_cli.Prelude.Sets.{BTreeSet}
use boop_orkia_cli.Prelude.Maps.{BTreeMap}
use boop_orkia_cli.Prelude.Text.{Text, text, any_part}
use boop_orkia_cli.Errors.{Result, invalid, reject_if, for_each, if_some, ◌>>◌}
use boop_orkia_cli.Model.Objects.{
  Hash, SemanticNodeId, SemanticObjectRef, SemanticObjectKind, kind_eq, validate_schema_version,
  validate_hash, validate_object_ref, validate_node_id,
}
use boop_orkia_cli.Model.Nodes.{SemanticTrunk, validate_trunk}

pub data SemanticOperationAction : Type 0 where
  insert :
      (trunk : SemanticNodeId) (after : Option SemanticNodeId) (content_hash : Hash)
      → SemanticOperationAction
  delete : (target : SemanticNodeId) → SemanticOperationAction
  move : (target : SemanticNodeId) (after : Option SemanticNodeId) → SemanticOperationAction
  replace : (target : SemanticNodeId) (content_hash : Hash) → SemanticOperationAction
  resolve : (targets : BTreeSet SemanticObjectRef) (content_hash : Hash) → SemanticOperationAction

pub record SemanticOperation : Type 0 where
  pub schema_version : ℕ
  pub base_commit : Hash
  pub dependencies : BTreeSet SemanticObjectRef
  pub action : SemanticOperationAction

-- The `match &self.action` of `SemanticOperation::validate`.
unfoldable pub validate_action : SemanticOperationAction → Result (Unit {0})
validate_action (insert trunk after content_hash) = do
  validate_node_id trunk "insert trunk"
  if_some after (λ anchor. validate_node_id anchor "insert anchor")
  validate_hash content_hash "insert content hash"
validate_action (delete target) = validate_node_id target "delete target"
validate_action (move target after) = do
  validate_node_id target "move target"
  if_some after (λ anchor. validate_node_id anchor "move anchor")
validate_action (replace target content_hash) = do
  validate_node_id target "replace target"
  validate_hash content_hash "replace content hash"
validate_action (resolve targets content_hash) = do
  reject_if (is_empty targets)
      (invalid (text "a resolution must reference at least one alternative"))
  for_each (λ target. validate_object_ref target "resolution target") targets
  validate_hash content_hash "resolution content hash"

-- `SemanticOperation::validate`
unfoldable pub validate_operation : SemanticOperation → Result (Unit {0})
validate_operation operation = do
  validate_schema_version operation.schema_version
  validate_hash operation.base_commit "operation base commit"
  for_each (λ dependency. validate_object_ref dependency "operation dependency")
      operation.dependencies
  validate_action operation.action

pub record SemanticState : Type 0 where
  pub schema_version : ℕ
  pub commit : Hash
  pub parent_commits : BTreeSet Hash
  pub files : BTreeMap Text Hash
  pub operations : BTreeSet SemanticObjectRef
  pub trunks : BTreeMap SemanticNodeId SemanticTrunk

abbrev starts_with_slash : Text → Bool
starts_with_slash [] = false
starts_with_slash (c ∷ cs) = nat_eq c b'/'

-- An empty path, an absolute path, or one with a `..` part.
unfoldable pub is_invalid_path : Text → Bool
is_invalid_path path =
    is_empty path || starts_with_slash path || any_part b'/' (λ part. part == text "..") [] path

-- `SemanticState::validate`
unfoldable pub validate_state : SemanticState → Result (Unit {0})
validate_state state = do
  validate_schema_version state.schema_version
  validate_hash state.commit "state commit"
  for_each (λ parent. validate_hash parent "state parent commit") state.parent_commits
  for_each
      (λ file. do
        reject_if (is_invalid_path file.0)
            (invalid (text "invalid semantic state path: " ++ file.0))
        validate_hash file.1 "state file blob")
      state.files
  for_each
      (λ operation. do
        reject_if (not (kind_eq operation.kind SemanticObjectKind.operation))
            (invalid (text "a state closure may contain only operation objects"))
        validate_object_ref operation "state operation")
      state.operations
  for_each
      (λ entry. do
        reject_if (not (entry.0 == (entry.1).id))
            (invalid (text "semantic state trunk map key does not match trunk id"))
        validate_trunk entry.1)
      state.trunks
