-- ===== src/Model/Views.antt =====
-- crates/orkia-model/src/lib.rs: views of a branch, and the record of a merge.
use boop_orkia_cli.Prelude.{ℕ, not, ◌||◌, Option, none, some, is_empty}
use boop_orkia_cli.Prelude.Sets.{BTreeSet}
use boop_orkia_cli.Prelude.Text.{Text, text}
use boop_orkia_cli.Errors.{Result, ok, err, invalid, reject_if, for_each, if_some, ◌>>◌}
use boop_orkia_cli.Model.Objects.{
  Hash, SemanticObjectRef, SemanticObjectKind, kind_eq, validate_schema_version, validate_hash,
  validate_object_ref,
}

pub data ViewScope : Type 0 where
  draft shared : ViewScope

pub record ViewMetadata : Type 0 where
  pub schema_version : ℕ
  pub name : Text
  pub branch : Text
  pub base_commit : Hash
  pub scope : ViewScope
  pub parent : Option SemanticObjectRef
  pub visible_operations : BTreeSet SemanticObjectRef

-- `ViewMetadata::validate`
unfoldable pub validate_view : ViewMetadata → Result (Unit {0})
validate_view view = do
  validate_schema_version view.schema_version
  reject_if (is_empty view.name || is_empty view.branch)
      (invalid (text "view name and branch cannot be empty"))
  validate_hash view.base_commit "view base commit"
  if_some view.parent (λ parent. do
    validate_object_ref parent "view parent"
    reject_if (not (kind_eq parent.kind SemanticObjectKind.view))
        (invalid (text "view parent must reference a view object")))
  for_each
      (λ operation. do
        reject_if (not (kind_eq operation.kind SemanticObjectKind.operation))
            (invalid (text "a view may expose only operation objects"))
        validate_object_ref operation "view operation")
      view.visible_operations

pub data MergeOutcome : Type 0 where
  merged conflict : MergeOutcome

pub record MergeResolution : Type 0 where
  pub schema_version : ℕ
  pub base_commit : Hash
  pub left_commit : Hash
  pub right_commit : Hash
  pub result_commit : Option Hash
  pub outcome : MergeOutcome
  pub operations : BTreeSet SemanticObjectRef
  pub supersedes : Option SemanticObjectRef

-- The `match (&self.outcome, &self.result_commit)` of `MergeResolution::validate`.
unfoldable pub validate_outcome : MergeOutcome → Option Hash → Result (Unit {0})
validate_outcome merged (some result) = validate_hash result "merge result commit"
validate_outcome merged none = err (invalid (text "a successful merge must have a result commit"))
validate_outcome conflict (some result) = validate_hash result "merge result commit"
validate_outcome conflict none = ok tt

-- `MergeResolution::validate`
unfoldable pub validate_resolution : MergeResolution → Result (Unit {0})
validate_resolution resolution = do
  validate_schema_version resolution.schema_version
  validate_hash resolution.base_commit "merge base commit"
  validate_hash resolution.left_commit "merge left commit"
  validate_hash resolution.right_commit "merge right commit"
  validate_outcome resolution.outcome resolution.result_commit
  for_each
      (λ operation. do
        reject_if (not (kind_eq operation.kind SemanticObjectKind.operation))
            (invalid (text "a merge resolution may contain only operation objects"))
        validate_object_ref operation "merge operation")
      resolution.operations
  if_some resolution.supersedes (λ previous. do
    reject_if (not (kind_eq previous.kind SemanticObjectKind.resolution))
        (invalid (text "a merge resolution may supersede only another resolution"))
    validate_object_ref previous "superseded merge resolution")
