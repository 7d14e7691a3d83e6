-- ===== src/Model/Projections.antt =====
-- crates/orkia-model/src/lib.rs: projections of a pull request into Git and a forge.
use boop_orkia_cli.Prelude.{ℕ, Bool, true, false, ◌&&◌, ◌||◌, Option, none, some, is_empty}
use boop_orkia_cli.Prelude.Text.{Text, text}
use boop_orkia_cli.Errors.{Result, invalid, reject_if, if_some, ◌>>◌}
use boop_orkia_cli.Model.Ids.{ProjectionId, RepositoryId, StackPullRequestId}
use boop_orkia_cli.Model.Objects.{
  Hash, SemanticObjectRef, SemanticObjectKind, validate_schema_version, validate_hash,
}
use boop_orkia_cli.Model.Access.{is_none}
use boop_orkia_cli.Model.PullRequests.{validate_reference}

pub data ProjectionStatus : Type 0 where
  pending projected published blocked_conflict superseded : ProjectionStatus

pub record Projection : Type 0 where
  pub schema_version : ℕ
  pub id : ProjectionId
  pub revision : ℕ
  pub stack_pull_request : StackPullRequestId
  pub stack_pull_request_revision : ℕ
  pub repository : RepositoryId
  pub branch : Text
  pub base_branch : Text
  pub base_commit : Hash
  pub commit : Option Hash
  pub forge_pull_request : Option Text
  pub status : ProjectionStatus
  pub supersedes : Option SemanticObjectRef

-- `matches!(status, ProjectionStatus::Published)`
abbrev pub is_published : ProjectionStatus → Bool
is_published published = true
is_published _ = false

-- `matches!(status, ProjectionStatus::Projected | ProjectionStatus::Published)`
abbrev pub is_projected : ProjectionStatus → Bool
is_projected projected = true
is_projected published = true
is_projected _ = false

-- `is_none_or(str::is_empty)`
abbrev pub is_none_or_empty : Option Text → Bool
is_none_or_empty none = true
is_none_or_empty (some t) = is_empty t

-- `Projection::validate`
unfoldable pub validate_projection : Projection → Result (Unit {0})
validate_projection projection = do
  validate_schema_version projection.schema_version
  validate_hash projection.base_commit "projection base commit"
  reject_if (is_empty projection.branch || is_empty projection.base_branch)
      (invalid (text "projection branches cannot be empty"))
  if_some projection.commit (λ commit. validate_hash commit "projection commit")
  reject_if (is_projected projection.status && is_none projection.commit)
      (invalid (text "a projected projection must name its immutable Git commit"))
  reject_if (is_published projection.status && is_none_or_empty projection.forge_pull_request)
      (invalid (text "a published projection must name its forge pull request"))
  validate_reference SemanticObjectKind.projection
      "projection supersedes must reference a projection" "projection supersedes"
      projection.supersedes
