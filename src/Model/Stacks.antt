-- ===== src/Model/Stacks.antt =====
-- crates/orkia-model/src/lib.rs: a stack selects the pull requests of one repository.
use boop_orkia_cli.Prelude.{ℕ, not, ◌&&◌, ◌||◌, Option, is_empty, nat_ord}
use boop_orkia_cli.Prelude.Sets.{BTreeSet, collect, set_eq, is_subset}
use boop_orkia_cli.Prelude.Maps.{BTreeMap, keys}
use boop_orkia_cli.Prelude.Text.{text}
use boop_orkia_cli.Errors.{Result, invalid, reject_if, ◌>>◌}
use boop_orkia_cli.Model.Ids.{RepositoryId, StackId, StackPullRequestId}
use boop_orkia_cli.Model.Objects.{SemanticObjectRef, SemanticObjectKind, validate_schema_version}
use boop_orkia_cli.Model.PullRequests.{validate_reference}

pub record Stack : Type 0 where
  pub schema_version : ℕ
  pub id : StackId
  pub revision : ℕ
  pub repository : RepositoryId
  pub pull_requests : BTreeSet StackPullRequestId
  pub pull_request_revisions : BTreeMap StackPullRequestId ℕ
  pub roots : BTreeSet StackPullRequestId
  pub supersedes : Option SemanticObjectRef

-- `Stack::validate`
unfoldable pub validate_stack : Stack → Result (Unit {0})
validate_stack stack = do
  validate_schema_version stack.schema_version
  reject_if (is_empty stack.pull_requests || not (is_subset stack.roots stack.pull_requests))
      (invalid (text "a stack needs stack PRs and roots contained in that stack"))
  reject_if
      (not (is_empty stack.pull_request_revisions)
        && not (set_eq (collect (keys stack.pull_request_revisions)) stack.pull_requests))
      (invalid
        (text "a stack revision must select exactly one revision for every stack pull request"))
  validate_reference SemanticObjectKind.stack "stack supersedes must reference a stack"
      "stack supersedes" stack.supersedes
