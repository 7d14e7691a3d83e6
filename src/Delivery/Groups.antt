-- ===== src/Delivery/Groups.antt =====
-- crates/orkia-changesets/src/lib.rs: the composition of changesets, and added dependencies. A
-- function that mutates its argument returns it beside the result.
pub mod Identity
use boop_orkia_cli.Prelude.{Bool, ◌||◌, none, List, [], map, is_empty, nat_eq, nat_ord}
use boop_orkia_cli.Prelude.Sets.{BTreeSet, insert, collect}
use boop_orkia_cli.Prelude.Text.{text}
use boop_orkia_cli.Prelude.{if◌then◌else◌}
use boop_orkia_cli.Errors.{Result, ok, err, invalid, reject_if, ◌>>=◌, ◌>>◌}
use boop_orkia_cli.Model.Ids.{Bytes, ChangeSetId, RepositoryId, StackPullRequestId}
use boop_orkia_cli.Model.Objects.{semantic_schema_version}
use boop_orkia_cli.Model.PullRequests.{
  StackPullRequest, StackPullRequestDependency, active, validate_pull_request, dependency_ord,
}
use boop_orkia_cli.Model.Stacks.{Stack}
use boop_orkia_cli.Model.ChangeSets.{
  ChangeSet, ChangeSetStack, change_set_stack_ord, from_stack_references, selects_twice,
  validate_change_set,
}

module _ (sha256 : Bytes → Bytes) where
  -- `change_set_from_stack_references`
  unfoldable pub change_set_from_stack_references : BTreeSet ChangeSetStack → Result ChangeSet
  change_set_from_stack_references stack_refs = do
    reject_if (is_empty stack_refs)
        (invalid (text "a changeset needs at least one repository stack"))
    reject_if (selects_twice stack_refs)
        (invalid (text "a changeset cannot select two revisions of the same stack"))
    let changeset : ChangeSet = record {
      schema_version = semantic_schema_version;
      id = from_stack_references sha256 stack_refs;
      revision = 0;
      stacks = stack_refs;
      depends_on = [];
      status = active;
      supersedes = none;
    }
    validate_change_set changeset
    ok changeset

  -- `change_set`
  unfoldable pub change_set : List Stack → Result ChangeSet
  change_set stacks = do
    reject_if (is_empty stacks) (invalid (text "a changeset needs at least one repository stack"))
    change_set_from_stack_references (
        collect (
          map (λ s. record { repository = s.repository; stack = s.id; revision = s.revision })
            stacks))

-- `add_changeset_dependency`
unfoldable pub add_changeset_dependency : ChangeSet → ChangeSetId → Result (Unit {0}) × ChangeSet
add_changeset_dependency changeset dependency =
    let extended = record changeset { depends_on = insert dependency changeset.depends_on } in
    if nat_eq dependency changeset.id
    then (err (invalid (text "a changeset cannot depend on itself")), changeset)
    else (validate_change_set extended, extended)

-- `add_stack_pull_request_dependency`
unfoldable pub add_stack_pull_request_dependency :
    StackPullRequest → StackPullRequestId → RepositoryId → Result (Unit {0}) × StackPullRequest
add_stack_pull_request_dependency request dependency_id repository =
    let dependency : StackPullRequestDependency = record {
      stack_pull_request = dependency_id;
      repository = repository;
    } in
    let extended = record request { dependencies = insert dependency request.dependencies } in
    if nat_eq dependency_id request.id || nat_eq repository request.repository
    then (
      err (
          invalid
            (text "a cross-repository dependency must name another pull request and repository")),
      request,
    )
    else (validate_pull_request extended, extended)
