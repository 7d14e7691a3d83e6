-- ===== src/Delivery/Stacking.antt =====
-- crates/orkia-changesets/src/lib.rs: the validation of a set of pull requests, and their stack.
pub mod WellFormed
use boop_orkia_cli.Prelude.{not, none, List, map, is_empty, head?, any, filter, nat_eq, nat_ord}
use boop_orkia_cli.Prelude.Sets.{collect}
use boop_orkia_cli.Prelude.Maps.{lookup, collect_map}
use boop_orkia_cli.Prelude.Text.{text}
use boop_orkia_cli.Errors.{Result, ok, invalid, integrity, reject_if, ok_or, for_each, ◌>>=◌, ◌>>◌}
use boop_orkia_cli.Model.Ids.{Bytes, StackPullRequestId, from_stack_pull_requests}
use boop_orkia_cli.Model.Objects.{semantic_schema_version}
use boop_orkia_cli.Model.PullRequests.{StackPullRequest, validate_pull_request}
use boop_orkia_cli.Model.Stacks.{Stack}
use boop_orkia_cli.Delivery.Orders.{by_id, stack_pull_request_order}

-- The checks of one parent edge.
unfoldable pub validate_parent :
    List StackPullRequest → StackPullRequest → StackPullRequestId → Result (Unit {0})
validate_parent requests request parent = do
  found ←
      ok_or (lookup parent (by_id requests))
        (integrity (text "stack omits a required local pull request parent"))
  reject_if (not (nat_eq found.repository request.repository))
      (integrity (text "cross-repository dependencies must use the explicit dependency field"))

-- The body of the loop over the pull requests.
unfoldable pub validate_member : List StackPullRequest → StackPullRequest → Result (Unit {0})
validate_member requests request = do
  validate_pull_request request
  for_each (validate_parent requests request) request.parents

-- `validate_stack_pull_requests`
unfoldable pub validate_stack_pull_requests : List StackPullRequest → Result (Unit {0})
validate_stack_pull_requests requests = do
  for_each (validate_member requests) requests
  order ← stack_pull_request_order requests
  ok tt

module _ (sha256 : Bytes → Bytes) where
  -- `stack`
  unfoldable pub stack : List StackPullRequest → Result Stack
  stack requests = do
    validate_stack_pull_requests requests
    first ← ok_or (head? requests) (invalid (text "cannot create an empty stack"))
    reject_if (any (λ p. not (nat_eq p.repository first.repository)) requests)
        (invalid (text "a stack can contain stack PRs from exactly one repository"))
    ok (record {
      schema_version = semantic_schema_version;
      id = from_stack_pull_requests sha256 (collect (map (λ p. p.id) requests));
      revision = 0;
      repository = first.repository;
      pull_requests = collect (map (λ p. p.id) requests);
      pull_request_revisions = collect_map (map (λ p. (p.id, p.revision)) requests);
      roots = collect (map (λ p. p.id) (filter (λ p. is_empty p.parents) requests));
      supersedes = none;
    })
