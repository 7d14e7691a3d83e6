-- ===== src/Projection/Branches.antt =====
-- crates/orkia-projection/src/lib.rs: the plan of the branches of a stack. How a UUID is written, with
-- and without hyphens, is a parameter.
pub mod Steps
use boop_orkia_cli.Prelude.{
  ℕ, ltb, not, Option, none, some, List, [], ◌∷◌, ◌++◌, length, is_empty, head?, nat_ord,
}
use boop_orkia_cli.Prelude.Sets.{BTreeSet, is_subset}
use boop_orkia_cli.Prelude.Maps.{BTreeMap, lookup, put}
use boop_orkia_cli.Prelude.Text.{Text, text}
use boop_orkia_cli.Errors.{
  Result, ok, invalid, not_found, policy, conflict, reject_if, ok_or, ◌>>=◌, ◌>>◌,
}
use boop_orkia_cli.Model.Ids.{StackPullRequestId}
use boop_orkia_cli.Model.PullRequests.{StackPullRequest, StackPullRequestDependency, dependency_ord}
use boop_orkia_cli.Delivery.Orders.{by_id, stack_pull_request_order}

pub record ProjectionStep : Type 0 where
  pub pull_request : StackPullRequestId
  pub branch : Text
  pub parent_branch : Text

-- `and_then(|parent| branches.get(parent).cloned()).unwrap_or_else(|| base_branch.into())`
abbrev pub branch_or : Text → Option Text → Text
branch_or base_branch none = base_branch
branch_or base_branch (some branch) = branch

abbrev pub branch_at : BTreeMap StackPullRequestId Text → Option StackPullRequestId → Option Text
branch_at branches none = none
branch_at branches (some parent) = lookup parent branches

module _ (simple hyphenated : ℕ → Text) where
  unfoldable pub branch_of : StackPullRequestId → Text
  branch_of id = text "orkia/stack-pr/" ++ simple id

  -- The checks of one pull request, and its step.
  unfoldable pub plan_request :
      BTreeSet StackPullRequestDependency
      → Text
      → BTreeMap StackPullRequestId Text
      → StackPullRequest
      → Result ProjectionStep
  plan_request published base_branch branches request = do
    reject_if (not (is_subset request.dependencies published)) (
        policy (
          text "stack pull request "
          ++ (hyphenated request.id ++ text " has unpublished cross-repository dependencies")))
    reject_if (ltb 1 (length request.parents)) (
        conflict (
          text "stack pull request "
          ++ (hyphenated request.id
              ++ text
                  " has multiple local parents; create an explicit closure pull request before projecting a Git PR")))
    ok (record {
      pull_request = request.id;
      branch = branch_of request.id;
      parent_branch = branch_or base_branch (branch_at branches (head? request.parents));
    })

  -- The loop over the order, whose identities are all in the map, so that `by_id[&id]` never panics.
  unfoldable pub plan_steps :
      List StackPullRequest
      → BTreeSet StackPullRequestDependency
      → Text
      → BTreeMap StackPullRequestId Text
      → List StackPullRequestId
      → Result (List ProjectionStep)
  plan_steps requests published base_branch branches [] = ok []
  plan_steps requests published base_branch branches (id ∷ order) = do
    request ← ok_or (lookup id (by_id requests)) (not_found (hyphenated id))
    step ← plan_request published base_branch branches request
    steps ← plan_steps requests published base_branch (put request.id step.branch branches) order
    ok (step ∷ steps)

  unfoldable pub plan_mono_repository_with_published_dependencies :
      List StackPullRequest
      → Text
      → BTreeSet StackPullRequestDependency
      → Result (List ProjectionStep)
  plan_mono_repository_with_published_dependencies requests base_branch published = do
    reject_if (is_empty base_branch) (invalid (text "projection base branch cannot be empty"))
    order ← stack_pull_request_order requests
    plan_steps requests published base_branch [] order

  unfoldable pub plan_mono_repository : List StackPullRequest → Text → Result (List ProjectionStep)
  plan_mono_repository requests base_branch =
      plan_mono_repository_with_published_dependencies requests base_branch []
