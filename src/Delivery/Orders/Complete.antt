-- ===== src/Delivery/Orders/Complete.antt =====
-- crates/orkia-changesets/src/lib.rs: when the three orders exist.
use boop_orkia_cli.Prelude.Sets.{contains}
use boop_orkia_cli.Delivery.Orders.Edges.{IsRanked-agree}
use boop_orkia_cli.Prelude.{ℕ, sym, true, Ord, ◌≡◌, ◌↔◌, List, map, nat_ord, pair_ord}
use boop_orkia_cli.Errors.{ok}
use boop_orkia_cli.ReadyLoop.Acyclic.{IsRanked}
use boop_orkia_cli.ReadyLoop.Outcome.{outcome_iff}
use boop_orkia_cli.Model.Ids.{ChangeSetId, StackPullRequestId}
use boop_orkia_cli.Model.PullRequests.{StackPullRequest}
use boop_orkia_cli.Model.ChangeSets.{ChangeSet}
use boop_orkia_cli.Delivery.Orders.{
  parents_of, stack_pull_request_order, RequestKey, request_key, stack_pull_request_execution_order,
  change_set_dependencies, changeset_execution_order,
}
use boop_orkia_cli.Delivery.Orders.Topological.{
  AreParents, AreEdges, AreDependencies, parents_of-eq, edges_of-eq, change_set_dependencies-eq,
  edges_of, parents_SelectsReady, edges_SelectsReady, change_set_SelectsReady,
}

-- A graph that agrees with what the loop waits for is ranked by the same ranks.
IsRanked-iff {ℓ} :
    {K : Type ℓ} ⦃o : Ord K⦄ {A : Type ℓ} (deps graph : K → List K) (ids : List K)
    → ((k : K) → contains k ids ≡ true → deps k ≡ graph k)
    → A ↔ ((rank : K → ℕ) × IsRanked deps ids rank)
    → A ↔ ((rank : K → ℕ) × IsRanked graph ids rank)
IsRanked-iff deps graph ids same h = (
  λ a. let (rank, r) = h.0 a in (rank, IsRanked-agree deps graph ids same rank r),
  λ (rank, r). h.1 (rank, IsRanked-agree graph deps ids (λ k m. sym (same k m)) rank r),
)

-- Where a graph gives each pull request of a stack its parents, the stack is ordered exactly when the
-- graph leads to its pull requests only and can be ranked, parents below their children.
pub stack_pull_request_order_iff :
    (requests : List StackPullRequest) (graph : StackPullRequestId → List StackPullRequestId)
    → AreParents requests graph
    → ((l : List StackPullRequestId) × (stack_pull_request_order requests ≡ ok l))
      ↔ ((rank : StackPullRequestId → ℕ) × IsRanked graph (map (λ p. p.id) requests) rank)
unfolding stack_pull_request_order
stack_pull_request_order_iff requests graph same =
    IsRanked-iff (parents_of requests) graph _ (parents_of-eq requests graph same) (
      outcome_iff _ _ (parents_of requests) (λ p. p.id) requests (parents_SelectsReady requests _)
        _)

-- Where a graph gives each pull request its parents in its own repository and its explicit dependencies
-- in others, the pull requests are ordered across repositories exactly when the graph leads to them only
-- and can be ranked, what is waited for below what waits.
pub stack_pull_request_execution_order_iff :
    (requests : List StackPullRequest) (graph : RequestKey → List RequestKey)
    → AreEdges requests graph
    → ((l : List RequestKey) × (stack_pull_request_execution_order requests ≡ ok l))
      ↔ ((rank : RequestKey → ℕ) × IsRanked graph (map request_key requests) rank)
unfolding stack_pull_request_execution_order
stack_pull_request_execution_order_iff requests graph same =
    IsRanked-iff (edges_of requests) graph _ (edges_of-eq requests graph same)
      (outcome_iff _ _ (edges_of requests) request_key requests (edges_SelectsReady requests _) _)

-- Where a graph gives each changeset the changesets it depends on, the changesets are ordered exactly
-- when the graph leads to them only and can be ranked, dependencies below what depends on them.
pub changeset_execution_order_iff :
    (changesets : List ChangeSet) (graph : ChangeSetId → List ChangeSetId)
    → AreDependencies changesets graph
    → ((l : List ChangeSetId) × (changeset_execution_order changesets ≡ ok l))
      ↔ ((rank : ChangeSetId → ℕ) × IsRanked graph (map (λ c. c.id) changesets) rank)
unfolding changeset_execution_order
changeset_execution_order_iff changesets graph same =
    IsRanked-iff (change_set_dependencies changesets) graph _
      (change_set_dependencies-eq changesets graph same)
      (outcome_iff _ _ (change_set_dependencies changesets) (λ c. c.id) changesets
        (change_set_SelectsReady changesets _) _)
