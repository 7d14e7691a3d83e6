-- ===== src/Delivery/Orders/Topological.antt =====
-- crates/orkia-changesets/src/lib.rs: what the three orders return.
use boop_orkia_cli.Prelude.{
  ◌≡◌, refl, sym, ◌∙◌, ap₂, true, AllOf, ◌&&◌, Option, none, some, List, [], ◌++◌, map, all,
  nat_ord, pair_ord, all-append, all-map,
}
use boop_orkia_cli.Prelude.Sets.{BTreeSet, contains}
use boop_orkia_cli.Prelude.Maps.{lookup, collect_map}
use boop_orkia_cli.Errors.{ok}
use boop_orkia_cli.ReadyLoop.Selection.{keep_ready, keep_ready-SelectsReady}
use boop_orkia_cli.ReadyLoop.Invariant.{SelectsReady, IsOrder}
use boop_orkia_cli.ReadyLoop.Outcome.{outcome-IsOrder}
use boop_orkia_cli.Model.Ids.{ChangeSetId, StackPullRequestId}
use boop_orkia_cli.Model.PullRequests.{StackPullRequest}
use boop_orkia_cli.Model.ChangeSets.{ChangeSet}
use boop_orkia_cli.Delivery.Orders.Edges.{lookup-Waits, IsOrder-agree}
use boop_orkia_cli.Delivery.Orders.{
  parents_of, parents_complete, stack_pull_request_order, RequestKey, request_key, by_key,
  parent_key, external_key, edges_complete, key_complete, stack_pull_request_execution_order,
  change_set_dependencies, dependencies_complete, changeset_execution_order,
}

-- What a pull request waits for: its parents in its own repository, and its explicit dependencies in
-- others.
abbrev pub waits_for : StackPullRequest → List RequestKey
waits_for p =
    map (λ parent. (p.repository, parent)) p.parents
    ++ map (λ d. (d.repository, d.stack_pull_request)) p.dependencies

abbrev edges : Option StackPullRequest → List RequestKey
edges none = []
edges (some p) = waits_for p

unfoldable pub edges_of : List StackPullRequest → RequestKey → List RequestKey
unfolding lookup collect_map
edges_of requests key = edges (lookup key (by_key requests))

edges_complete-eq-all :
    (complete : BTreeSet RequestKey) (found : Option StackPullRequest)
    → edges_complete complete found ≡ all (λ d. contains d complete) (edges found)
edges_complete-eq-all complete none = refl
edges_complete-eq-all complete (some p) = sym (
    all-append _ (map (parent_key p) p.parents) (map external_key p.dependencies)
    ∙ ap₂ ◌&&◌ (all-map _ (parent_key p) p.parents) (all-map _ external_key p.dependencies))

pub parents_SelectsReady :
    (requests : List StackPullRequest) (ids : BTreeSet StackPullRequestId)
    → SelectsReady (parents_of requests) ids (keep_ready (parents_complete requests))
parents_SelectsReady requests ids = keep_ready-SelectsReady _ _ ids (λ c id. refl)

pub edges_SelectsReady :
    (requests : List StackPullRequest) (ids : BTreeSet RequestKey)
    → SelectsReady (edges_of requests) ids (keep_ready (key_complete requests))
unfolding edges_of key_complete
edges_SelectsReady requests ids =
    keep_ready-SelectsReady _ _ ids
      (λ c key. edges_complete-eq-all c (lookup key (by_key requests)))

pub change_set_SelectsReady :
    (changesets : List ChangeSet) (ids : BTreeSet ChangeSetId)
    → SelectsReady
        (change_set_dependencies changesets)
        ids
        (keep_ready (dependencies_complete changesets))
change_set_SelectsReady changesets ids = keep_ready-SelectsReady _ _ ids (λ c id. refl)

module _ (requests : List StackPullRequest) where
  abbrev pub AreParents : (StackPullRequestId → List StackPullRequestId) → Type 0
  AreParents graph = AllOf (λ p. graph p.id ≡ p.parents) requests

  abbrev pub AreEdges : (RequestKey → List RequestKey) → Type 0
  AreEdges graph = AllOf (λ p. graph (request_key p) ≡ waits_for p) requests

  pub parents_of-eq :
      (graph : StackPullRequestId → List StackPullRequestId)
      → AreParents graph
      → (k : StackPullRequestId) → contains k (map (λ p. p.id) requests) ≡ true
      → parents_of requests k ≡ graph k
  unfolding parents_of
  parents_of-eq graph h k m =
      let (p, found, waits) = lookup-Waits (λ p. p.id) (λ p. p.parents) graph requests h k m in
      rw (parents_of, found) (sym waits)

  pub edges_of-eq :
      (graph : RequestKey → List RequestKey)
      → AreEdges graph
      → (k : RequestKey) → contains k (map request_key requests) ≡ true
      → edges_of requests k ≡ graph k
  unfolding edges_of
  edges_of-eq graph h k m =
      let (p, found, waits) = lookup-Waits request_key waits_for graph requests h k m in
      rw found (sym waits)

abbrev pub AreDependencies : List ChangeSet → (ChangeSetId → List ChangeSetId) → Type 0
AreDependencies changesets graph = AllOf (λ c. graph c.id ≡ c.depends_on) changesets

pub change_set_dependencies-eq :
    (changesets : List ChangeSet) (graph : ChangeSetId → List ChangeSetId)
    → AreDependencies changesets graph
    → (k : ChangeSetId) → contains k (map (λ c. c.id) changesets) ≡ true
    → change_set_dependencies changesets k ≡ graph k
unfolding change_set_dependencies
change_set_dependencies-eq changesets graph h k m =
    let (c, found, waits) = lookup-Waits (λ c. c.id) (λ c. c.depends_on) graph changesets h k m in
    rw (change_set_dependencies, found) (sym waits)

-- The order of a stack holds each identity that is looked up once, behind the parents found there.
pub stack_pull_request_order-parents_of :
    (requests : List StackPullRequest) (l : List StackPullRequestId)
    → stack_pull_request_order requests ≡ ok l
    → IsOrder (parents_of requests) (map (λ p. p.id) requests) l
unfolding stack_pull_request_order
stack_pull_request_order-parents_of requests l h =
    outcome-IsOrder _ _ (parents_of requests) (λ p. p.id) requests (parents_SelectsReady requests _)
      _ l h

-- Where a graph gives each pull request of a stack its parents, an order of the stack holds the identity
-- of each pull request once, behind all that the graph gives it.
pub stack_pull_request_order-IsOrder :
    (requests : List StackPullRequest) (graph : StackPullRequestId → List StackPullRequestId)
    (l : List StackPullRequestId)
    → AreParents requests graph
    → stack_pull_request_order requests ≡ ok l
    → IsOrder graph (map (λ p. p.id) requests) l
stack_pull_request_order-IsOrder requests graph l same h =
    IsOrder-agree (parents_of requests) graph _ (parents_of-eq requests graph same) l
      (stack_pull_request_order-parents_of requests l h)

-- Where a graph gives each pull request its parents in its own repository and its explicit dependencies
-- in others, an order across repositories holds the key of each pull request once, behind all that the
-- graph gives it.
pub stack_pull_request_execution_order-IsOrder :
    (requests : List StackPullRequest) (graph : RequestKey → List RequestKey) (l : List RequestKey)
    → AreEdges requests graph
    → stack_pull_request_execution_order requests ≡ ok l
    → IsOrder graph (map request_key requests) l
unfolding stack_pull_request_execution_order
stack_pull_request_execution_order-IsOrder requests graph l same h =
    IsOrder-agree (edges_of requests) graph _ (edges_of-eq requests graph same) l (
      outcome-IsOrder _ _ (edges_of requests) request_key requests (edges_SelectsReady requests _) _
        l h)

-- Where a graph gives each changeset the changesets it depends on, an order of the changesets holds each
-- once, behind all that the graph gives it.
pub changeset_execution_order-IsOrder :
    (changesets : List ChangeSet) (graph : ChangeSetId → List ChangeSetId) (l : List ChangeSetId)
    → AreDependencies changesets graph
    → changeset_execution_order changesets ≡ ok l
    → IsOrder graph (map (λ c. c.id) changesets) l
unfolding changeset_execution_order
changeset_execution_order-IsOrder changesets graph l same h =
    IsOrder-agree (change_set_dependencies changesets) graph _
      (change_set_dependencies-eq changesets graph same) l
      (outcome-IsOrder _ _ (change_set_dependencies changesets) (λ c. c.id) changesets
        (change_set_SelectsReady changesets _) _ l h)
