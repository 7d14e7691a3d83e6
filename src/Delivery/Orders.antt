-- ===== src/Delivery/Orders.antt =====
-- crates/orkia-changesets/src/lib.rs: the three orders, of the pull requests of a stack, of pull
-- requests of several repositories, and of changesets.
pub mod Edges
pub mod Topological
pub mod Complete
use boop_orkia_cli.Prelude.{
  ◌≡◌, Bool, true, ◌&&◌, Option, none, some, List, [], ◌++◌, map, all, nat_ord, pair_ord,
}
use boop_orkia_cli.Prelude.Sets.{BTreeSet, contains, collect}
use boop_orkia_cli.Prelude.Maps.{BTreeMap, keys, lookup, collect_map}
use boop_orkia_cli.Prelude.Text.{text}
use boop_orkia_cli.Errors.{Result, conflict, ok_or}
use boop_orkia_cli.ReadyLoop.{ready_order}
use boop_orkia_cli.ReadyLoop.Selection.{keep_ready, keep_ready_remaining}
use boop_orkia_cli.Model.Ids.{ChangeSetId, RepositoryId, StackPullRequestId}
use boop_orkia_cli.Model.PullRequests.{StackPullRequest, StackPullRequestDependency}
use boop_orkia_cli.Model.ChangeSets.{ChangeSet}

abbrev pub by_id : List StackPullRequest → BTreeMap StackPullRequestId StackPullRequest
by_id requests = collect_map (map (λ p. (p.id, p)) requests)

-- `by_id[id].parents`. The loops index only by keys of the map.
unfoldable pub parents_of : List StackPullRequest → StackPullRequestId → BTreeSet StackPullRequestId
parents_of requests id = elim (lookup id (by_id requests)) [ none ↦ [] | some p ↦ p.parents ]

abbrev pub parents_complete :
    List StackPullRequest → BTreeSet StackPullRequestId → StackPullRequestId → Bool
parents_complete requests complete id = all (λ p. contains p complete) (parents_of requests id)

-- `stack_pull_request_order`
unfoldable pub stack_pull_request_order : List StackPullRequest → Result (List StackPullRequestId)
stack_pull_request_order requests =
    ok_or
      (ready_order (keep_ready (parents_complete requests))
        (keep_ready_remaining (parents_complete requests)) (collect (keys (by_id requests))))
      (conflict (text "stack has a dependency cycle or a missing pull request parent"))

abbrev pub RequestKey : Type 0
RequestKey = RepositoryId × StackPullRequestId

abbrev pub request_key : StackPullRequest → RequestKey
request_key p = (p.repository, p.id)

abbrev pub by_key : List StackPullRequest → BTreeMap RequestKey StackPullRequest
by_key requests = collect_map (map (λ p. (request_key p, p)) requests)

abbrev pub parent_key : StackPullRequest → StackPullRequestId → RequestKey
parent_key p parent = (p.repository, parent)

abbrev pub external_key : StackPullRequestDependency → RequestKey
external_key d = (d.repository, d.stack_pull_request)

-- The test of the closure passed to `filter`, of the pull request at a key.
abbrev pub edges_complete : BTreeSet RequestKey → Option StackPullRequest → Bool
edges_complete complete none = true
edges_complete complete (some p) =
    all (λ parent. contains (parent_key p parent) complete) p.parents
    && all (λ d. contains (external_key d) complete) p.dependencies

unfoldable pub key_complete : List StackPullRequest → BTreeSet RequestKey → RequestKey → Bool
key_complete requests complete key = edges_complete complete (lookup key (by_key requests))

-- `stack_pull_request_execution_order`
unfoldable pub stack_pull_request_execution_order : List StackPullRequest → Result (List RequestKey)
stack_pull_request_execution_order requests =
    ok_or
      (ready_order (keep_ready (key_complete requests))
        (keep_ready_remaining (key_complete requests)) (collect (keys (by_key requests))))
      (conflict (text "multi-repository changeset graph has a cycle or an unpublished dependency"))

abbrev pub by_change_set : List ChangeSet → BTreeMap ChangeSetId ChangeSet
by_change_set changesets = collect_map (map (λ c. (c.id, c)) changesets)

-- `by_id[id].depends_on`
unfoldable pub change_set_dependencies : List ChangeSet → ChangeSetId → BTreeSet ChangeSetId
change_set_dependencies changesets id = elim (lookup id (by_change_set changesets)) [
  | none ↦ []
  | some c ↦ c.depends_on
]

abbrev pub dependencies_complete : List ChangeSet → BTreeSet ChangeSetId → ChangeSetId → Bool
dependencies_complete changesets complete id =
    all (λ p. contains p complete) (change_set_dependencies changesets id)

-- `changeset_execution_order`
unfoldable pub changeset_execution_order : List ChangeSet → Result (List ChangeSetId)
changeset_execution_order changesets =
    ok_or
      (ready_order (keep_ready (dependencies_complete changesets))
        (keep_ready_remaining (dependencies_complete changesets))
        (collect (keys (by_change_set changesets))))
      (conflict (text "changeset graph has a cycle or a missing dependency"))
