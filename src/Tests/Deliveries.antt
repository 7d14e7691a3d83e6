-- ===== src/Tests/Deliveries.antt =====
-- Orders, changesets and projections at small inputs.
use boop_orkia_cli.Prelude.{
  AllRelated, ℕ, if◌then◌else◌, ◌≡◌, ◌↔◌, refl, true, false, List, [], ◌∷◌, map, nat_eq, nat_ord,
  pair_ord, is_empty,
}
use boop_orkia_cli.Prelude.Sets.{contains, insert, extend, remove, collect, IsDistinct}
use boop_orkia_cli.Prelude.Maps.{lookup, put, put_all, collect_map}
use boop_orkia_cli.Errors.{ok}
use boop_orkia_cli.ReadyLoop.{complete_ready, unless_empty, ready_loop, ready_order}
use boop_orkia_cli.ReadyLoop.Invariant.{IsOrder}
use boop_orkia_cli.ReadyLoop.Acyclic.{IsRanked}
use boop_orkia_cli.Model.Ids.{ChangeSetId, StackPullRequestId}
use boop_orkia_cli.Model.ChangeSets.{ChangeSet, stack_identity}
use boop_orkia_cli.Delivery.Orders.{
  parents_of, stack_pull_request_order, RequestKey, request_key, key_complete,
  stack_pull_request_execution_order, change_set_dependencies, changeset_execution_order,
}
use boop_orkia_cli.Delivery.Orders.Topological.{
  stack_pull_request_order-IsOrder, stack_pull_request_execution_order-IsOrder,
  changeset_execution_order-IsOrder,
}
use boop_orkia_cli.Delivery.Orders.Complete.{
  stack_pull_request_order_iff, stack_pull_request_execution_order_iff,
  changeset_execution_order_iff,
}
use boop_orkia_cli.Delivery.Groups.{change_set_from_stack_references}
use boop_orkia_cli.Delivery.Groups.Identity.{IsMade, change_set_from_stack_references_iff}
use boop_orkia_cli.Delivery.Publication.{
  projection_is_published_for, IsPublicationOf, projection_is_published_for_iff,
}
use boop_orkia_cli.Prelude.{none, some, foldl, arith}
use boop_orkia_cli.Prelude.Text.{text}
use boop_orkia_cli.Errors.{for_each}
use boop_orkia_cli.Model.Objects.{validate_hash, validate_schema_version}
use boop_orkia_cli.Model.Ids.{Bytes, from_stack_pull_requests}
use boop_orkia_cli.Model.Ids.Delimiters.{stable_bytes_injective}
use boop_orkia_cli.Model.PullRequests.{
  validate_pull_request, validate_atoms, validate_patches, validate_reference,
}
use boop_orkia_cli.Model.Stacks.{Stack}
use boop_orkia_cli.Delivery.Stacking.{
  stack, validate_stack_pull_requests, validate_member, validate_parent,
}
use boop_orkia_cli.Delivery.Stacking.WellFormed.{IsStackOf, stack-IsStackOf}
use boop_orkia_cli.Errors.{try_map}
use boop_orkia_cli.Model.Plans.{ReviewUnit}
use boop_orkia_cli.Model.Atoms.{ChangeAtom}
use boop_orkia_cli.Model.Ids.{
  from_stable_parts, stable_bytes, uuid_of_digest, from_be_bytes, to_be_bytes, as_bytes,
}
use boop_orkia_cli.Model.PullRequests.{StackPullRequest, StackPullRequestStatus}
use boop_orkia_cli.Delivery.Derivation.{
  from_review_plan, derive_unit, select_atoms, select_parents, request_id_at, request_id,
}
use boop_orkia_cli.Delivery.Derivation.Units.{AreIdentities, IsDerived, from_review_plan-AllRelated}
use boop_orkia_cli.Tests.Samples.{
  two_unit_plan, plain_request, plain_atom, first_unit, second_unit, plain_digest, two_requests,
  three_requests, two_change_sets, plain_stacks, plain_projection,
}

program : Unit {0}
unfolding lookup put put_all collect_map contains insert extend remove collect complete_ready
    unless_empty ready_loop ready_order parents_of stack_pull_request_order key_complete
    stack_pull_request_execution_order change_set_dependencies changeset_execution_order
program = tt

two_requests_order : stack_pull_request_order two_requests ≡ ok (1 ∷ 2 ∷ [])
unfolding program
two_requests_order = refl

three_requests_order :
    stack_pull_request_execution_order three_requests ≡ ok ((7, 1) ∷ (7, 2) ∷ (8, 3) ∷ [])
unfolding program
three_requests_order = refl

two_change_sets_order : changeset_execution_order two_change_sets ≡ ok (31 ∷ 30 ∷ [])
unfolding program
two_change_sets_order = refl

-- The second pull request stands on the first.
abbrev two_graph : StackPullRequestId → List StackPullRequestId
two_graph id = if nat_eq id 2 then 1 ∷ [] else []

-- The third waits for the second, of another repository.
abbrev three_graph : RequestKey → List RequestKey
three_graph (repository, id) =
    if nat_eq id 2 then (7, 1) ∷ [] else if nat_eq id 3 then (7, 2) ∷ [] else []

abbrev change_set_graph : ChangeSetId → List ChangeSetId
change_set_graph id = if nat_eq id 30 then 31 ∷ [] else []

stack_pull_request_order-IsOrder_example :
    IsOrder two_graph (map (λ p. p.id) two_requests) (1 ∷ 2 ∷ [])
stack_pull_request_order-IsOrder_example =
    stack_pull_request_order-IsOrder two_requests two_graph (1 ∷ 2 ∷ []) (refl, (refl, tt))
      two_requests_order

stack_pull_request_execution_order-IsOrder_example :
    IsOrder three_graph (map request_key three_requests) ((7, 1) ∷ (7, 2) ∷ (8, 3) ∷ [])
stack_pull_request_execution_order-IsOrder_example =
    stack_pull_request_execution_order-IsOrder three_requests three_graph
      ((7, 1) ∷ (7, 2) ∷ (8, 3) ∷ []) (refl, (refl, (refl, tt))) three_requests_order

changeset_execution_order-IsOrder_example :
    IsOrder change_set_graph (map (λ c. c.id) two_change_sets) (31 ∷ 30 ∷ [])
changeset_execution_order-IsOrder_example =
    changeset_execution_order-IsOrder two_change_sets change_set_graph (31 ∷ 30 ∷ [])
      (refl, (refl, tt)) two_change_sets_order

stack_pull_request_order_iff_example :
    ((l : List StackPullRequestId) × (stack_pull_request_order two_requests ≡ ok l))
    ↔ ((rank : StackPullRequestId → ℕ) × IsRanked two_graph (map (λ p. p.id) two_requests) rank)
stack_pull_request_order_iff_example =
    stack_pull_request_order_iff two_requests two_graph (refl, (refl, tt))

stack_pull_request_execution_order_iff_example :
    ((l : List RequestKey) × (stack_pull_request_execution_order three_requests ≡ ok l))
    ↔ ((rank : RequestKey → ℕ) × IsRanked three_graph (map request_key three_requests) rank)
stack_pull_request_execution_order_iff_example =
    stack_pull_request_execution_order_iff three_requests three_graph (refl, (refl, (refl, tt)))

changeset_execution_order_iff_example :
    ((l : List ChangeSetId) × (changeset_execution_order two_change_sets ≡ ok l))
    ↔ ((rank : ChangeSetId → ℕ) × IsRanked change_set_graph (map (λ c. c.id) two_change_sets) rank)
changeset_execution_order_iff_example =
    changeset_execution_order_iff two_change_sets change_set_graph (refl, (refl, tt))

-- Of two pull requests of one key the parents of the last count.
repeated_key_order :
    stack_pull_request_execution_order
      (plain_request 1 7 (2 ∷ []) [] ∷ plain_request 1 7 [] [] ∷ [])
    ≡ ok ((7, 1) ∷ [])
unfolding program
repeated_key_order = refl

change_set_from_stack_references_iff_example :
    ((changeset : ChangeSet) × (change_set_from_stack_references plain_digest plain_stacks
        ≡ ok changeset)
      × IsMade plain_stacks changeset)
    ↔ ((is_empty plain_stacks ≡ false) × IsDistinct (map stack_identity plain_stacks))
change_set_from_stack_references_iff_example =
    change_set_from_stack_references_iff plain_digest plain_stacks

projection_is_published_for_iff_example :
    (projection_is_published_for plain_projection 7 1 2 ≡ true)
    ↔ IsPublicationOf plain_projection 7 1 2
projection_is_published_for_iff_example = projection_is_published_for_iff plain_projection 7 1 2

checks : Unit {0}
unfolding program text stack validate_stack_pull_requests validate_member validate_parent for_each
    validate_pull_request validate_atoms validate_patches validate_reference validate_hash
    validate_schema_version
checks = tt

abbrev stack_of_two : Stack
stack_of_two = record {
  schema_version = 1;
  id = from_stack_pull_requests plain_digest (1 ∷ 2 ∷ []);
  revision = 0;
  repository = 7;
  pull_requests = 1 ∷ 2 ∷ [];
  pull_request_revisions = (1, 0) ∷ (2, 0) ∷ [];
  roots = 1 ∷ [];
  supersedes = none;
}

two_requests_stack : stack plain_digest two_requests ≡ ok stack_of_two
unfolding checks
two_requests_stack = refl

stack-IsStackOf_example : IsStackOf two_requests stack_of_two
stack-IsStackOf_example = stack-IsStackOf plain_digest two_requests stack_of_two two_requests_stack

stable_bytes_injective_example :
    (◌≡◌ {A = List Bytes} ((1 ∷ 2 ∷ []) ∷ (3 ∷ []) ∷ []) ((1 ∷ 2 ∷ []) ∷ (3 ∷ []) ∷ []))
stable_bytes_injective_example =
    stable_bytes_injective ((1 ∷ 2 ∷ []) ∷ (3 ∷ []) ∷ []) ((1 ∷ 2 ∷ []) ∷ (3 ∷ []) ∷ [])
      (omega arith, (omega arith, tt)) (omega arith, (omega arith, tt)) refl

derivation : Unit {0}
unfolding checks from_review_plan derive_unit select_atoms select_parents request_id_at request_id
    try_map from_stable_parts stable_bytes uuid_of_digest from_be_bytes to_be_bytes as_bytes
derivation = tt

-- A digest function that tells parts with different ends apart.
abbrev reversed_digest : Bytes → Bytes
reversed_digest bytes = foldl (λ seen byte. byte ∷ seen) [] bytes

abbrev request_of : ReviewUnit → StackPullRequestId
request_of unit = request_id reversed_digest two_unit_plan 3 7 (text "ab") unit

abbrev derived_request : ReviewUnit → List StackPullRequestId → ChangeAtom → StackPullRequest
derived_request unit parents atom = record {
  schema_version = 1;
  id = request_of unit;
  revision = 0;
  source_plan = some 20;
  source_plan_revision = 0;
  session = 3;
  intent = none;
  repository = 7;
  base_commit = text "ab";
  parents = parents;
  dependencies = [];
  atoms = atom ∷ [];
  patches = [];
  evidence = 5 ∷ [];
  validations = [];
  status = StackPullRequestStatus.proposed;
  supersedes = none;
}

abbrev derived_requests : List StackPullRequest
derived_requests =
    derived_request second_unit (request_of first_unit ∷ []) (plain_atom 2)
    ∷ derived_request first_unit [] (plain_atom 1)
    ∷ []

two_unit_plan_derived :
    from_review_plan reversed_digest two_unit_plan 3 7 (text "ab") ≡ ok derived_requests
unfolding derivation
two_unit_plan_derived = refl

identities_derived :
    AreIdentities reversed_digest two_unit_plan 3 7
      (text "ab")
      (λ id. request_of (if nat_eq id first_unit.id then first_unit else second_unit))
unfolding derivation
identities_derived = (refl, (refl, tt))

from_review_plan-AllRelated_example :
    AllRelated
      (IsDerived reversed_digest two_unit_plan 3 7
        (text "ab")
        (λ id. request_of (if nat_eq id first_unit.id then first_unit else second_unit)))
      two_unit_plan.units
      derived_requests
    × (validate_stack_pull_requests derived_requests ≡ ok tt)
from_review_plan-AllRelated_example =
    from_review_plan-AllRelated reversed_digest two_unit_plan 3 7 (text "ab")
      (λ id. request_of (if nat_eq id first_unit.id then first_unit else second_unit))
      derived_requests identities_derived two_unit_plan_derived
