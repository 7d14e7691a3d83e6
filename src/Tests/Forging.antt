-- ===== src/Tests/Forging.antt =====
-- crates/orkia-forge/src/lib.rs at two pull requests.
use boop_orkia_cli.Prelude.{
  if◌then◌else◌, nat_eq, ℕ, ◌≡◌, refl, none, some, List, [], ◌∷◌, ◌++◌, map, nat_ord, list_ord,
}
use boop_orkia_cli.Prelude.Sets.{contains, insert, extend, collect, remove}
use boop_orkia_cli.Prelude.Maps.{lookup, put, put_all, collect_map}
use boop_orkia_cli.Prelude.Text.{Text, text, decimal, digits_from}
use boop_orkia_cli.Errors.{ok, err, conflict}
use boop_orkia_cli.Delivery.Orders.{parents_of}
use boop_orkia_cli.Forge.{
  ForgeReview, review_on, project_one, project_ready, ready_entries, project_rounds, project_all,
  request_branch, stack_source, stack_pull_request_projections,
}
use boop_orkia_cli.Forge.Bases.{AreAllReviewed, stack_pull_request_projections-AreAllReviewed}
use boop_orkia_cli.Tests.Samples.{plain_uuid, plain_request, two_requests}

program : Unit {0}
unfolding text decimal digits_from lookup put put_all collect_map contains insert extend collect
    remove parents_of review_on project_one project_ready ready_entries project_rounds project_all
    request_branch stack_source stack_pull_request_projections
program = tt

abbrev review_of : ℕ → Text → Text → Text → ForgeReview
review_of id base title body = record {
  unit = none;
  pull_request = some id;
  branch = text "orkia/stack-pr/" ++ plain_uuid id;
  base = base;
  title = title;
  body = body;
}

abbrev two_reviews : List ForgeReview
two_reviews =
    review_of 1 (text "main") (text "Orkia StackPullRequest 1") (
      text
        "Causal StackPullRequest 1 revision 0. This review is projected from signed captured evidence, not from a commit boundary.")
    ∷ review_of 2 (text "orkia/stack-pr/1") (text "Orkia StackPullRequest 2") (
        text
          "Causal StackPullRequest 2 revision 0. This review is projected from signed captured evidence, not from a commit boundary.")
    ∷ []

two_reviewed :
    stack_pull_request_projections plain_uuid plain_uuid two_requests (text "main") ≡ ok two_reviews
unfolding program
two_reviewed = refl

circle_refused :
    stack_pull_request_projections plain_uuid plain_uuid
      (plain_request 2 7 (1 ∷ []) [] ∷ [])
      (text "main")
    ≡ err (conflict (text "stack has a dependency cycle or a missing local pull request parent"))
unfolding program
circle_refused = refl

-- The second pull request stands on the first.
abbrev two_graph : ℕ → List ℕ
two_graph id = if nat_eq id 2 then 1 ∷ [] else []

stack_pull_request_projections-AreAllReviewed_example :
    AreAllReviewed plain_uuid plain_uuid two_requests
      (text "main")
      two_graph
      (map (λ p. p.id) two_requests)
      two_reviews
stack_pull_request_projections-AreAllReviewed_example =
    stack_pull_request_projections-AreAllReviewed plain_uuid plain_uuid two_requests (text "main")
      two_graph two_reviews (refl, (refl, tt)) two_reviewed
