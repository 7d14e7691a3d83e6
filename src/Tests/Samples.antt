-- ===== src/Tests/Samples.antt =====
-- Small documents: two atoms and the plan over them, three pull requests of two repositories, and two
-- changesets.
use boop_orkia_cli.Prelude.{ℕ, ◌+◌, true, none, some, List, [], ◌∷◌}
use boop_orkia_cli.Prelude.Text.{Text, text}
use boop_orkia_cli.Model.Ids.{Bytes}
use boop_orkia_cli.Model.Atoms.{
  AtomKind, ChangeAtom, AtomDependency, DependencyKind, ValidationResult,
}
use boop_orkia_cli.Model.Plans.{ReviewUnit, PlanStatus, ReviewPlan}
use boop_orkia_cli.Model.PullRequests.{
  StackPullRequest, StackPullRequestDependency, StackPullRequestStatus,
}
use boop_orkia_cli.Model.ChangeSets.{ChangeSet, ChangeSetStack}
use boop_orkia_cli.Model.Projections.{Projection, ProjectionStatus}

-- A digest function that an example can compute: the bytes themselves.
abbrev pub plain_digest : Bytes → Bytes
plain_digest bytes = bytes

-- A rendering of an identity that an example can compute: one digit.
abbrev pub plain_uuid : ℕ → Text
plain_uuid uuid = (uuid + 48) ∷ []

abbrev pub plain_atom : ℕ → ChangeAtom
plain_atom id = record {
  id = id;
  kind = AtomKind.symbol;
  path = text "src/lib.rs";
  symbol = none;
  start_line = 1;
  end_line = 2;
  content_hash = text "ab";
  source_events = 5 ∷ [];
}

abbrev pub hard_dependency : AtomDependency
hard_dependency = record { from = 1; to = 2; kind = DependencyKind.hard; confidence_milli = 900 }

abbrev pub first_unit : ReviewUnit
first_unit = record {
  id = 10;
  title = text "first";
  atoms = 1 ∷ [];
  depends_on = [];
  confidence_milli = 900;
}

abbrev pub second_unit : ReviewUnit
second_unit = record {
  id = 11;
  title = text "second";
  atoms = 2 ∷ [];
  depends_on = 10 ∷ [];
  confidence_milli = 850;
}

abbrev pub two_unit_plan : ReviewPlan
two_unit_plan = record {
  schema_version = 1;
  id = 20;
  revision = 0;
  source_checkpoint = text "c0";
  policy_digest = none;
  units = second_unit ∷ first_unit ∷ [];
  atom_paths = (1, text "src/lib.rs") ∷ (2, text "src/lib.rs") ∷ [];
  atoms = plain_atom 1 ∷ plain_atom 2 ∷ [];
  coverage_milli = 1000;
  status = PlanStatus.approved;
  created_from = 5 ∷ [];
}

abbrev pub passed_check : ValidationResult
passed_check = record { command = text "cargo test"; passed = true; output = [] }

abbrev pub plain_request : ℕ → ℕ → List ℕ → List StackPullRequestDependency → StackPullRequest
plain_request id repository parents dependencies = record {
  schema_version = 1;
  id = id;
  revision = 0;
  source_plan = none;
  source_plan_revision = 0;
  session = 3;
  intent = none;
  repository = repository;
  base_commit = text "ab";
  parents = parents;
  dependencies = dependencies;
  atoms = plain_atom id ∷ [];
  patches = [];
  evidence = 5 ∷ [];
  validations = [];
  status = StackPullRequestStatus.proposed;
  supersedes = none;
}

-- The second request stands on the first, and the third, of another repository, waits for the second.
abbrev pub three_requests : List StackPullRequest
three_requests =
    plain_request 2 7 (1 ∷ []) []
    ∷ plain_request 1 7 [] []
    ∷ plain_request 3 8 [] (record { stack_pull_request = 2; repository = 7 } ∷ [])
    ∷ []

abbrev pub two_requests : List StackPullRequest
two_requests = plain_request 2 7 (1 ∷ []) [] ∷ plain_request 1 7 [] [] ∷ []

abbrev pub plain_stacks : List ChangeSetStack
plain_stacks = record { repository = 7; stack = 40; revision = 0 } ∷ []

abbrev pub plain_change_set : ℕ → List ℕ → ChangeSet
plain_change_set id depends_on = record {
  schema_version = 1;
  id = id;
  revision = 0;
  stacks = plain_stacks;
  depends_on = depends_on;
  status = StackPullRequestStatus.active;
  supersedes = none;
}

abbrev pub two_change_sets : List ChangeSet
two_change_sets = plain_change_set 30 (31 ∷ []) ∷ plain_change_set 31 [] ∷ []

abbrev pub plain_projection : Projection
plain_projection = record {
  schema_version = 1;
  id = 50;
  revision = 0;
  stack_pull_request = 1;
  stack_pull_request_revision = 2;
  repository = 7;
  branch = text "orkia/one";
  base_branch = text "main";
  base_commit = text "ab";
  commit = some (text "cd");
  forge_pull_request = some (text "https://forge/1");
  status = ProjectionStatus.published;
  supersedes = none;
}
