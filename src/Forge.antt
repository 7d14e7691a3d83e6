-- ===== src/Forge.antt =====
-- crates/orkia-forge/src/lib.rs: the forge reviews of the units of a plan and of pull requests. How a UUID
-- is written, with and without hyphens, is a parameter.
pub mod Counts
pub mod Reviewed
pub mod Bases
use boop_orkia_cli.Prelude.{
  ℕ, zero, suc, ltb, nat_eq, Bool, true, false, Option, none, some, List, [], ◌∷◌, ◌++◌, all, map,
  filter, length, head?, is_empty, nat_ord, list_ord,
}
use boop_orkia_cli.Prelude.Sets.{BTreeSet, contains, insert, remove, collect}
use boop_orkia_cli.Prelude.Maps.{BTreeMap, keys, lookup, put, collect_map}
use boop_orkia_cli.Prelude.Text.{Text, text, decimal}
use boop_orkia_cli.Errors.{OrkiaError, Result, ok, err, invalid, conflict, reject_if, ◌>>=◌, ◌>>◌}
use boop_orkia_cli.Model.Ids.{ReviewUnitId, StackPullRequestId}
use boop_orkia_cli.Model.Plans.{ReviewUnit, ReviewPlan}
use boop_orkia_cli.Model.PullRequests.{StackPullRequest}
use boop_orkia_cli.Delivery.Orders.{by_id, parents_of}

pub record ForgeReview : Type 0 where
  pub unit : Option ReviewUnitId
  pub pull_request : Option StackPullRequestId
  pub branch : Text
  pub base : Text
  pub title : Text
  pub body : Text

-- What the loops of `projections` and `stack_pull_request_projections` differ in: what an entry waits for,
-- where the branch of a parent is looked up, the review of an entry on a base, and the errors.
pub record ForgeSource : Type 0 where
  pub waits_for : ℕ → List ℕ
  pub parent_branch : List ForgeReview → BTreeMap ℕ Text → ℕ → Option Text
  pub review : ℕ → Text → ForgeReview
  pub many_parents : ℕ → OrkiaError
  pub cycle : OrkiaError

pub record ForgeState : Type 0 where
  pub remaining : BTreeSet ℕ
  pub projected : BTreeSet ℕ
  pub branches : BTreeMap ℕ Text
  pub output : List ForgeReview

abbrev pub base_or : Text → Option Text → Text
base_or base_branch none = base_branch
base_or base_branch (some branch) = branch

abbrev pub branch_behind : ForgeSource → ForgeState → Option ℕ → Option Text
branch_behind source s none = none
branch_behind source s (some parent) = source.parent_branch s.output s.branches parent

module _ (source : ForgeSource) (base_branch : Text) where
  unfoldable pub review_on : ForgeState → ℕ → ForgeReview
  review_on s id =
      source.review id (base_or base_branch (branch_behind source s (head? (source.waits_for id))))

  unfoldable pub project_one : ForgeState → ℕ → ForgeState
  project_one s id = record {
    remaining = remove id s.remaining;
    projected = insert id s.projected;
    branches = put id (review_on s id).branch s.branches;
    output = s.output ++ review_on s id ∷ [];
  }

  -- `for id in ready { … }`
  unfoldable pub project_ready : ForgeState → List ℕ → Result ForgeState
  project_ready s [] = ok s
  project_ready s (id ∷ ids) = do
    reject_if (ltb 1 (length (source.waits_for id))) (source.many_parents id)
    project_ready (project_one s id) ids

  unfoldable pub ready_entries : ForgeState → List ℕ
  ready_entries s =
      filter (λ id. all (λ parent. contains parent s.projected) (source.waits_for id)) s.remaining

  -- `while !remaining.is_empty() { … }`. The fuel bounds the rounds, of which each removes an entry at
  -- least.
  unfoldable pub project_rounds : ℕ → ForgeState → Result (List ForgeReview)
  project_rounds zero s = ok s.output
  project_rounds (suc fuel) s = elim (is_empty s.remaining) [
    | true ↦ ok s.output
    | false ↦ elim (is_empty (ready_entries s)) [
      | true ↦ err source.cycle
      | false ↦ project_ready s (ready_entries s) >>= project_rounds fuel
    ]
  ]

  unfoldable pub project_all : BTreeSet ℕ → Result (List ForgeReview)
  project_all ids =
      project_rounds (length ids)
        (record { remaining = ids; projected = []; branches = []; output = [] })

abbrev pub units_by_id : ReviewPlan → BTreeMap ReviewUnitId ReviewUnit
units_by_id plan = collect_map (map (λ u. (u.id, u)) plan.units)

abbrev pub dependencies_of : Option ReviewUnit → List ReviewUnitId
dependencies_of none = []
dependencies_of (some u) = u.depends_on

abbrev pub title_of : Option ReviewUnit → Text
title_of none = []
title_of (some u) = u.title

abbrev pub revision_of : Option StackPullRequest → ℕ
revision_of none = 0
revision_of (some p) = p.revision

abbrev pub is_unit : ReviewUnitId → Option ReviewUnitId → Bool
is_unit id none = false
is_unit id (some u) = nat_eq u id

abbrev pub branch_found : Option ForgeReview → Option Text
branch_found none = none
branch_found (some review) = some review.branch

module _ (simple hyphenated : ℕ → Text) where
  unfoldable pub plan_source : ReviewPlan → ForgeSource
  plan_source plan = record {
    waits_for = λ id. dependencies_of (lookup id (units_by_id plan));
    parent_branch =
        λ output branches id. branch_found (head? (filter (λ r. is_unit id r.unit) output));
    review = λ id base. record {
      unit = some id;
      pull_request = none;
      branch = text "orkia/" ++ (simple plan.id ++ (text "/r" ++ simple id));
      base = base;
      title = title_of (lookup id (units_by_id plan));
      body =
          text "Orkia review unit "
          ++ (hyphenated id
              ++ (text " from signed plan "
                  ++ (hyphenated plan.id
                      ++ (text " revision " ++ (decimal plan.revision ++ text ".")))));
    };
    many_parents = λ id. conflict (
        text "review unit "
        ++ (hyphenated id
            ++ text
                " has multiple parents; create an explicit closure unit before projecting a forge review"));
    cycle = conflict (text "review plan has a dependency cycle");
  }

  unfoldable pub projections : ReviewPlan → Text → Result (List ForgeReview)
  projections plan base_branch =
      project_all (plan_source plan) base_branch (collect (keys (units_by_id plan)))

  unfoldable pub request_branch : StackPullRequestId → Text
  request_branch id = text "orkia/stack-pr/" ++ simple id

  unfoldable pub stack_source : List StackPullRequest → ForgeSource
  stack_source requests = record {
    waits_for = parents_of requests;
    parent_branch = λ output branches id. lookup id branches;
    review = λ id base. record {
      unit = none;
      pull_request = some id;
      branch = request_branch id;
      base = base;
      title = text "Orkia StackPullRequest " ++ simple id;
      body =
          text "Causal StackPullRequest "
          ++ (hyphenated id
              ++ (text " revision "
                  ++ (decimal (revision_of (lookup id (by_id requests)))
                      ++ text
                          ". This review is projected from signed captured evidence, not from a commit boundary.")));
    };
    many_parents = λ id. conflict (
        text "stack pull request "
        ++ (hyphenated id
            ++ text
                " has multiple parents; create an explicit closure pull request before publishing"));
    cycle = conflict (text "stack has a dependency cycle or a missing local pull request parent");
  }

  unfoldable pub stack_pull_request_projections :
      List StackPullRequest → Text → Result (List ForgeReview)
  stack_pull_request_projections requests base_branch = do
    reject_if (is_empty base_branch) (invalid (text "forge base branch cannot be empty"))
    project_all (stack_source requests) base_branch (collect (keys (by_id requests)))
