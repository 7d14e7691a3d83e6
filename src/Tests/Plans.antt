-- ===== src/Tests/Plans.antt =====
-- Plans, their components and the policy at small inputs.
use boop_orkia_cli.Prelude.{◌≡◌, ◌≤◌, ◌↔◌, arith, List, [], ◌∷◌, nat_ord}
use boop_orkia_cli.Prelude.Text.{text}
use boop_orkia_cli.Errors.{Result, ok}
use boop_orkia_cli.Model.Plans.{validate_plan}
use boop_orkia_cli.Model.Plans.WellFormed.{IsWellFormed, validate_plan_iff}
use boop_orkia_cli.Model.Policies.{RepositoryPolicy, default_policy}
use boop_orkia_cli.Model.Atoms.{ValidationResult}
use boop_orkia_cli.Review.Components.{hard_components, confidence}
use boop_orkia_cli.Review.Components.Hard.{AreHardComponents, hard_components-AreHardComponents}
use boop_orkia_cli.Review.Components.Confidence.{confidence-le}
use boop_orkia_cli.Policy.{evaluate, run_and_evaluate}
use boop_orkia_cli.Policy.Decision.{IsAdmitted, evaluate_iff, run_and_evaluate_iff}
use boop_orkia_cli.Prelude.{ℕ, ◌+◌, none, refl, if◌then◌else◌}
use boop_orkia_cli.Prelude.Text.{Text, utf8, decimal, digits_from}
use boop_orkia_cli.Prelude.Sets.{contains, insert, extend, remove, collect, set_eq}
use boop_orkia_cli.Model.Plans.{ReviewUnit, ReviewPlan, PlanStatus, atom_ids}
use boop_orkia_cli.Model.Plans.Partition.{assigned_atoms}
use boop_orkia_cli.Model.Ids.{from_be_bytes}
use boop_orkia_cli.Model.PullRequests.{validate_pull_request}
use boop_orkia_cli.Model.PullRequests.Closure.{IsClosed, validate_pull_request_iff}
use boop_orkia_cli.Review.Planning.{
  PlanningInput, plan, sort_units, place_unit, join_bar, deterministic_unit,
}
use boop_orkia_cli.Review.Planning.Coverage.{occurrences, plan-occurrences}
use boop_orkia_cli.Review.Corrections.{
  ReviewerCorrection, apply_correction, corrected_units, split_unit, take_unit, group_units,
  redirect_split,
}
use boop_orkia_cli.Review.Corrections.Coverage.{IsRevision, apply_correction-IsRevision}
use boop_orkia_cli.Prelude.{Bool, true, false}
use boop_orkia_cli.Errors.{err, for_each}
use boop_orkia_cli.Model.Plans.{
  validate_manifest, assign_units, assign_atoms, collect_unit_ids, ready_units,
  validate_dependency_closure,
}
use boop_orkia_cli.ReadyLoop.{ready_order, ready_loop, unless_empty, complete_ready}
use boop_orkia_cli.Model.Objects.{validate_hash, validate_schema_version}
use boop_orkia_cli.Tests.Samples.{
  plain_digest, plain_uuid, first_unit, plain_request, plain_atom, hard_dependency, two_unit_plan,
  passed_check,
}

validate_plan_iff_example : (validate_plan two_unit_plan ≡ ok tt) ↔ IsWellFormed two_unit_plan
validate_plan_iff_example = validate_plan_iff two_unit_plan

hard_components-AreHardComponents_example :
    AreHardComponents
      (plain_atom 1 ∷ plain_atom 2 ∷ plain_atom 3 ∷ [])
      (hard_dependency ∷ [])
      (hard_components (plain_atom 1 ∷ plain_atom 2 ∷ plain_atom 3 ∷ []) (hard_dependency ∷ []))
hard_components-AreHardComponents_example =
    hard_components-AreHardComponents (plain_atom 1 ∷ plain_atom 2 ∷ plain_atom 3 ∷ [])
      (hard_dependency ∷ [])

confidence-le_example : confidence (hard_dependency ∷ []) 2 ≤ 1000
confidence-le_example = confidence-le (hard_dependency ∷ []) 2 (omega arith, tt) (omega arith)

evaluate_iff_example :
    (evaluate default_policy two_unit_plan (passed_check ∷ []) 1 (text "main") ≡ ok tt)
    ↔ IsAdmitted default_policy two_unit_plan (passed_check ∷ []) 1 (text "main")
evaluate_iff_example = evaluate_iff default_policy two_unit_plan (passed_check ∷ []) 1 (text "main")

abbrev one_check : RepositoryPolicy → Result (List ValidationResult)
one_check rules = ok (passed_check ∷ [])

run_and_evaluate_iff_example :
    (run_and_evaluate one_check default_policy two_unit_plan 1 (text "main")
      ≡ ok (passed_check ∷ []))
    ↔ ((one_check default_policy ≡ ok (passed_check ∷ []))
        × IsAdmitted default_policy two_unit_plan (passed_check ∷ []) 1 (text "main"))
run_and_evaluate_iff_example =
    run_and_evaluate_iff one_check default_policy two_unit_plan 1 (text "main") (passed_check ∷ [])

abbrev sample_input : PlanningInput
sample_input = record {
  checkpoint = text "c0";
  policy_digest = none;
  atoms = plain_atom 1 ∷ plain_atom 2 ∷ plain_atom 3 ∷ [];
  dependencies = hard_dependency ∷ [];
  coverage_milli = 1000;
  minimum_coverage_milli = 950;
  minimum_confidence_milli = 800;
  source_events = 5 ∷ [];
}

plan-occurrences_example :
    occurrences 3 (assigned_atoms (plan plain_digest plain_uuid sample_input).units)
    ≡ (if contains 3 (atom_ids sample_input.atoms) then 1 else 0)
plan-occurrences_example = plan-occurrences plain_digest plain_uuid sample_input 3

program : Unit {0}
unfolding apply_correction corrected_units split_unit take_unit group_units redirect_split
    deterministic_unit join_bar utf8 text decimal digits_from set_eq collect extend insert remove
    contains sort_units place_unit from_be_bytes
program = tt

-- The correction that splits the unit of two atoms.
abbrev one_unit : ReviewUnit
one_unit = record first_unit { atoms = 1 ∷ 2 ∷ [] }

abbrev one_unit_plan_of_two : ReviewPlan
one_unit_plan_of_two = record two_unit_plan { units = one_unit ∷ [] }

abbrev split_it : ReviewerCorrection
split_it = ReviewerCorrection.split 10 ((1 ∷ []) ∷ (2 ∷ []) ∷ []) (text "two concerns")

abbrev split_off : ℕ → Text → ReviewUnit
split_off atom title = record {
  id = atom + 48;
  title = title;
  atoms = atom ∷ [];
  depends_on = [];
  confidence_milli = 900;
}

abbrev split_plan_of_two : ReviewPlan
split_plan_of_two = record two_unit_plan {
  revision = 1;
  status = PlanStatus.proposed;
  units = split_off 1 (text "first (1)") ∷ split_off 2 (text "first (2)") ∷ [];
}

split_it_runs :
    apply_correction plain_digest plain_uuid one_unit_plan_of_two split_it ≡ ok split_plan_of_two
unfolding program
split_it_runs = refl

apply_correction-IsRevision_example : IsRevision one_unit_plan_of_two split_plan_of_two
apply_correction-IsRevision_example =
    apply_correction-IsRevision plain_digest plain_uuid one_unit_plan_of_two split_it
      split_plan_of_two split_it_runs

validate_pull_request_iff_example :
    (validate_pull_request (plain_request 1 7 [] []) ≡ ok tt) ↔ IsClosed (plain_request 1 7 [] [])
validate_pull_request_iff_example = validate_pull_request_iff (plain_request 1 7 [] [])

-- A split whose groups share an atom is accepted, and the plan that it gives is not valid.
abbrev overlapping_split : ReviewerCorrection
overlapping_split = ReviewerCorrection.split 10 ((1 ∷ 2 ∷ []) ∷ (2 ∷ []) ∷ []) (text "two concerns")

abbrev is_ok : Result ReviewPlan → Bool
is_ok (ok next) = true
is_ok (err e) = false

abbrev stays_valid : Result ReviewPlan → Bool
stays_valid (ok next) = elim (validate_plan next) [ ok t ↦ true | err e ↦ false ]
stays_valid (err e) = true

checks : Unit {0}
unfolding program for_each validate_plan ready_order ready_loop unless_empty complete_ready
    ready_units validate_dependency_closure validate_manifest assign_units assign_atoms
    collect_unit_ids validate_hash validate_schema_version
checks = tt

one_unit_valid : stays_valid (ok one_unit_plan_of_two) ≡ true
unfolding checks
one_unit_valid = refl

overlapping_split_passes :
    is_ok (apply_correction plain_digest plain_uuid one_unit_plan_of_two overlapping_split) ≡ true
unfolding checks
overlapping_split_passes = refl

overlapping_split_invalid :
    stays_valid (apply_correction plain_digest plain_uuid one_unit_plan_of_two overlapping_split)
    ≡ false
unfolding checks
overlapping_split_invalid = refl
