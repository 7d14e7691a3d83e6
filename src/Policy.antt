-- ===== src/Policy.antt =====
-- crates/orkia-policy/src/lib.rs: the decision whether a plan may be integrated. `parse` is TOML
-- decoding by a library and is not modelled; the executor of the validation commands is a parameter.
pub mod Decision
use boop_orkia_cli.Prelude.{
  ℕ, Bool, true, false, not, ◌&&◌, List, ◌++◌, any, ltb, nat_ord, list_ord,
}
use boop_orkia_cli.Prelude.Sets.{contains}
use boop_orkia_cli.Prelude.Text.{Text, text, decimal}
use boop_orkia_cli.Errors.{Result, ok, policy, reject_if, ◌>>=◌, ◌>>◌}
use boop_orkia_cli.Model.Atoms.{ValidationResult}
use boop_orkia_cli.Model.Plans.{PlanStatus, approved, ReviewPlan}
use boop_orkia_cli.Model.Policies.{RepositoryPolicy}

-- `matches!(status, PlanStatus::Approved)`
abbrev pub is_approved : PlanStatus → Bool
is_approved approved = true
is_approved _ = false

-- `evaluate`
unfoldable pub evaluate :
    RepositoryPolicy → ReviewPlan → List ValidationResult → ℕ → Text → Result (Unit {0})
evaluate rules plan validations approvals branch = do
  reject_if (ltb plan.coverage_milli rules.minimum_coverage_milli) (
      policy (
        text "causal coverage "
        ++ (decimal plan.coverage_milli
            ++ (text " is below required " ++ decimal rules.minimum_coverage_milli))))
  reject_if (any (λ unit. ltb unit.confidence_milli rules.minimum_confidence_milli) plan.units)
      (policy (text "review plan has an under-confident unit"))
  reject_if (any (λ validation. not validation.passed) validations)
      (policy (text "a required validation failed"))
  reject_if (contains branch rules.protected_branches && ltb approvals rules.required_approvals) (
      policy
        (branch ++ (text " needs " ++ (decimal rules.required_approvals ++ text " approvals"))))
  reject_if (contains branch rules.protected_branches && not (is_approved plan.status))
      (policy (text "a protected branch requires an approved signed review plan"))

-- `run_and_evaluate`
unfoldable pub run_and_evaluate :
    (RepositoryPolicy → Result (List ValidationResult))
    → RepositoryPolicy
    → ReviewPlan
    → ℕ
    → Text
    → Result (List ValidationResult)
run_and_evaluate execute rules plan approvals branch = do
  results ← execute rules
  evaluate rules plan results approvals branch
  ok results
