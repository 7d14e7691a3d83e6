-- ===== src/Policy/Decision.antt =====
-- crates/orkia-policy/src/lib.rs: `evaluate` and `run_and_evaluate`.
use boop_orkia_cli.Prelude.{
  ℕ, ◌≡◌, refl, ap, subst, ◌∙◌, ◌≤◌, ◌↔◌, Bool, true, false, not, ◌&&◌, List, arith, any, ltb,
  nat_ord, list_ord, [], ◌∷◌,
}
use boop_orkia_cli.Prelude.Sets.{contains}
use boop_orkia_cli.Prelude.Text.{Text}
use boop_orkia_cli.Errors.{
  ok_injective, Result, ok, >>-eq-ok, >>=-eq-ok, >>=-ok, reject_if-eq-ok, reject_if->>-ok,
  reject_if-ok, >>-ok,
}
use boop_orkia_cli.Model.Atoms.{ValidationResult}
use boop_orkia_cli.Model.Plans.{ReviewUnit, ReviewPlan}
use boop_orkia_cli.Model.Policies.{RepositoryPolicy}
use boop_orkia_cli.Policy.{is_approved, evaluate, run_and_evaluate}

-- Every unit is as confident as a bound.
abbrev pub AllConfident : ℕ → List ReviewUnit → Type 0
AllConfident least [] = Unit
AllConfident least (u ∷ us) = (least ≤ u.confidence_milli) × AllConfident least us

abbrev pub AllPassed : List ValidationResult → Type 0
AllPassed [] = Unit
AllPassed (v ∷ vs) = (v.passed ≡ true) × AllPassed vs

-- What a policy asks of a plan, the results of its validations, the number of approvals and the branch.
pub record IsAdmitted (rules : RepositoryPolicy) (plan : ReviewPlan)
    (validations : List ValidationResult) (approvals : ℕ) (branch : Text) : Type 0 where
  pub coverage : rules.minimum_coverage_milli ≤ plan.coverage_milli
  pub confident : AllConfident rules.minimum_confidence_milli plan.units
  pub passed : AllPassed validations
  pub approvals_given :
      contains branch rules.protected_branches ≡ true → rules.required_approvals ≤ approvals
  pub plan_approved :
      contains branch rules.protected_branches ≡ true → is_approved plan.status ≡ true

confident_iff :
    (least : ℕ) (units : List ReviewUnit)
    → (any (λ unit. ltb unit.confidence_milli least) units ≡ false) ↔ AllConfident least units
confident_iff least [] = (λ h. tt, λ h. refl)
confident_iff least (u ∷ us) =
    let (to, from) = confident_iff least us in
    (
      λ h. (ground arith, to (ground arith)),
      λ w. let rest = from w.1 in let here = w.0 in ground arith,
    )

passed_iff :
    (validations : List ValidationResult)
    → (any (λ validation. not validation.passed) validations ≡ false) ↔ AllPassed validations
passed_iff [] = (λ h. tt, λ h. refl)
passed_iff (v ∷ vs) =
    let (to, from) = passed_iff vs in
    (
      λ h. (ground arith, to (ground arith)),
      λ w. let rest = from w.1 in let here = w.0 in ground arith,
    )

at_least : (a b : ℕ) → ltb a b ≡ false → b ≤ a
at_least a b h = ground arith

-- A check that only a protected branch makes.
approvals_iff : (p : Bool) (a b : ℕ) → ((p && ltb a b) ≡ false) ↔ (p ≡ true → b ≤ a)
approvals_iff true a b = (λ h e. ground arith, λ w. let enough = w refl in ground arith)
approvals_iff false a b = (λ h e. cc, λ w. refl)

approved_iff : (p b : Bool) → ((p && not b) ≡ false) ↔ (p ≡ true → b ≡ true)
approved_iff true b = (λ h e. ground arith, λ w. let approved = w refl in ground arith)
approved_iff false b = (λ h e. cc, λ w. refl)

module _ (rules : RepositoryPolicy) (plan : ReviewPlan) (validations : List ValidationResult)
    (approvals : ℕ) (branch : Text) where
  evaluate_sound :
      evaluate rules plan validations approvals branch ≡ ok tt
      → IsAdmitted rules plan validations approvals branch
  unfolding evaluate
  evaluate_sound h =
      let (coverage, h1) = >>-eq-ok _ _ h in
      let (confident, h2) = >>-eq-ok _ _ h1 in
      let (passed, h3) = >>-eq-ok _ _ h2 in
      let (given, approved) = >>-eq-ok _ _ h3 in
      record {
        coverage = at_least _ _ (reject_if-eq-ok _ _ coverage);
        confident = (confident_iff _ _).0 (reject_if-eq-ok _ _ confident);
        passed = (passed_iff _).0 (reject_if-eq-ok _ _ passed);
        approvals_given = (approvals_iff _ _ _).0 (reject_if-eq-ok _ _ given);
        plan_approved = (approved_iff _ _).0 (reject_if-eq-ok _ _ approved);
      }

  evaluate_total :
      IsAdmitted rules plan validations approvals branch
      → evaluate rules plan validations approvals branch ≡ ok tt
  unfolding evaluate
  evaluate_total w =
      reject_if->>-ok _ _ _ (ground (arith, w.coverage))
      ∙ reject_if->>-ok _ _ _ ((confident_iff _ _).1 w.confident)
      ∙ reject_if->>-ok _ _ _ ((passed_iff _).1 w.passed)
      ∙ reject_if->>-ok _ _ _ ((approvals_iff _ _ _).1 w.approvals_given)
      ∙ reject_if-ok _ _ ((approved_iff _ _).1 w.plan_approved)

  -- A plan may be integrated exactly when the policy admits it: its coverage and the confidence of each
  -- unit reach the required values, all validations passed, and on a protected branch the plan is
  -- approved and has the required number of approvals.
  pub evaluate_iff :
      (evaluate rules plan validations approvals branch ≡ ok tt)
      ↔ IsAdmitted rules plan validations approvals branch
  evaluate_iff = (evaluate_sound, evaluate_total)

-- `run_and_evaluate` returns the results of the commands, and only when the policy admits the plan with
-- exactly these results; and then it does.
pub run_and_evaluate_iff :
    (execute : RepositoryPolicy → Result (List ValidationResult)) (rules : RepositoryPolicy)
    (plan : ReviewPlan) (approvals : ℕ) (branch : Text) (results : List ValidationResult)
    → (run_and_evaluate execute rules plan approvals branch ≡ ok results)
      ↔ ((execute rules ≡ ok results) × IsAdmitted rules plan results approvals branch)
unfolding run_and_evaluate
run_and_evaluate_iff execute rules plan approvals branch results = (
  λ h.
      let (found, ran, h1) = >>=-eq-ok _ _ h in
      let (passes, same) = >>-eq-ok _ _ h1 in
      let e = ok_injective same in
      (
        ran ∙ ap ok e,
        subst (λ r. IsAdmitted rules plan r approvals branch) e
            ((evaluate_iff rules plan found approvals branch).0 passes),
      ),
  λ w. >>=-ok _ _ w.0 ∙ >>-ok _ _ ((evaluate_iff rules plan results approvals branch).1 w.1),
)
