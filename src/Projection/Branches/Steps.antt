-- ===== src/Projection/Branches/Steps.antt =====
-- crates/orkia-projection/src/lib.rs: the steps of a plan of branches.
use boop_orkia_cli.Prelude.{
  ℕ, ltb, not, ◌≡◌, refl, sym, subst, ◌∙◌, ap, ap₂, true, false, some, List, [], ◌∷◌, arith, inl,
  inr, map, length, head?, all, nat_ord, ◌==◌, ==→≡, Bool-cases, not-false,
}
use boop_orkia_cli.Prelude.Sets.{BTreeSet, contains, is_subset, contains-cons_cases}
use boop_orkia_cli.Prelude.Maps.{
  BTreeMap, lookup, put, lookup-put, AllBindings, lookup-collect_map-AllBindings,
}
use boop_orkia_cli.Prelude.Text.{Text}
use boop_orkia_cli.Errors.{
  ok, reject_if, >>-eq-ok, >>=-eq-ok, ok_or-eq-ok, ok_injective, reject_if-eq-ok,
}
use boop_orkia_cli.ReadyLoop.Invariant.{IsTopological, IsOrder}
use boop_orkia_cli.Model.Ids.{StackPullRequestId}
use boop_orkia_cli.Model.PullRequests.{StackPullRequest, StackPullRequestDependency, dependency_ord}
use boop_orkia_cli.Delivery.Orders.{by_id, parents_of, stack_pull_request_order}
use boop_orkia_cli.Delivery.Orders.Topological.{stack_pull_request_order-parents_of}
use boop_orkia_cli.Projection.Branches.{
  ProjectionStep, branch_or, branch_at, branch_of, plan_request, plan_steps,
  plan_mono_repository_with_published_dependencies,
}

-- A pull request that is found under an identity has it.
by_id-pairs :
    (requests : List StackPullRequest)
    → AllBindings (λ k p. p.id ≡ k) (map (λ p. (p.id, p)) requests)
by_id-pairs [] = tt
by_id-pairs (p ∷ requests) = (refl, by_id-pairs requests)

pub lookup-by_id :
    (requests : List StackPullRequest) (id : StackPullRequestId) (request : StackPullRequest)
    → lookup id (by_id requests) ≡ some request
    → request.id ≡ id
lookup-by_id requests id request h =
    lookup-collect_map-AllBindings (λ k p. p.id ≡ k) id request (map (λ p. (p.id, p)) requests)
      (by_id-pairs requests) h

pub parents_of-lookup :
    (requests : List StackPullRequest) (id : StackPullRequestId) (request : StackPullRequest)
    → lookup id (by_id requests) ≡ some request
    → parents_of requests id ≡ request.parents
unfolding parents_of
parents_of-lookup requests id request h = rw (parents_of, h) refl

module _ (simple hyphenated : ℕ → Text) (requests : List StackPullRequest)
    (published : BTreeSet StackPullRequestDependency) (base_branch : Text) where
  -- On which branch a pull request with these parents is based: with several there is none.
  abbrev pub IsBasedOn : List StackPullRequestId → Text → Type 0
  IsBasedOn [] branch = branch ≡ base_branch
  IsBasedOn (parent ∷ []) branch = branch ≡ branch_of simple hyphenated parent
  IsBasedOn (parent ∷ other ∷ parents) branch = ⊥

  abbrev pub IsStepOf : StackPullRequest → ProjectionStep → Type 0
  IsStepOf request step =
      (lookup step.pull_request (by_id requests) ≡ some request)
      × (step.branch ≡ branch_of simple hyphenated step.pull_request)
      × (is_subset request.dependencies published ≡ true)
      × IsBasedOn request.parents step.parent_branch

  abbrev pub AreSteps : List ProjectionStep → Type 0
  AreSteps [] = Unit
  AreSteps (step ∷ steps) = ((request : StackPullRequest) × IsStepOf request step) × AreSteps steps

  -- The branches of the pull requests that are planned are known.
  abbrev AreKnown : BTreeMap StackPullRequestId Text → List StackPullRequestId → Type 0
  AreKnown branches seen =
      (p : StackPullRequestId)
      → contains p seen ≡ true
      → lookup p branches ≡ some (branch_of simple hyphenated p)

  put-AreKnown :
      (branches : BTreeMap StackPullRequestId Text) (seen : List StackPullRequestId)
      (id : StackPullRequestId)
      → AreKnown branches seen
      → AreKnown (put id (branch_of simple hyphenated id) branches) (id ∷ seen)
  put-AreKnown branches seen id known p m = elim (Bool-cases (p == id)) [
    | inl e ↦ rw (lookup-put id p (branch_of simple hyphenated id) branches, e, ==→≡ p id e) refl
    | inr n ↦ elim (contains-cons_cases p id seen m) [
      | inl e ↦
          rw (lookup-put id p (branch_of simple hyphenated id) branches, n) (known p (ground arith))
      | inr m' ↦ rw (lookup-put id p (branch_of simple hyphenated id) branches, n) (known p m')
    ]
  ]

  IsBasedOn-parent :
      (branches : BTreeMap StackPullRequestId Text) (seen parents : List StackPullRequestId)
      → AreKnown branches seen
      → all (λ p. contains p seen) parents ≡ true
      → ltb 1 (length parents) ≡ false
      → IsBasedOn parents (branch_or base_branch (branch_at branches (head? parents)))
  IsBasedOn-parent branches seen [] known h single = refl
  IsBasedOn-parent branches seen (p ∷ []) known h single = rw (known p (ground arith)) refl
  IsBasedOn-parent branches seen (p ∷ q ∷ parents) known h single = absurd (ground arith)

  plan_request-IsStepOf :
      (branches : BTreeMap StackPullRequestId Text) (seen : List StackPullRequestId)
      (request : StackPullRequest) (step : ProjectionStep)
      → AreKnown branches seen
      → all (λ p. contains p seen) request.parents ≡ true
      → lookup request.id (by_id requests) ≡ some request
      → plan_request simple hyphenated published base_branch branches request ≡ ok step
      → IsStepOf request step × (step.pull_request ≡ request.id)
  unfolding plan_request
  plan_request-IsStepOf branches seen request step known parents found h =
      let (subset, rest) =
        >>-eq-ok (reject_if (not (is_subset request.dependencies published)) _) _ h in
      let (single, last) =
        >>-eq-ok (reject_if (ltb 1 (length request.parents)) _)
          (ok (record {
            pull_request = request.id;
            branch = branch_of simple hyphenated request.id;
            parent_branch = branch_or base_branch (branch_at branches (head? request.parents));
          }))
          rest in
      subst (λ s. IsStepOf request s × (s.pull_request ≡ request.id)) (ok_injective last)
        (
          (
            found,
            refl,
            not-false _ (reject_if-eq-ok _ _ subset),
            IsBasedOn-parent branches seen request.parents known parents
                (reject_if-eq-ok _ _ single),
          ),
          refl,
        )

  plan_steps-AreSteps :
      (branches : BTreeMap StackPullRequestId Text) (seen order : List StackPullRequestId)
      (steps : List ProjectionStep)
      → AreKnown branches seen
      → IsTopological (parents_of requests) seen order
      → plan_steps simple hyphenated requests published base_branch branches order ≡ ok steps
      → AreSteps steps × (map (λ s. s.pull_request) steps ≡ order)
  unfolding plan_steps
  plan_steps-AreSteps branches seen [] steps known t h = rw (sym (ok_injective h)) (tt, refl)
  plan_steps-AreSteps branches seen (id ∷ order) steps known t h =
      let (request, f, rest) = >>=-eq-ok _ _ h in
      let found = ok_or-eq-ok (lookup id (by_id requests)) _ f in
      let same = lookup-by_id requests id request found in
      let (step, s, more) =
        >>=-eq-ok (plan_request simple hyphenated published base_branch branches request) _ rest in
      let (later, l, last) =
        >>=-eq-ok
          (plan_steps simple hyphenated requests published base_branch
            (put request.id step.branch branches) order)
          (λ steps. ok (step ∷ steps)) more in
      let (is_step, named) =
        plan_request-IsStepOf branches seen request step known
          (subst (λ parents. all (λ p. contains p seen) parents ≡ true)
            (parents_of-lookup requests id request found) t.0)
          (subst (λ i. lookup i (by_id requests) ≡ some request) (sym same) found) s in
      let branch : step.branch ≡ branch_of simple hyphenated id =
        is_step.1 ∙ ap (branch_of simple hyphenated) (named ∙ same) in
      let known' : AreKnown (put request.id step.branch branches) (id ∷ seen) =
        subst (λ i. AreKnown (put i step.branch branches) (id ∷ seen)) (sym same)
          (subst (λ b. AreKnown (put id b branches) (id ∷ seen)) (sym branch)
            (put-AreKnown branches seen id known)) in
      let (are, ids) =
        plan_steps-AreSteps (put request.id step.branch branches) (id ∷ seen) order later known' t.1
          l in
      subst (λ ss. AreSteps ss × (map (λ s. s.pull_request) ss ≡ id ∷ order)) (ok_injective last)
        (((request, is_step), are), ap₂ (λ x xs. x ∷ xs) (named ∙ same) ids)

  -- The plan of a stack has a step for each of its pull requests, behind those of its parents; a step's
  -- branch is that of its pull request; the dependencies of the pull request in other repositories are
  -- published; and it has no parent and the base branch below it, or one parent and this one's branch.
  pub plan_mono_repository-AreSteps :
      (steps : List ProjectionStep)
      → plan_mono_repository_with_published_dependencies simple hyphenated requests base_branch
          published
        ≡ ok steps
      → AreSteps steps
        × IsOrder (parents_of requests) (map (λ p. p.id) requests) (map (λ s. s.pull_request) steps)
  unfolding plan_mono_repository_with_published_dependencies contains lookup
  plan_mono_repository-AreSteps steps h =
      let (named, rest) = >>-eq-ok _ _ h in
      let (order, o, planned) = >>=-eq-ok (stack_pull_request_order requests) _ rest in
      let is_order = stack_pull_request_order-parents_of requests order o in
      let (are, ids) =
        plan_steps-AreSteps [] [] order steps (λ p m. cc) is_order.topological planned in
      (are, subst (IsOrder (parents_of requests) (map (λ p. p.id) requests)) (sym ids) is_order)
