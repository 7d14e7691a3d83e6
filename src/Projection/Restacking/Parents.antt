-- ===== src/Projection/Restacking/Parents.antt =====
-- crates/orkia-projection/src/lib.rs: the commits that a restacked pull request stands on.
use boop_orkia_cli.Prelude.{
  ℕ, ◌≡◌, ◌≢◌, refl, sym, subst, ◌∙◌, ap, true, ◌⊎◌, inl, inr, none, some, List, [], ◌∷◌, arith,
  map, all, nat_ord, list_ord, ◌==◌, ==→≡, ==-false, ==-false→≢, ==-refl, Bool-cases,
}
use boop_orkia_cli.Prelude.Sets.{contains, contains-cons_cases}
use boop_orkia_cli.Prelude.Maps.{BTreeMap, lookup, put, lookup-put, some_injective}
use boop_orkia_cli.Prelude.Text.{Text}
use boop_orkia_cli.Errors.{ok, ok_or, >>=-eq-ok, ok_or-eq-ok, ok_injective}
use boop_orkia_cli.ReadyLoop.Invariant.{IsTopological}
use boop_orkia_cli.Model.Ids.{StackPullRequestId}
use boop_orkia_cli.Model.PullRequests.{StackPullRequest}
use boop_orkia_cli.Delivery.Orders.{by_id, parents_of}
use boop_orkia_cli.Projection.Branches.{ProjectionStep, branch_or, branch_of, plan_mono_repository}
use boop_orkia_cli.Projection.Branches.Steps.{
  AreSteps, IsBasedOn, parents_of-lookup, plan_mono_repository-AreSteps,
}
use boop_orkia_cli.Projection.Restacking.{
  PatchProjectionRepository, MaterializedProjection, project_stack_pull_request, materialize,
  restack_mono_repository,
}

-- A commit that was made of a pull request.
abbrev pub CommitOf : StackPullRequestId → List MaterializedProjection → Text → Type 0
CommitOf p [] commit = ⊥
CommitOf p (m ∷ earlier) commit =
    ((m.step.pull_request ≡ p) × (m.commit ≡ commit)) ⊎ CommitOf p earlier commit

module _ {S : Type 0} (repository : PatchProjectionRepository S) (requests : List StackPullRequest)
    (base_commit : Text) where
  -- Which commit a pull request with these parents stands on.
  abbrev pub StandsOn : List MaterializedProjection → List StackPullRequestId → Text → Type 0
  StandsOn earlier [] commit = commit ≡ base_commit
  StandsOn earlier (parent ∷ []) commit = CommitOf parent earlier commit
  StandsOn earlier (parent ∷ other ∷ parents) commit = ⊥

  -- The commit is what the adapter makes of the pull request on top of this parent.
  abbrev pub IsProjected : StackPullRequest → MaterializedProjection → Type 0
  IsProjected request m =
      (before : S) × (after : S) × (project_stack_pull_request repository before request
          m.step.branch m.parent_commit
        ≡ ok (m.commit, after))

  abbrev pub AreRestacked : List MaterializedProjection → List MaterializedProjection → Type 0
  AreRestacked earlier [] = Unit
  AreRestacked earlier (m ∷ later) =
      ((request : StackPullRequest) × (lookup m.step.pull_request (by_id requests) ≡ some request)
        × StandsOn earlier request.parents m.parent_commit
        × IsProjected request m)
      × AreRestacked (m ∷ earlier) later

  module _ (simple hyphenated : ℕ → Text) (base_branch : Text)
      (injective : (p q : StackPullRequestId)
        → branch_of simple hyphenated p ≡ branch_of simple hyphenated q
        → p ≡ q)
      (apart : (p : StackPullRequestId) → base_branch ≢ branch_of simple hyphenated p) where
    -- The map of commits knows the commit of each pull request so far, and not the base branch.
    record AreCommits (commits : BTreeMap Text Text) (seen : List StackPullRequestId)
        (earlier : List MaterializedProjection) : Type 0 where
      known :
          (p : StackPullRequestId)
          → contains p seen ≡ true
          → (c : Text) × (lookup (branch_of simple hyphenated p) commits ≡ some c)
            × CommitOf p earlier c
      no_base : lookup base_branch commits ≡ none

    put-AreCommits :
        (commits : BTreeMap Text Text) (seen : List StackPullRequestId)
        (earlier : List MaterializedProjection) (m : MaterializedProjection)
        → AreCommits commits seen earlier
        → m.step.branch ≡ branch_of simple hyphenated m.step.pull_request
        → AreCommits (put m.step.branch m.commit commits) (m.step.pull_request ∷ seen) (m ∷ earlier)
    put-AreCommits commits seen earlier m h b = record {
      known = λ p c. elim (contains-cons_cases p m.step.pull_request seen c) [
        | inl e ↦
            let same = ap (branch_of simple hyphenated) e ∙ sym b in
            (
              m.commit,
              rw
                  (
                    lookup-put m.step.branch (branch_of simple hyphenated p) m.commit commits,
                    same,
                    ==-refl m.step.branch,
                  )
                  refl,
              inl (sym e, refl),
            )
        | inr c' ↦ elim (Bool-cases (p == m.step.pull_request)) [
          | inl e ↦
              let same = ap (branch_of simple hyphenated) (==→≡ p m.step.pull_request e) ∙ sym b in
              (
                m.commit,
                rw
                    (
                      lookup-put m.step.branch (branch_of simple hyphenated p) m.commit commits,
                      same,
                      ==-refl m.step.branch,
                    )
                    refl,
                inl (sym (==→≡ p m.step.pull_request e), refl),
              )
          | inr n ↦
              let (commit, l, o) = h.known p c' in
              let different = ==-false (branch_of simple hyphenated p) m.step.branch (λ e.
                ==-false→≢ p m.step.pull_request n (injective p m.step.pull_request (e ∙ b))) in
              (
                commit,
                rw
                    (
                      lookup-put m.step.branch (branch_of simple hyphenated p) m.commit commits,
                      different,
                    )
                    l,
                inr o,
              )
        ]
      ];
      no_base =
          let different =
            ==-false base_branch m.step.branch (λ e. apart m.step.pull_request (e ∙ b)) in
          rw (lookup-put m.step.branch base_branch m.commit commits, different) h.no_base;
    }

    based_commit :
        (commits : BTreeMap Text Text) (seen : List StackPullRequestId)
        (earlier : List MaterializedProjection) (parents : List StackPullRequestId) (branch : Text)
        → AreCommits commits seen earlier
        → all (λ p. contains p seen) parents ≡ true
        → IsBasedOn simple hyphenated requests [] base_branch parents branch
        → StandsOn earlier parents (branch_or base_commit (lookup branch commits))
    based_commit commits seen earlier [] branch h met b = rw (b, h.no_base) refl
    based_commit commits seen earlier (p ∷ []) branch h met b =
        let (commit, l, o) = h.known p (ground arith) in rw (b, l) o
    based_commit commits seen earlier (p ∷ q ∷ parents) branch h met b = b

    materialize-AreRestacked :
        (commits : BTreeMap Text Text) (seen : List StackPullRequestId)
        (earlier : List MaterializedProjection) (state last : S) (steps : List ProjectionStep)
        (made : List MaterializedProjection)
        → AreCommits commits seen earlier
        → AreSteps simple hyphenated requests [] base_branch steps
        → IsTopological (parents_of requests) seen (map (λ s. s.pull_request) steps)
        → materialize repository requests base_commit commits state steps ≡ ok (made, last)
        → AreRestacked earlier made × (map (λ m. m.step) made ≡ steps)
    unfolding materialize
    materialize-AreRestacked commits seen earlier state last [] made h a t e =
        subst (λ l. AreRestacked earlier l × (map (λ m. m.step) l ≡ []))
          (ap (λ (r : List MaterializedProjection × S). r.0) (ok_injective e)) (tt, refl)
    materialize-AreRestacked commits seen earlier state last (step ∷ steps) made h a t e =
        let (planned, is_step) = a.0 in
        let parent = branch_or base_commit (lookup step.parent_branch commits) in
        let (request, f, rest) =
          >>=-eq-ok (ok_or (lookup step.pull_request (by_id requests)) _) _ e in
        let found = ok_or-eq-ok (lookup step.pull_request (by_id requests)) _ f in
        let same : planned ≡ request = some_injective (sym is_step.0 ∙ found) in
        let (made_first, p, more) =
          >>=-eq-ok (project_stack_pull_request repository state request step.branch parent) _
            rest in
        let m : MaterializedProjection = record {
          step = step;
          parent_commit = parent;
          commit = made_first.0;
        } in
        let (made_rest, r, end) =
          >>=-eq-ok
            (materialize repository requests base_commit (put step.branch made_first.0 commits)
              made_first.1 steps)
            _ more in
        let (are, kept) =
          materialize-AreRestacked (put step.branch made_first.0 commits) (step.pull_request ∷ seen)
            (m ∷ earlier) made_first.1 made_rest.1 steps made_rest.0
            (put-AreCommits commits seen earlier m h is_step.1) a.1 t.1 r in
        let stands =
          based_commit commits seen earlier planned.parents step.parent_branch h
            (subst (λ parents. all (λ p. contains p seen) parents ≡ true)
              (parents_of-lookup requests step.pull_request planned is_step.0) t.0)
            is_step.3 in
        subst (λ l. AreRestacked earlier l × (map (λ m. m.step) l ≡ step ∷ steps))
          (ap (λ (r : List MaterializedProjection × S). r.0) (ok_injective end))
          (
            (
              (
                request,
                found,
                subst (λ q. StandsOn earlier q.parents parent) same stands,
                (state, made_first.1, p),
              ),
              are,
            ),
            ap (λ l. step ∷ l) kept,
          )

    -- A restacked pull request stands on the commit that was made, before it, of its one parent, or on the
    -- base commit where it has no parent, and its commit is what the adapter makes of it there; where
    -- branches of different pull requests differ and none is the base branch.
    pub restack_mono_repository-AreRestacked :
        (state last : S) (made : List MaterializedProjection)
        → restack_mono_repository repository simple hyphenated state requests base_branch
            base_commit
          ≡ ok (made, last)
        → AreRestacked [] made
          × (plan_mono_repository simple hyphenated requests base_branch
              ≡ ok (map (λ m. m.step) made))
    unfolding restack_mono_repository plan_mono_repository contains lookup
    restack_mono_repository-AreRestacked state last made h =
        let (steps, planned, rest) =
          >>=-eq-ok (plan_mono_repository simple hyphenated requests base_branch) _ h in
        let (are, order) =
          plan_mono_repository-AreSteps simple hyphenated requests [] base_branch steps planned in
        let start : AreCommits [] [] [] = record { known = λ p m. cc; no_base = refl } in
        let (restacked, kept) =
          materialize-AreRestacked [] [] [] state last steps made start are order.topological
            rest in
        (restacked, planned ∙ ap ok (sym kept))
