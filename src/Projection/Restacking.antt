-- ===== src/Projection/Restacking.antt =====
-- crates/orkia-projection/src/lib.rs: the projection of pull requests to commits. The Git adapter is a
-- parameter that passes its state on; where it fails, so does the caller.
pub mod Parents
use boop_orkia_cli.Prelude.{ℕ, Option, none, some, List, [], ◌∷◌, is_empty, map, nat_ord, list_ord}
use boop_orkia_cli.Prelude.Sets.{BTreeSet, collect}
use boop_orkia_cli.Prelude.Maps.{BTreeMap, lookup, put}
use boop_orkia_cli.Prelude.Text.{Text, text}
use boop_orkia_cli.Errors.{Result, ok, invalid, not_found, reject_if, ok_or, ◌>>=◌, ◌>>◌}
use boop_orkia_cli.Model.PullRequests.{StackPullRequest}
use boop_orkia_cli.Delivery.Orders.{by_id}
use boop_orkia_cli.Projection.Applying.{apply_patches}
use boop_orkia_cli.Projection.Branches.{ProjectionStep, branch_or, plan_mono_repository}

-- `PatchProjectionRepository`
pub record PatchProjectionRepository (S : Type 0) : Type 0 where
  pub read_files_at : S → Text → BTreeSet Text → Result (BTreeMap Text Text)
  pub commit_file_contents : S → Text → Text → BTreeMap Text Text → Result (Text × S)

pub record MaterializedProjection : Type 0 where
  pub step : ProjectionStep
  pub parent_commit : Text
  pub commit : Text

module _ {S : Type 0} (repository : PatchProjectionRepository S) where
  unfoldable pub project_stack_pull_request : S → StackPullRequest → Text → Text → Result (Text × S)
  project_stack_pull_request state request branch parent_commit = do
    reject_if (is_empty request.patches)
        (invalid (text "cannot project a stack pull request without exact bound patches"))
    files ←
        repository.read_files_at state parent_commit (collect (map (λ p. p.path) request.patches))
    applied ← apply_patches files request.patches
    repository.commit_file_contents state branch parent_commit applied

  -- The loop over the steps, with the commits of the branches so far.
  unfoldable pub materialize :
      List StackPullRequest
      → Text
      → BTreeMap Text Text
      → S
      → List ProjectionStep
      → Result (List MaterializedProjection × S)
  materialize requests base_commit commits state [] = ok ([], state)
  materialize requests base_commit commits state (step ∷ steps) =
      let parent = branch_or base_commit (lookup step.parent_branch commits) in
      ok_or (lookup step.pull_request (by_id requests)) (not_found step.branch) >>= (λ request.
        project_stack_pull_request state request step.branch parent >>= (λ (commit, next).
          materialize requests base_commit (put step.branch commit commits) next steps
          >>= (λ (rest, last).
              ok (record { step = step; parent_commit = parent; commit = commit } ∷ rest, last))))

  unfoldable pub restack_mono_repository :
      (simple hyphenated : ℕ → Text)
      → S
      → List StackPullRequest
      → Text
      → Text
      → Result (List MaterializedProjection × S)
  restack_mono_repository simple hyphenated state requests base_branch base_commit = do
    steps ← plan_mono_repository simple hyphenated requests base_branch
    materialize requests base_commit [] state steps
