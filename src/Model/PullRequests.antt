-- ===== src/Model/PullRequests.antt =====
-- crates/orkia-model/src/lib.rs: stack pull requests and `StackPullRequest::validate`.
pub mod Closure
use boop_orkia_cli.Prelude.{
  ℕ, ◌≡◌, not, ◌||◌, Option, List, [], ◌∷◌, is_empty, all, any, nat_eq, nat_ord, Ord, by_key,
  pair_ord, ap, String,
}
use boop_orkia_cli.Prelude.Sets.{BTreeSet, contains, insert}
use boop_orkia_cli.Prelude.Text.{text}
use boop_orkia_cli.Errors.{Result, ok, invalid, reject_if, for_each, if_some, ◌>>=◌, ◌>>◌}
use boop_orkia_cli.Model.Ids.{AtomId, EventId, PlanId, RepositoryId, SessionId, StackPullRequestId}
use boop_orkia_cli.Model.Objects.{
  Hash, SemanticObjectRef, SemanticObjectKind, kind_eq, validate_schema_version, validate_hash,
  validate_object_ref,
}
use boop_orkia_cli.Model.Atoms.{ChangeAtom, PatchFragment, ValidationResult}

pub data StackPullRequestStatus : Type 0 where
  proposed active superseded integrated abandoned blocked_conflict : StackPullRequestStatus

pub record StackPullRequestDependency : Type 0 where
  pub stack_pull_request : StackPullRequestId
  pub repository : RepositoryId

abbrev pub dependency_key : StackPullRequestDependency → StackPullRequestId × RepositoryId
dependency_key d = (d.stack_pull_request, d.repository)

pub dependency_key_injective :
    (a b : StackPullRequestDependency) → dependency_key a ≡ dependency_key b → a ≡ b
dependency_key_injective a b e =
    let same_id = ap (λ (t : ℕ × ℕ). t.0) e in
    let same_repository = ap (λ (t : ℕ × ℕ). t.1) e in
    λ i. record { stack_pull_request = same_id i; repository = same_repository i }

instance abbrev pub dependency_ord : Ord StackPullRequestDependency
dependency_ord = by_key dependency_key dependency_key_injective pair_ord

pub record StackPullRequest : Type 0 where
  pub schema_version : ℕ
  pub id : StackPullRequestId
  pub revision : ℕ
  pub source_plan : Option PlanId
  pub source_plan_revision : ℕ
  pub session : SessionId
  pub intent : Option SemanticObjectRef
  pub repository : RepositoryId
  pub base_commit : Hash
  pub parents : BTreeSet StackPullRequestId
  pub dependencies : BTreeSet StackPullRequestDependency
  pub atoms : List ChangeAtom
  pub patches : List PatchFragment
  pub evidence : BTreeSet EventId
  pub validations : List ValidationResult
  pub status : StackPullRequestStatus
  pub supersedes : Option SemanticObjectRef

-- The loop over the atoms, with the identities seen so far; it returns `atom_ids`.
unfoldable pub validate_atoms :
    BTreeSet EventId → BTreeSet AtomId → List ChangeAtom → Result (BTreeSet AtomId)
validate_atoms evidence atom_ids [] = ok atom_ids
validate_atoms evidence atom_ids (atom ∷ atoms) = do
  reject_if (contains atom.id atom_ids)
      (invalid (text "stack pull request contains duplicate atoms"))
  reject_if
      (is_empty atom.source_events
        || not (all (λ event. contains event evidence) atom.source_events))
      (invalid (text "every stack pull request atom must close over captured evidence"))
  validate_atoms evidence (insert atom.id atom_ids) atoms

-- The loop over the patches.
unfoldable pub validate_patches : BTreeSet AtomId → List PatchFragment → Result (Unit {0})
validate_patches atom_ids patches =
    for_each
      (λ patch.
        reject_if
          (is_empty patch.path
            || is_empty patch.atoms
            || not (all (λ atom. contains atom atom_ids) patch.atoms)
            || is_empty patch.base_content_hash)
          (invalid
            (text "stack pull request patch must be closed over its atoms and base content")))
      patches

-- The check of an optional reference to an object of one kind.
unfoldable pub validate_reference :
    SemanticObjectKind → String → String → Option SemanticObjectRef → Result (Unit {0})
validate_reference kind wrong_kind field reference = if_some reference (λ object. do
  reject_if (not (kind_eq object.kind kind)) (invalid (text wrong_kind))
  validate_object_ref object field)

-- `StackPullRequest::validate`
unfoldable pub validate_pull_request : StackPullRequest → Result (Unit {0})
validate_pull_request request = do
  validate_schema_version request.schema_version
  validate_hash request.base_commit "stack pull request base commit"
  reject_if (is_empty request.atoms || is_empty request.evidence)
      (invalid (text "a stack pull request needs atoms and captured causal evidence"))
  validate_reference SemanticObjectKind.intent "stack pull request intent must be an intent object"
      "stack pull request intent" request.intent
  validate_reference SemanticObjectKind.stack_pull_request
      "stack pull request supersedes must reference a stack pull request"
      "stack pull request supersedes" request.supersedes
  atom_ids ← validate_atoms request.evidence [] request.atoms
  validate_patches atom_ids request.patches
  reject_if
      (contains request.id request.parents
        || any (λ dependency. nat_eq dependency.stack_pull_request request.id) request.dependencies)
      (invalid (text "stack pull request cannot depend on itself"))
  reject_if
      (any (λ dependency. nat_eq dependency.repository request.repository) request.dependencies)
      (invalid (text "cross-repository dependencies must reference another repository"))
