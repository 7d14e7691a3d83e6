-- ===== src/Model/ChangeSets.antt =====
-- crates/orkia-model/src/lib.rs: changesets, the delivery groups of stacks in several repositories.
use boop_orkia_cli.Prelude.{
  ℕ, ◌≡◌, Bool, not, ◌||◌, Option, List, ◌++◌, map, flat_map, is_empty, length, nat_eq, nat_ord,
  Ord, by_key, pair_ord, ap,
}
use boop_orkia_cli.Prelude.Sets.{BTreeSet, contains, collect, sort}
use boop_orkia_cli.Prelude.Text.{text}
use boop_orkia_cli.Errors.{Result, invalid, reject_if, ◌>>◌}
use boop_orkia_cli.Model.Ids.{Bytes, ChangeSetId, RepositoryId, StackId, uuid_of_digest, as_bytes}
use boop_orkia_cli.Model.Objects.{SemanticObjectRef, SemanticObjectKind, validate_schema_version}
use boop_orkia_cli.Model.PullRequests.{StackPullRequestStatus, validate_reference}

pub record ChangeSetStack : Type 0 where
  pub repository : RepositoryId
  pub stack : StackId
  pub revision : ℕ

abbrev pub change_set_stack_key : ChangeSetStack → RepositoryId × (StackId × ℕ)
change_set_stack_key s = (s.repository, (s.stack, s.revision))

pub change_set_stack_key_injective :
    (a b : ChangeSetStack) → change_set_stack_key a ≡ change_set_stack_key b → a ≡ b
change_set_stack_key_injective a b e =
    let same_repository = ap (λ (t : ℕ × (ℕ × ℕ)). t.0) e in
    let same_stack = ap (λ (t : ℕ × (ℕ × ℕ)). (t.1).0) e in
    let same_revision = ap (λ (t : ℕ × (ℕ × ℕ)). (t.1).1) e in
    λ i. record { repository = same_repository i; stack = same_stack i; revision = same_revision i }

instance abbrev pub change_set_stack_ord : Ord ChangeSetStack
change_set_stack_ord =
    by_key change_set_stack_key change_set_stack_key_injective (pair_ord ⦃p = pair_ord⦄)

pub record ChangeSet : Type 0 where
  pub schema_version : ℕ
  pub id : ChangeSetId
  pub revision : ℕ
  pub stacks : BTreeSet ChangeSetStack
  pub depends_on : BTreeSet ChangeSetId
  pub status : StackPullRequestStatus
  pub supersedes : Option SemanticObjectRef

-- The repository and the stack of a reference, without its revision.
abbrev pub stack_identity : ChangeSetStack → RepositoryId × StackId
stack_identity s = (s.repository, s.stack)

module _ (sha256 : Bytes → Bytes) where
  -- `ChangeSetId::from_stack_references`
  unfoldable pub from_stack_references : List ChangeSetStack → ChangeSetId
  from_stack_references stacks = uuid_of_digest (
      sha256 (
        text "orkia:changeset:v1"
        ++ flat_map (λ r. as_bytes r.repository ++ as_bytes r.stack) (sort stacks)))

-- `unique.len() != stacks.len()`: two revisions of one stack are selected.
unfoldable pub selects_twice : BTreeSet ChangeSetStack → Bool
selects_twice stacks = not (nat_eq (length (collect (map stack_identity stacks))) (length stacks))

-- `ChangeSet::validate`
unfoldable pub validate_change_set : ChangeSet → Result (Unit {0})
validate_change_set changeset = do
  validate_schema_version changeset.schema_version
  reject_if (is_empty changeset.stacks || contains changeset.id changeset.depends_on)
      (invalid (text "a changeset needs stacks and cannot depend on itself"))
  reject_if (selects_twice changeset.stacks) (
      invalid
        (text "a changeset cannot select more than one revision of the same repository stack"))
  validate_reference SemanticObjectKind.change_set "changeset supersedes must reference a changeset"
      "changeset supersedes" changeset.supersedes
