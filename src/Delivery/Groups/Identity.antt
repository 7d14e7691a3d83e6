-- ===== src/Delivery/Groups/Identity.antt =====
-- crates/orkia-changesets/src/lib.rs: `change_set_from_stack_references` and `add_changeset_dependency`.
use boop_orkia_cli.Prelude.{
  ℕ, ◌≡◌, refl, sym, ◌∙◌, ◌↔◌, false, not, none, List, [], map, arith, is_empty, length, length-map,
  nat_eq, nat_eq_iff, nat_ord, pair_ord,
}
use boop_orkia_cli.Prelude.Sets.{BTreeSet, contains, collect, IsDistinct}
use boop_orkia_cli.Prelude.Sets.Fresh.{length-collect_iff}
use boop_orkia_cli.Errors.{ok, >>-eq-ok, >>-ok, reject_if-eq-ok, reject_if->>-ok}
use boop_orkia_cli.Model.Ids.{Bytes}
use boop_orkia_cli.Model.Objects.{semantic_schema_version, validate_schema_version_iff}
use boop_orkia_cli.Model.ChangeSets.{
  ChangeSet, ChangeSetStack, stack_identity, from_stack_references, selects_twice,
  validate_change_set,
}
use boop_orkia_cli.Model.PullRequests.{active, validate_reference}
use boop_orkia_cli.Delivery.Groups.{change_set_from_stack_references}

-- Two numbers that pass the test `!=` as equal.
same_length : (a b : ℕ) → (not (nat_eq a b) ≡ false) ↔ (a ≡ b)
same_length a b = (λ h. ground (arith, nat_eq_iff a b), λ e. ground (arith, nat_eq_iff a b))

selects_twice_iff :
    (stacks : List ChangeSetStack)
    → (selects_twice stacks ≡ false) ↔ IsDistinct (map stack_identity stacks)
unfolding selects_twice
selects_twice_iff stacks =
    let (to, from) = length-collect_iff (map stack_identity stacks) in
    let (test, pass) = same_length (length (collect (map stack_identity stacks))) (length stacks) in
    (
      λ h. to (test h ∙ sym (length-map stack_identity stacks)),
      λ d. pass (from d ∙ length-map stack_identity stacks),
    )

-- A first changeset of some stacks.
pub record IsMade (stack_refs : BTreeSet ChangeSetStack) (changeset : ChangeSet) : Type 0 where
  pub selected : changeset.stacks ≡ stack_refs
  pub independent : changeset.depends_on ≡ []
  pub first : changeset.revision ≡ 0
  pub valid : validate_change_set changeset ≡ ok tt

module _ (sha256 : Bytes → Bytes) (stack_refs : BTreeSet ChangeSetStack) where
  abbrev made : ChangeSet
  made = record {
    schema_version = semantic_schema_version;
    id = from_stack_references sha256 stack_refs;
    revision = 0;
    stacks = stack_refs;
    depends_on = [];
    status = active;
    supersedes = none;
  }

  made_valid :
      is_empty stack_refs ≡ false
      → selects_twice stack_refs ≡ false
      → validate_change_set made ≡ ok tt
  unfolding validate_change_set validate_reference contains
  made_valid e d =
      >>-ok _ _ ((validate_schema_version_iff _).1 refl)
      ∙ reject_if->>-ok _ _ _ (ground (arith, e))
      ∙ reject_if->>-ok _ _ _ d
      ∙ refl

  -- A changeset of some stack references, with exactly these stacks, no dependency, the revision 0 and a
  -- passing validation, is made exactly when there is a reference and no two select the same stack of the
  -- same repository.
  pub change_set_from_stack_references_iff :
      ((changeset : ChangeSet) × (change_set_from_stack_references sha256 stack_refs ≡ ok changeset)
        × IsMade stack_refs changeset)
      ↔ ((is_empty stack_refs ≡ false) × IsDistinct (map stack_identity stack_refs))
  unfolding change_set_from_stack_references
  change_set_from_stack_references_iff = (
    λ (changeset, equation, is_made).
        let (some_stack, h1) = >>-eq-ok _ _ equation in
        let (once, h2) = >>-eq-ok _ _ h1 in
        (
          reject_if-eq-ok _ _ some_stack,
          (selects_twice_iff stack_refs).0 (reject_if-eq-ok _ _ once),
        ),
    λ w.
        let once = (selects_twice_iff stack_refs).1 w.1 in
        let valid = made_valid w.0 once in
        (
          made,
          reject_if->>-ok _ _ _ w.0 ∙ reject_if->>-ok _ _ _ once ∙ >>-ok _ _ valid,
          record { selected = refl; independent = refl; first = refl; valid = valid },
        ),
  )
