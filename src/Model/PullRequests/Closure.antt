-- ===== src/Model/PullRequests/Closure.antt =====
-- crates/orkia-model/src/lib.rs: `StackPullRequest::validate`.
use boop_orkia_cli.Prelude.{
  ◌≡◌, refl, ap, subst, sym, ◌∙◌, ◌↔◌, Bool, true, false, not, ◌||◌, String, Option, none, some,
  List, [], ◌∷◌, arith, is_empty, all, any, nat_eq, nat_ord, not-false, false-not,
}
use boop_orkia_cli.Prelude.Sets.{
  BTreeSet, contains, insert, extend, collect, IsDistinct, collect_lem,
}
use boop_orkia_cli.Prelude.Sets.Fresh.{IsFresh, IsFresh-nil_iff}
use boop_orkia_cli.Errors.{
  ok, >>-eq-ok, >>=-eq-ok, >>-ok, >>=-ok, reject_if-eq-ok, reject_if->>-ok, reject_if-ok, for_each,
}
use boop_orkia_cli.Model.Ids.{AtomId, EventId}
use boop_orkia_cli.Model.Objects.{
  SemanticObjectKind, SemanticObjectRef, kind_eq, validate_schema_version_iff, validate_hash_iff,
  validate_object_ref_iff,
}
use boop_orkia_cli.Model.Atoms.{ChangeAtom, PatchFragment}
use boop_orkia_cli.Model.Plans.{atom_ids}
use boop_orkia_cli.Model.PullRequests.{
  StackPullRequest, validate_atoms, validate_patches, validate_reference, validate_pull_request,
}

-- Each atom names events, all of them captured.
abbrev pub AllEvidenced : BTreeSet EventId → List ChangeAtom → Type 0
AllEvidenced evidence [] = Unit
AllEvidenced evidence (a ∷ atoms) =
    (is_empty a.source_events ≡ false)
    × (all (λ event. contains event evidence) a.source_events ≡ true)
    × AllEvidenced evidence atoms

-- Each patch has a path, atoms that are all of the pull request, and a base content.
abbrev pub AllClosed : BTreeSet AtomId → List PatchFragment → Type 0
AllClosed ids [] = Unit
AllClosed ids (p ∷ patches) =
    (is_empty p.path ≡ false)
    × (is_empty p.atoms ≡ false)
    × (all (λ atom. contains atom ids) p.atoms ≡ true)
    × (is_empty p.base_content_hash ≡ false)
    × AllClosed ids patches

-- A reference, if any, is to an object of one kind and has a hash.
abbrev pub IsReference : SemanticObjectKind → Option SemanticObjectRef → Type 0
IsReference kind none = Unit
IsReference kind (some object) = (kind_eq object.kind kind ≡ true) × (is_empty object.hash ≡ false)

validate_atoms_iff :
    (evidence : BTreeSet EventId) (seen : BTreeSet AtomId) (atoms : List ChangeAtom)
    (ids : BTreeSet AtomId)
    → (validate_atoms evidence seen atoms ≡ ok ids) ↔ (
        IsFresh seen (atom_ids atoms)
        × AllEvidenced evidence atoms
        × (extend seen (atom_ids atoms) ≡ ids))
unfolding validate_atoms extend
validate_atoms_iff evidence seen [] ids = (λ h. (tt, tt, ground arith), λ w. ap ok w.2)
validate_atoms_iff evidence seen (a ∷ atoms) ids =
    let (to, from) = validate_atoms_iff evidence (insert a.id seen) atoms ids in
    (
      λ h.
          let (new, h1) = >>-eq-ok _ _ h in
          let (evidenced, h2) = >>-eq-ok _ _ h1 in
          let (fresh, others, e) = to h2 in
          let here = reject_if-eq-ok _ _ evidenced in
          (
            (reject_if-eq-ok _ _ new, fresh),
            (ground (arith, here), ground (arith, here), others),
            e,
          ),
      λ w.
          let (fresh, evidenced, e) = w in
          reject_if->>-ok _ _ _ fresh.0
          ∙ reject_if->>-ok _ _ _ (ground (arith, evidenced.0, evidenced.1))
          ∙ from (fresh.1, evidenced.2, e),
    )

closed_patch :
    (a b c d : Bool)
    → ((a || b || not c || d) ≡ false) ↔ ((a ≡ false) × (b ≡ false) × (c ≡ true) × (d ≡ false))
closed_patch a b c d = (
  λ h. (ground arith, ground arith, ground arith, ground arith),
  λ w. ground (arith, w.0, w.1, w.2, w.3),
)

validate_patches_iff :
    (ids : BTreeSet AtomId) (patches : List PatchFragment)
    → (validate_patches ids patches ≡ ok tt) ↔ AllClosed ids patches
unfolding validate_patches for_each
validate_patches_iff ids [] = (λ h. tt, λ w. refl)
validate_patches_iff ids (p ∷ patches) =
    let (to, from) = validate_patches_iff ids patches in
    (
      λ h.
          let (first, rest) = >>-eq-ok _ _ h in
          let (path, atoms, within, base) = (closed_patch _ _ _ _).0 (reject_if-eq-ok _ _ first) in
          (path, atoms, within, base, to rest),
      λ w.
          let (path, atoms, within, base, others) = w in
          reject_if->>-ok _ _ _ ((closed_patch _ _ _ _).1 (path, atoms, within, base))
          ∙ from others,
    )

pub validate_reference_iff :
    (kind : SemanticObjectKind) (wrong_kind field : String) (reference : Option SemanticObjectRef)
    → (validate_reference kind wrong_kind field reference ≡ ok tt) ↔ IsReference kind reference
unfolding validate_reference
validate_reference_iff kind wrong_kind field none = (λ h. tt, λ w. refl)
validate_reference_iff kind wrong_kind field (some object) = (
  λ h.
      let (same, rest) = >>-eq-ok _ _ h in
      let passed = reject_if-eq-ok _ _ same in
      (not-false _ passed, (validate_object_ref_iff object field).0 rest),
  λ w. reject_if->>-ok _ _ _ (false-not _ w.0) ∙ (validate_object_ref_iff object field).1 w.1,
)

-- What makes a pull request fit to be projected.
pub record IsClosed (request : StackPullRequest) : Type 0 where
  pub version : request.schema_version ≡ 1
  pub base : is_empty request.base_commit ≡ false
  pub some_atom : is_empty request.atoms ≡ false
  pub some_evidence : is_empty request.evidence ≡ false
  pub intent : IsReference SemanticObjectKind.intent request.intent
  pub supersedes : IsReference SemanticObjectKind.stack_pull_request request.supersedes
  pub distinct : IsDistinct (atom_ids request.atoms)
  pub evidenced : AllEvidenced request.evidence request.atoms
  pub closed : AllClosed (collect (atom_ids request.atoms)) request.patches
  pub not_own_parent : contains request.id request.parents ≡ false
  pub not_own_dependency :
      any (λ dependency. nat_eq dependency.stack_pull_request request.id) request.dependencies
      ≡ false
  pub other_repositories :
      any (λ dependency. nat_eq dependency.repository request.repository) request.dependencies
      ≡ false

neither : (a b : Bool) → ((a || b) ≡ false) ↔ ((a ≡ false) × (b ≡ false))
neither a b = (λ h. (ground arith, ground arith), λ w. ground (arith, w.0, w.1))

module _ (request : StackPullRequest) where
  validate_pull_request_sound : validate_pull_request request ≡ ok tt → IsClosed request
  unfolding validate_pull_request
  validate_pull_request_sound h =
      let (version, h1) = >>-eq-ok _ _ h in
      let (base, h2) = >>-eq-ok _ _ h1 in
      let (filled, h3) = >>-eq-ok _ _ h2 in
      let (intent, h4) = >>-eq-ok _ _ h3 in
      let (supersedes, h5) = >>-eq-ok _ _ h4 in
      let (ids, atoms, h6) = >>=-eq-ok _ _ h5 in
      let (patches, h7) = >>-eq-ok _ _ h6 in
      let (own, other) = >>-eq-ok _ _ h7 in
      let (fresh, evidenced, same) = (validate_atoms_iff _ [] _ ids).0 atoms in
      let (some_atom, some_evidence) = (neither _ _).0 (reject_if-eq-ok _ _ filled) in
      let (not_own_parent, not_own_dependency) = (neither _ _).0 (reject_if-eq-ok _ _ own) in
      record {
        version = (validate_schema_version_iff _).0 version;
        base = (validate_hash_iff _ _).0 base;
        some_atom = some_atom;
        some_evidence = some_evidence;
        intent = (validate_reference_iff _ _ _ _).0 intent;
        supersedes = (validate_reference_iff _ _ _ _).0 supersedes;
        distinct = (IsFresh-nil_iff _).0 fresh;
        evidenced = evidenced;
        closed =
            subst (λ set. AllClosed set request.patches)
              (sym same ∙ sym (collect_lem (atom_ids request.atoms)))
              ((validate_patches_iff ids request.patches).0 patches);
        not_own_parent = not_own_parent;
        not_own_dependency = not_own_dependency;
        other_repositories = reject_if-eq-ok _ _ other;
      }

  validate_pull_request_total : IsClosed request → validate_pull_request request ≡ ok tt
  unfolding validate_pull_request
  validate_pull_request_total w =
      >>-ok _ _ ((validate_schema_version_iff _).1 w.version)
      ∙ >>-ok _ _ ((validate_hash_iff _ _).1 w.base)
      ∙ reject_if->>-ok _ _ _ ((neither _ _).1 (w.some_atom, w.some_evidence))
      ∙ >>-ok _ _ ((validate_reference_iff _ _ _ _).1 w.intent)
      ∙ >>-ok _ _ ((validate_reference_iff _ _ _ _).1 w.supersedes)
      ∙ >>=-ok _ _ (
          (validate_atoms_iff request.evidence [] request.atoms
              (collect (atom_ids request.atoms))).1
            ((IsFresh-nil_iff _).1 w.distinct, w.evidenced, sym (collect_lem _)))
      ∙ >>-ok _ _ ((validate_patches_iff _ _).1 w.closed)
      ∙ reject_if->>-ok _ _ _ ((neither _ _).1 (w.not_own_parent, w.not_own_dependency))
      ∙ reject_if-ok _ _ w.other_repositories

  -- A pull request is accepted exactly when it is closed: of the schema version, on a base commit, with
  -- atoms that are distinct and name captured events only, patches over these atoms and a base content,
  -- references of the right kinds, and no dependency on itself or inside its own repository.
  pub validate_pull_request_iff : (validate_pull_request request ≡ ok tt) ↔ IsClosed request
  validate_pull_request_iff = (validate_pull_request_sound, validate_pull_request_total)
