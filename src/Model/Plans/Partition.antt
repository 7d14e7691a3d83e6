-- ===== src/Model/Plans/Partition.antt =====
-- crates/orkia-model/src/lib.rs: the checks of the units and of the atom manifest in
-- `ReviewPlan::validate`.
use boop_orkia_cli.Prelude.{
  ◌≡◌, refl, sym, ap, ◌∙◌, ◌↔◌, Bool, true, false, not, ◌&&◌, List, [], ◌∷◌, flat_map, arith,
  is_empty, length, all, nat_eq, nat_eq_iff, nat_ord, Bool-cases, inl, inr, length-map, all-append,
  and_true, not-false, false-not, subst,
}
use boop_orkia_cli.Prelude.Sets.{
  BTreeSet, contains, insert, extend, collect, set_eq, IsDistinct, contains-collect, contains→all,
  collect_lem,
}
use boop_orkia_cli.Prelude.Sets.Sorted.{collect-IsSorted, set_eq→≡, set_eq-ext}
use boop_orkia_cli.Prelude.Sets.Fresh.{
  IsFresh, IsFresh-nil_iff, IsFresh-append, extend-append, length-collect_iff,
}
use boop_orkia_cli.Prelude.Maps.{keys}
use boop_orkia_cli.Errors.{
  ok, >>-eq-ok, >>=-eq-ok, reject_if-eq-ok, >>=-ok, reject_if->>-ok, reject_if-ok,
}
use boop_orkia_cli.Model.Ids.{AtomId, ReviewUnitId}
use boop_orkia_cli.Model.Plans.{
  ReviewUnit, ReviewPlan, unit_ids, atom_ids, collect_unit_ids, assign_atoms, assign_units,
  validate_manifest,
}

-- The atoms of all units, in the order of the plan.
abbrev pub assigned_atoms : List ReviewUnit → List AtomId
assigned_atoms units = flat_map (λ u. u.atoms) units

abbrev pub all_occupied : List ReviewUnit → Bool
all_occupied units = all (λ u. not (is_empty u.atoms)) units

pub collect_unit_ids-eq-ok :
    (ids : BTreeSet ReviewUnitId) (units : List ReviewUnit) {r : BTreeSet ReviewUnitId}
    → collect_unit_ids ids units ≡ ok r
    → (all_occupied units ≡ true) × IsFresh ids (unit_ids units) × (extend ids (unit_ids units) ≡ r)
unfolding collect_unit_ids extend
collect_unit_ids-eq-ok ids [] h = (refl, tt, ground arith)
collect_unit_ids-eq-ok ids (u ∷ units) h =
    let (first, rest) = >>-eq-ok _ _ h in
    let (occupied, fresh, e) = collect_unit_ids-eq-ok (insert u.id ids) units rest in
    let passed = reject_if-eq-ok _ _ first in
    (ground (arith, occupied, passed), (ground (arith, passed), fresh), e)

pub collect_unit_ids_total :
    (ids : BTreeSet ReviewUnitId) (units : List ReviewUnit)
    → all_occupied units ≡ true
    → IsFresh ids (unit_ids units)
    → collect_unit_ids ids units ≡ ok (extend ids (unit_ids units))
unfolding collect_unit_ids extend
collect_unit_ids_total ids [] o f = refl
collect_unit_ids_total ids (u ∷ units) o f =
    ground (arith, f.0, collect_unit_ids_total (insert u.id ids) units (ground (arith, o)) f.1)

abbrev AllIn : BTreeSet AtomId → List AtomId → Type 0
AllIn manifest atoms = all (λ a. contains a manifest) atoms ≡ true

assign_atoms-eq-ok :
    (manifest assigned : BTreeSet AtomId) (atoms : List AtomId) {r : BTreeSet AtomId}
    → assign_atoms manifest assigned atoms ≡ ok r
    → AllIn manifest atoms × IsFresh assigned atoms × (extend assigned atoms ≡ r)
unfolding assign_atoms extend
assign_atoms-eq-ok manifest assigned [] h = (refl, tt, ground arith)
assign_atoms-eq-ok manifest assigned (a ∷ atoms) h =
    let (first, rest) = >>-eq-ok _ _ h in
    let (known, fresh, e) = assign_atoms-eq-ok manifest (insert a assigned) atoms rest in
    let passed = reject_if-eq-ok _ _ first in
    (ground (arith, known, passed), (ground (arith, passed), fresh), e)

assign_atoms_total :
    (manifest assigned : BTreeSet AtomId) (atoms : List AtomId)
    → AllIn manifest atoms
    → IsFresh assigned atoms
    → assign_atoms manifest assigned atoms ≡ ok (extend assigned atoms)
unfolding assign_atoms extend
assign_atoms_total manifest assigned [] k f = refl
assign_atoms_total manifest assigned (a ∷ atoms) k f =
    ground
      (arith, k, f.0, assign_atoms_total manifest (insert a assigned) atoms (ground (arith, k)) f.1)

assign_units-eq-ok :
    (manifest assigned : BTreeSet AtomId) (units : List ReviewUnit) {r : BTreeSet AtomId}
    → assign_units manifest assigned units ≡ ok r
    → IsFresh assigned (assigned_atoms units) × (extend assigned (assigned_atoms units) ≡ r)
unfolding assign_units extend
assign_units-eq-ok manifest assigned [] h = (tt, ground arith)
assign_units-eq-ok manifest assigned (u ∷ units) h =
    let (next, first, rest) = >>=-eq-ok _ _ h in
    let (known, fresh, e) = assign_atoms-eq-ok manifest assigned u.atoms first in
    let (fresh', e') = assign_units-eq-ok manifest next units rest in
    (
      (IsFresh-append assigned u.atoms (assigned_atoms units)).1 (fresh, rw e fresh'),
      extend-append assigned u.atoms (assigned_atoms units) ∙ rw e e',
    )

assign_units_total :
    (manifest assigned : BTreeSet AtomId) (units : List ReviewUnit)
    → AllIn manifest (assigned_atoms units)
    → IsFresh assigned (assigned_atoms units)
    → assign_units manifest assigned units ≡ ok (extend assigned (assigned_atoms units))
unfolding assign_units
assign_units_total manifest assigned [] k f = unfold extend in refl
assign_units_total manifest assigned (u ∷ units) k f =
    let rest = assigned_atoms units in
    let (here, there) = (IsFresh-append assigned u.atoms rest).0 f in
    let (known, knowns) = and_true _ _ (sym (all-append _ u.atoms rest) ∙ k) in
    rw (assign_atoms_total manifest assigned u.atoms known here) (
      assign_units_total manifest (extend assigned u.atoms) units knowns there
      ∙ ap ok (sym (extend-append assigned u.atoms rest)))

-- The units split the manifest: no identity is listed twice, every atom of the manifest is assigned
-- to one unit and to it alone, and no other atom is; a path index, where there is one, is of the same
-- atoms.
pub record IsPartition (plan : ReviewPlan) : Type 0 where
  pub manifest_distinct : IsDistinct (atom_ids plan.atoms)
  pub assigned_once : IsDistinct (assigned_atoms plan.units)
  pub assigned :
      (a : AtomId) → contains a (assigned_atoms plan.units) ≡ contains a (atom_ids plan.atoms)
  pub indexed :
      is_empty plan.atom_paths ≡ false
      → (a : AtomId) → contains a (keys plan.atom_paths) ≡ contains a (atom_ids plan.atoms)

module _ (plan : ReviewPlan) where
  abbrev manifest : BTreeSet AtomId
  manifest = collect (atom_ids plan.atoms)

  length-manifest_iff :
      (nat_eq (length manifest) (length plan.atoms) ≡ true) ↔ IsDistinct (atom_ids plan.atoms)
  length-manifest_iff =
      let count = length-collect_iff (atom_ids plan.atoms) in
      (
        λ h. count.0 ((nat_eq_iff _ _).0 h ∙ sym (length-map (λ a. a.id) plan.atoms)),
        λ d. (nat_eq_iff _ _).1 (count.1 d ∙ length-map (λ a. a.id) plan.atoms),
      )

  collect-eq_iff :
      (xs ys : List AtomId)
      → (set_eq (collect xs) (collect ys) ≡ true) ↔ ((a : AtomId) → contains a xs ≡ contains a ys)
  collect-eq_iff xs ys = (
    λ h a. sym (contains-collect a xs) ∙ ap (contains a) (set_eq→≡ _ _ h) ∙ contains-collect a ys,
    λ same.
        set_eq-ext (collect xs) (collect ys) (collect-IsSorted xs) (collect-IsSorted ys)
          λ a. contains-collect a xs ∙ same a ∙ sym (contains-collect a ys),
  )

  paths_pass_iff :
      ((not (is_empty plan.atom_paths) && not (set_eq (collect (keys plan.atom_paths)) manifest))
        ≡ false)
      ↔ (is_empty plan.atom_paths ≡ false
          → (a : AtomId) → contains a (keys plan.atom_paths) ≡ contains a (atom_ids plan.atoms))
  paths_pass_iff =
      let same = collect-eq_iff (keys plan.atom_paths) (atom_ids plan.atoms) in
      (
        λ h e. same.0 (ground (arith, h, e)),
        λ h. elim (Bool-cases (is_empty plan.atom_paths)) [
          | inl e ↦ rw e
          | inr n ↦ rw (n, same.1 (h n))
        ],
      )

  pub validate_manifest_sound : validate_manifest plan ≡ ok tt → IsPartition plan
  unfolding validate_manifest
  validate_manifest_sound h =
      let (counted, h1) = >>-eq-ok _ _ h in
      let (assigned, filled, h2) = >>=-eq-ok _ _ h1 in
      let (covered, paths) = >>-eq-ok _ _ h2 in
      let (fresh, same) = assign_units-eq-ok manifest [] plan.units filled in
      record {
        manifest_distinct = length-manifest_iff.0 (not-false _ (reject_if-eq-ok _ _ counted));
        assigned_once = (IsFresh-nil_iff _).0 fresh;
        assigned = (collect-eq_iff (assigned_atoms plan.units) (atom_ids plan.atoms)).0 (
            subst (λ s. set_eq s manifest ≡ true)
              (sym (collect_lem (assigned_atoms plan.units) ∙ same))
              (not-false _ (reject_if-eq-ok _ _ covered)));
        indexed = paths_pass_iff.0 (reject_if-eq-ok _ _ paths);
      }

  pub validate_manifest_total : IsPartition plan → validate_manifest plan ≡ ok tt
  unfolding validate_manifest
  validate_manifest_total p =
      reject_if->>-ok _ _ _ (false-not _ (length-manifest_iff.1 p.manifest_distinct))
      ∙ >>=-ok _ _ (
          assign_units_total manifest [] plan.units known ((IsFresh-nil_iff _).1 p.assigned_once)
          ∙ ap ok (sym (collect_lem (assigned_atoms plan.units))))
      ∙ reject_if->>-ok _ _ _ (
          false-not _
            ((collect-eq_iff (assigned_atoms plan.units) (atom_ids plan.atoms)).1 p.assigned))
      ∙ reject_if-ok _ _ (paths_pass_iff.1 p.indexed)
    where
      known : AllIn manifest (assigned_atoms plan.units)
      known =
          contains→all _ (assigned_atoms plan.units)
            λ a m. contains-collect a (atom_ids plan.atoms) ∙ sym (p.assigned a) ∙ m
