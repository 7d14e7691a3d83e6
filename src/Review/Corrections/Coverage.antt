-- ===== src/Review/Corrections/Coverage.antt =====
-- crates/orkia-review/src/lib.rs: the plans that `apply_correction` returns.
use boop_orkia_cli.Prelude.{
  ℕ, ◌+◌, ◌%◌, ◌^◌, ◌≡◌, refl, sym, ap, subst, ◌∙◌, Bool, true, false, not, ◌||◌, some, List, [],
  ◌∷◌, ◌++◌, arith, any, filter, flat_map, map, nat_ord, ltb, is_empty, length,
}
use boop_orkia_cli.Prelude.Sets.{BTreeSet, contains, collect, contains-append, contains-collect}
use boop_orkia_cli.Prelude.Sets.Sorted.{set_eq→≡}
use boop_orkia_cli.Errors.{ok_injective, ok, >>-eq-ok, >>=-eq-ok, reject_if-eq-ok, ok_or-eq-ok}
use boop_orkia_cli.Model.Ids.{AtomId, Bytes, ReviewUnitId}
use boop_orkia_cli.Prelude.Text.{Text}
use boop_orkia_cli.Model.Plans.{ReviewUnit, ReviewPlan, PlanStatus}
use boop_orkia_cli.Model.Plans.Partition.{assigned_atoms}
use boop_orkia_cli.Review.Planning.{deterministic_unit}
use boop_orkia_cli.Review.Corrections.{
  ReviewerCorrection, merge, split, redirect_merged, take_unit, group_units, redirect_split,
  merge_units, split_unit, corrected_units, apply_correction,
}
use boop_orkia_cli.Review.Corrections.Atoms.{
  contains-sort_units, map-atoms, redirect_merged-atoms, redirect_split-atoms, assigned-append,
  assigned-filter, Takes, take_unit-Takes, group_units-atoms,
}

-- The last test of a split.
covers : (a b c : Bool) → (a || b || not c) ≡ false → c ≡ true
covers a b c h = ground arith

-- A plan that a correction makes of another.
pub record IsRevision (plan next : ReviewPlan) : Type 0 where
  pub identity : next.id ≡ plan.id
  pub manifest : next.atoms ≡ plan.atoms
  pub revision : next.revision ≡ (plan.revision + 1) % 2 ^ 32
  pub status : next.status ≡ PlanStatus.proposed
  pub covered :
      (k : AtomId) → contains k (assigned_atoms next.units) ≡ contains k (assigned_atoms plan.units)

merged-atoms :
    (units : BTreeSet ReviewUnitId) (merged : ReviewUnit) (us : List ReviewUnit) (k : AtomId)
    → merged.atoms ≡ collect (assigned_atoms (filter (λ u. contains u.id units) us))
    → contains k (
        assigned_atoms (
          map
            (redirect_merged units merged.id)
            (filter (λ u. not (contains u.id units)) us ++ merged ∷ [])))
      ≡ contains k (assigned_atoms us)
unfolding contains
merged-atoms units merged us k h =
    let picked = λ (u : ReviewUnit). contains u.id units in
    let others = filter (λ (u : ReviewUnit). not (picked u)) us in
    ap (contains k) (
      map-atoms (redirect_merged units merged.id) (redirect_merged-atoms units merged.id)
        (others ++ merged ∷ []))
    ∙ ground (
      arith,
      assigned-append k others (merged ∷ []),
      contains-append k merged.atoms [],
      ap (contains k) h,
      contains-collect k (assigned_atoms (filter picked us)),
      assigned-filter k picked us,
    )

module _ (sha256 : Bytes → Bytes) (uuid_text : ℕ → Text) where
  merge_units-atoms :
      (units : BTreeSet ReviewUnitId) (us next : List ReviewUnit) (k : AtomId)
      → merge_units sha256 uuid_text units us ≡ ok next
      → contains k (assigned_atoms next) ≡ contains k (assigned_atoms us)
  unfolding merge_units
  merge_units-atoms units us next k h =
      let (enough, h1) = >>-eq-ok _ _ h in
      let (all_found, h2) = >>-eq-ok _ _ h1 in
      ap (λ l. contains k (assigned_atoms l)) (sym (ok_injective h2))
      ∙ merged-atoms units _ us k refl

  split-atoms :
      (unit : ReviewUnitId) (ids : List ReviewUnitId) (groups : List (BTreeSet AtomId))
      (us : List ReviewUnit) (found : ReviewUnit × List ReviewUnit) (k : AtomId)
      → take_unit unit us ≡ some found
      → collect (flat_map (λ g. g) groups) ≡ (found.0).atoms
      → contains k (
          assigned_atoms (
            map
              (redirect_split unit ids)
              (found.1 ++ group_units (deterministic_unit sha256 uuid_text) found.0 0 groups)))
        ≡ contains k (assigned_atoms us)
  split-atoms unit ids groups us found k taken same =
      let id_of = deterministic_unit sha256 uuid_text in
      let new = group_units id_of found.0 0 groups in
      ap (contains k)
        (map-atoms (redirect_split unit ids) (redirect_split-atoms unit ids) (found.1 ++ new))
      ∙ ground (
        arith,
        assigned-append k found.1 new,
        ap (contains k) (group_units-atoms id_of found.0 0 groups),
        contains-collect k (flat_map (λ g. g) groups),
        ap (contains k) same,
        subst (Takes k us) taken (take_unit-Takes unit us k),
      )

  split_unit-atoms :
      (unit : ReviewUnitId) (groups : List (BTreeSet AtomId)) (us next : List ReviewUnit)
      (k : AtomId)
      → split_unit sha256 uuid_text unit groups us ≡ ok next
      → contains k (assigned_atoms next) ≡ contains k (assigned_atoms us)
  unfolding split_unit
  split_unit-atoms unit groups us next k h =
      let (found, taken, h1) = >>=-eq-ok _ _ h in
      let (test, h2) = >>-eq-ok _ _ h1 in
      ap (λ l. contains k (assigned_atoms l)) (sym (ok_injective h2))
      ∙ split-atoms unit _ groups us found k (ok_or-eq-ok _ _ taken) (
          set_eq→≡ _ _
            (covers (ltb (length groups) 2) (any is_empty groups) _ (reject_if-eq-ok _ _ test)))

  corrected_units-atoms :
      (correction : ReviewerCorrection) (us next : List ReviewUnit) (k : AtomId)
      → corrected_units sha256 uuid_text correction us ≡ ok next
      → contains k (assigned_atoms next) ≡ contains k (assigned_atoms us)
  unfolding corrected_units
  corrected_units-atoms (merge units reason) us next k h = merge_units-atoms units us next k h
  corrected_units-atoms (split unit groups reason) us next k h =
      split_unit-atoms unit groups us next k h

  -- An accepted correction is a proposed revision of the same plan: the identity and the manifest of atoms
  -- are kept, the revision is the next 32-bit integer, and its units hold the same atoms as before.
  pub apply_correction-IsRevision :
      (plan : ReviewPlan) (correction : ReviewerCorrection) (next : ReviewPlan)
      → apply_correction sha256 uuid_text plan correction ≡ ok next
      → IsRevision plan next
  unfolding apply_correction
  apply_correction-IsRevision plan correction next h =
      let (units, corrected, e) = >>=-eq-ok _ _ h in
      subst (IsRevision plan) (ok_injective e) (record {
        identity = refl;
        manifest = refl;
        revision = refl;
        status = refl;
        covered = λ k.
            contains-sort_units k units
            ∙ corrected_units-atoms correction plan.units units k corrected;
      })
