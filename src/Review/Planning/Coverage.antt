-- ===== src/Review/Planning/Coverage.antt =====
-- crates/orkia-review/src/lib.rs: the atoms of the units that `plan` makes.
use boop_orkia_cli.Prelude.{
  ℕ, zero, suc, ◌+◌, ◌≡◌, refl, ap, ◌∙◌, Bool, false, not, ◌&&◌, ◌||◌, List, [], ◌∷◌, ◌++◌, arith,
  foldl, nat_eq, nat_eq_iff, nat_ord, ltb, Bool-cases, Option-cases, inl, inr, length,
  if◌then◌else◌,
}
use boop_orkia_cli.Prelude.Sets.{BTreeSet, contains, collect, IsDistinct, contains-collect}
use boop_orkia_cli.Prelude.Sets.Sorted.{collect-IsSorted, IsSorted→IsDistinct}
use boop_orkia_cli.Prelude.Maps.{BTreeMap, lookup, collect_map}
use boop_orkia_cli.Model.Ids.{AtomId, Bytes, ReviewUnitId}
use boop_orkia_cli.Prelude.Text.{Text}
use boop_orkia_cli.Model.Atoms.{AtomDependency}
use boop_orkia_cli.Model.Plans.{ReviewUnit, atom_ids}
use boop_orkia_cli.Model.Plans.Partition.{assigned_atoms}
use boop_orkia_cli.Review.Components.{confidence, hard_components}
use boop_orkia_cli.Review.Components.Partition.{atoms_of}
use boop_orkia_cli.Review.Components.Hard.{hard_components-AreHardComponents}
use boop_orkia_cli.Review.Planning.{
  PlanningInput, place_unit, sort_units, indexed_atoms, get_elem?, depend_at, insert_dependency,
  orders_units, relate, one_unit_plan, component_units, split_plan, plan,
}

-- How often an atom stands in a list.
unfoldable pub occurrences : AtomId → List AtomId → ℕ
occurrences k [] = 0
occurrences k (x ∷ xs) = (if nat_eq k x then 1 else 0) + occurrences k xs

pub occurrences-append :
    (k : AtomId) (xs ys : List AtomId)
    → occurrences k (xs ++ ys) ≡ occurrences k xs + occurrences k ys
unfolding occurrences
occurrences-append k [] ys = omega arith
occurrences-append k (x ∷ xs) ys = ground (arith, occurrences-append k xs ys)

occurrences-absent : (k : AtomId) (xs : List AtomId) → contains k xs ≡ false → occurrences k xs ≡ 0
unfolding occurrences contains
occurrences-absent k [] h = refl
occurrences-absent k (x ∷ xs) h = ground (arith, occurrences-absent k xs)

-- Among distinct atoms each occurs once.
pub occurrences-distinct :
    (k : AtomId) (xs : List AtomId)
    → IsDistinct xs
    → occurrences k xs ≡ (if contains k xs then 1 else 0)
unfolding occurrences contains
occurrences-distinct k [] d = refl
occurrences-distinct k (x ∷ xs) d = elim (Bool-cases (nat_eq k x)) [
  | inl e ↦ let same = (nat_eq_iff k x).0 e in ground (arith, e, same, d.0, occurrences-absent k xs)
  | inr n ↦ ground (arith, n, occurrences-distinct k xs d.1)
]

occurrences-place_unit :
    (k : AtomId) (u : ReviewUnit) (us : List ReviewUnit)
    → occurrences k (assigned_atoms (place_unit u us))
      ≡ occurrences k u.atoms + occurrences k (assigned_atoms us)
unfolding place_unit
occurrences-place_unit k u [] = occurrences-append k u.atoms []
occurrences-place_unit k u (v ∷ vs) = elim (Bool-cases (ltb v.id u.id)) [
  | inl e ↦ rw e (
      omega (
        arith,
        occurrences-append k v.atoms (assigned_atoms (place_unit u vs)),
        occurrences-append k v.atoms (assigned_atoms vs),
        occurrences-place_unit k u vs,
      ))
  | inr n ↦ rw n (occurrences-append k u.atoms (v.atoms ++ assigned_atoms vs))
]

pub occurrences-sort_units :
    (k : AtomId) (us : List ReviewUnit)
    → occurrences k (assigned_atoms (sort_units us)) ≡ occurrences k (assigned_atoms us)
unfolding sort_units
occurrences-sort_units k [] = refl
occurrences-sort_units k (u ∷ us) = omega (
  arith,
  occurrences-place_unit k u (sort_units us),
  occurrences-sort_units k us,
  occurrences-append k u.atoms (assigned_atoms us),
)

depend_at-atoms :
    (us : List ReviewUnit) (index : ℕ) (id : ReviewUnitId)
    → assigned_atoms (depend_at us index id) ≡ assigned_atoms us
unfolding depend_at
depend_at-atoms [] index id = refl
depend_at-atoms (u ∷ us) zero id = refl
depend_at-atoms (u ∷ us) (suc index) id = ap (λ l. u.atoms ++ l) (depend_at-atoms us index id)

insert_dependency-atoms :
    (us : List ReviewUnit) (from to : ℕ)
    → assigned_atoms (insert_dependency us from to) ≡ assigned_atoms us
unfolding insert_dependency
insert_dependency-atoms us from to = elim (Option-cases (get_elem? us to)) [
  | inl e ↦ rw (insert_dependency, e)
  | inr (u, e) ↦ rw (insert_dependency, e) (depend_at-atoms us from u.id)
]

relate-atoms :
    (indices : BTreeMap AtomId ℕ) (us : List ReviewUnit) (d : AtomDependency)
    → assigned_atoms (relate indices us d) ≡ assigned_atoms us
unfolding relate
relate-atoms indices us d = elim (Option-cases (lookup d.from indices)) [
  | inl e ↦ rw (relate, e)
  | inr (from, e) ↦ elim (Option-cases (lookup d.to indices)) [
    | inl g ↦ rw (relate, e, g)
    | inr (to, g) ↦ elim (Bool-cases (not (nat_eq from to) && orders_units d.kind)) [
      | inl b ↦ rw (relate, e, g, b) (insert_dependency-atoms us from to)
      | inr b ↦ rw (relate, e, g, b)
    ]
  ]
]

foldl-atoms :
    (indices : BTreeMap AtomId ℕ) (us : List ReviewUnit) (ds : List AtomDependency)
    → assigned_atoms (foldl (relate indices) us ds) ≡ assigned_atoms us
foldl-atoms indices us [] = refl
foldl-atoms indices us (d ∷ ds) =
    foldl-atoms indices (relate indices us d) ds ∙ relate-atoms indices us d

module _ (sha256 : Bytes → Bytes) (uuid_text : ℕ → Text) where
  component_units-atoms :
      (input : PlanningInput) (level : ℕ) (parts : List (BTreeSet AtomId))
      → assigned_atoms (component_units sha256 uuid_text input level parts) ≡ atoms_of parts
  unfolding component_units
  component_units-atoms input level [] = refl
  component_units-atoms input level (p ∷ parts) =
      ap (λ l. p ++ l) (component_units-atoms input level parts)

  split_plan-occurrences :
      (input : PlanningInput) (level : ℕ) (k : AtomId)
      → occurrences k (assigned_atoms (split_plan sha256 uuid_text input level).units)
        ≡ (if contains k (atom_ids input.atoms) then 1 else 0)
  unfolding split_plan
  split_plan-occurrences input level k =
      let parts = hard_components input.atoms input.dependencies in
      let right = hard_components-AreHardComponents input.atoms input.dependencies in
      let indices = collect_map (indexed_atoms 0 parts) in
      let units = component_units sha256 uuid_text input level parts in
      occurrences-sort_units k (foldl (relate indices) units input.dependencies)
      ∙ ap (occurrences k)
          (foldl-atoms indices units input.dependencies ∙ component_units-atoms input level parts)
      ∙ occurrences-distinct k (atoms_of parts) right.once
      ∙ ap (λ (b : Bool). if b then 1 else 0) (right.cover k)

  one_unit_plan-occurrences :
      (input : PlanningInput) (level : ℕ) (k : AtomId)
      → occurrences k (assigned_atoms (one_unit_plan sha256 uuid_text input level).units)
        ≡ (if contains k (atom_ids input.atoms) then 1 else 0)
  unfolding one_unit_plan occurrences
  one_unit_plan-occurrences input level k =
      let ids = collect (atom_ids input.atoms) in
      occurrences-append k ids []
      ∙ omega (arith, occurrences-distinct k ids (IsSorted→IsDistinct ids (collect-IsSorted _)))
      ∙ ap (λ (b : Bool). if b then 1 else 0) (contains-collect k (atom_ids input.atoms))

  -- Whatever the coverage and the confidence, the units of a plan hold each atom of the input exactly
  -- once, and no other atom.
  pub plan-occurrences :
      (input : PlanningInput) (k : AtomId)
      → occurrences k (assigned_atoms (plan sha256 uuid_text input).units)
        ≡ (if contains k (atom_ids input.atoms) then 1 else 0)
  unfolding plan
  plan-occurrences input k =
      let level = confidence input.dependencies (length input.atoms) in
      elim (Bool-cases (
        ltb input.coverage_milli input.minimum_coverage_milli
        || ltb level input.minimum_confidence_milli)) [
          | inl e ↦ rw (plan, e) (one_unit_plan-occurrences input level k)
          | inr n ↦ rw (plan, n) (split_plan-occurrences input level k)
        ]
