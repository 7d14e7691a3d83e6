-- ===== src/Model/Plans.antt =====
-- crates/orkia-model/src/lib.rs: review plans and `ReviewPlan::validate`.
pub mod Partition
pub mod Dependencies
pub mod WellFormed
use boop_orkia_cli.Prelude.{
  ℕ, ◌≡◌, Bool, true, false, not, ◌&&◌, ◌||◌, Option, none, some, List, [], ◌∷◌, ◌++◌, map, arith,
  is_empty, length, all, any, filter, nat_eq, nat_eq_iff, ltb, nat_ord, if◌then◌else◌, Bool-cases,
  inl, inr,
}
use boop_orkia_cli.Prelude.Sets.{BTreeSet, contains, insert, collect, set_eq, is_subset}
use boop_orkia_cli.Prelude.Maps.{BTreeMap, keys}
use boop_orkia_cli.Prelude.Text.{Text, text, is_ascii_hexdigit}
use boop_orkia_cli.Errors.{
  Result, ok, err, invalid, reject_if, ok_or, for_each, if_some, ◌>>=◌, ◌>>◌,
}
use boop_orkia_cli.ReadyLoop.{ready_order}
use boop_orkia_cli.Model.Ids.{AtomId, EventId, PlanId, ReviewUnitId}
use boop_orkia_cli.Model.Objects.{Hash, validate_schema_version, validate_hash}
use boop_orkia_cli.Model.Atoms.{ChangeAtom}

pub record ReviewUnit : Type 0 where
  pub id : ReviewUnitId
  pub title : Text
  pub atoms : BTreeSet AtomId
  pub depends_on : BTreeSet ReviewUnitId
  pub confidence_milli : ℕ

pub data PlanStatus : Type 0 where
  proposed approved changes_requested superseded : PlanStatus

pub record ReviewPlan : Type 0 where
  pub schema_version : ℕ
  pub id : PlanId
  pub revision : ℕ
  pub source_checkpoint : Text
  pub policy_digest : Option Hash
  pub units : List ReviewUnit
  pub atom_paths : BTreeMap AtomId Text
  pub atoms : List ChangeAtom
  pub coverage_milli : ℕ
  pub status : PlanStatus
  pub created_from : BTreeSet EventId

abbrev pub unit_ids : List ReviewUnit → List ReviewUnitId
unit_ids units = map (λ u. u.id) units

abbrev pub atom_ids : List ChangeAtom → List AtomId
atom_ids atoms = map (λ a. a.id) atoms

-- The loop that fills `ids`.
unfoldable pub collect_unit_ids :
    BTreeSet ReviewUnitId → List ReviewUnit → Result (BTreeSet ReviewUnitId)
collect_unit_ids ids [] = ok ids
collect_unit_ids ids (unit ∷ units) = do
  reject_if (is_empty unit.atoms || contains unit.id ids)
      (invalid (text "review plan units must be non-empty and have unique IDs"))
  collect_unit_ids (insert unit.id ids) units

-- The inner loop that fills `assigned`, over the atoms of one unit.
unfoldable pub assign_atoms :
    BTreeSet AtomId → BTreeSet AtomId → List AtomId → Result (BTreeSet AtomId)
assign_atoms manifest assigned [] = ok assigned
assign_atoms manifest assigned (atom ∷ atoms) = do
  reject_if (not (contains atom manifest) || contains atom assigned)
      (invalid (text "review plan units must partition the atom manifest"))
  assign_atoms manifest (insert atom assigned) atoms

unfoldable pub assign_units :
    BTreeSet AtomId → BTreeSet AtomId → List ReviewUnit → Result (BTreeSet AtomId)
assign_units manifest assigned [] = ok assigned
assign_units manifest assigned (unit ∷ units) = do
  assigned' ← assign_atoms manifest assigned unit.atoms
  assign_units manifest assigned' units

-- The body of `if !self.atoms.is_empty() { … }`.
unfoldable pub validate_manifest : ReviewPlan → Result (Unit {0})
validate_manifest plan = do
  let manifest = collect (atom_ids plan.atoms)
  reject_if (not (nat_eq (length manifest) (length plan.atoms)))
      (invalid (text "review plan atom manifest contains duplicate IDs"))
  assigned ← assign_units manifest [] plan.units
  reject_if (not (set_eq assigned manifest))
      (invalid (text "review plan units must cover every atom in the manifest"))
  reject_if
      (not (is_empty plan.atom_paths) && not (set_eq (collect (keys plan.atom_paths)) manifest))
      (invalid (text "review plan atom paths must match the atom manifest"))

-- The loop that rejects dangling edges.
unfoldable pub validate_dependency_closure :
    BTreeSet ReviewUnitId → List ReviewUnit → Result (Unit {0})
validate_dependency_closure ids units =
    for_each
      (λ unit.
        reject_if
          (contains unit.id unit.depends_on
            || any (λ dependency. not (contains dependency ids)) unit.depends_on)
          (invalid (text "review plan dependencies must be closed and acyclic")))
      units

-- The units that remain and whose dependencies are complete, in the order of the plan.
unfoldable pub ready_units :
    List ReviewUnit → BTreeSet ReviewUnitId → BTreeSet ReviewUnitId → List ReviewUnitId
ready_units units remaining complete =
    map (λ u. u.id)
      (filter (λ u. contains u.id remaining && all (λ d. contains d complete) u.depends_on) units)

pub ready_units_remaining :
    (units : List ReviewUnit) (remaining complete : BTreeSet ReviewUnitId) (id : ReviewUnitId)
    → contains id (ready_units units remaining complete) ≡ true
    → contains id remaining ≡ true
unfolding ready_units contains
ready_units_remaining [] remaining complete id h = cc
ready_units_remaining (u ∷ units) remaining complete id h =
    ground (arith, ready_units_remaining units remaining complete id, nat_eq_iff id u.id)

-- `ReviewPlan::validate`
unfoldable pub validate_plan : ReviewPlan → Result (Unit {0})
validate_plan plan = do
  validate_schema_version plan.schema_version
  validate_hash plan.source_checkpoint "review plan checkpoint"
  if_some plan.policy_digest (λ digest.
      reject_if (not (nat_eq (length digest) 64) || not (all is_ascii_hexdigit digest))
        (invalid (text "review plan policy digest must be a SHA-256 hexadecimal value")))
  reject_if (ltb 1000 plan.coverage_milli)
      (invalid (text "review plan coverage cannot exceed 1000‰"))
  reject_if (is_empty plan.units)
      (invalid (text "review plan must contain at least one review unit"))
  ids ← collect_unit_ids [] plan.units
  if not (is_empty plan.atoms) then validate_manifest plan else ok tt
  validate_dependency_closure ids plan.units
  order ←
      ok_or (ready_order (ready_units plan.units) (ready_units_remaining plan.units) ids)
        (invalid (text "review plan dependencies must be acyclic"))
  ok tt
