-- ===== src/Review/Corrections.antt =====
-- crates/orkia-review/src/lib.rs: `apply_correction` and `set_status`. A revision is a 32-bit integer.
pub mod Atoms
pub mod Coverage
use boop_orkia_cli.Prelude.{
  ℕ, ◌+◌, ◌%◌, ◌^◌, Bool, true, false, not, ◌||◌, Option, none, some, List, [], ◌∷◌, ◌++◌, map,
  filter, flat_map, length, any, is_empty, nat_eq, ltb, min, nat_ord, if◌then◌else◌,
}
use boop_orkia_cli.Prelude.Sets.{BTreeSet, contains, insert, remove, extend, collect, set_eq}
use boop_orkia_cli.Prelude.Text.{Text, text, decimal}
use boop_orkia_cli.Errors.{Result, ok, invalid, not_found, reject_if, ok_or, ◌>>=◌, ◌>>◌}
use boop_orkia_cli.Model.Ids.{AtomId, Bytes, ReviewUnitId}
use boop_orkia_cli.Model.Plans.{ReviewUnit, PlanStatus, proposed, superseded, ReviewPlan}
use boop_orkia_cli.Review.Planning.{sort_units, deterministic_unit}

pub data ReviewerCorrection : Type 0 where
  merge : (units : BTreeSet ReviewUnitId) (reason : Text) → ReviewerCorrection
  split :
      (unit : ReviewUnitId) (groups : List (BTreeSet AtomId)) (reason : Text) → ReviewerCorrection

-- `iter().map(|u| u.confidence_milli).min().unwrap_or(0)`
abbrev pub least_confidence : List ReviewUnit → ℕ
least_confidence [] = 0
least_confidence (u ∷ []) = u.confidence_milli
least_confidence (u ∷ v ∷ us) = min u.confidence_milli (least_confidence (v ∷ us))

-- The redirection of the dependencies on merged units.
unfoldable pub redirect_merged : BTreeSet ReviewUnitId → ReviewUnitId → ReviewUnit → ReviewUnit
redirect_merged merged merged_id unit =
    if any (λ id. contains id merged) unit.depends_on
    then record unit {
      depends_on = insert merged_id (filter (λ id. not (contains id merged)) unit.depends_on);
    }
    else unit

-- The first unit with an identity, and the units around it.
unfoldable pub take_unit : ReviewUnitId → List ReviewUnit → Option (ReviewUnit × List ReviewUnit)
take_unit id [] = none
take_unit id (u ∷ us) =
    let rest : Option (ReviewUnit × List ReviewUnit) = elim (take_unit id us) [
      | none ↦ none
      | some (found, others) ↦ some (found, u ∷ others)
    ] in
    if nat_eq u.id id then some (u, us) else rest

-- The units that `groups.into_iter().enumerate()` pushes.
unfoldable pub group_units :
    (BTreeSet AtomId → ReviewUnitId) → ReviewUnit → ℕ → List (BTreeSet AtomId) → List ReviewUnit
group_units id_of original index [] = []
group_units id_of original index (atoms ∷ groups) =
    record {
      id = id_of atoms;
      title = original.title ++ (text " (" ++ (decimal (index + 1) ++ text ")"));
      atoms = atoms;
      depends_on = original.depends_on;
      confidence_milli = original.confidence_milli;
    }
    ∷ group_units id_of original (index + 1) groups

-- The redirection of the dependencies on a split unit.
unfoldable pub redirect_split : ReviewUnitId → List ReviewUnitId → ReviewUnit → ReviewUnit
redirect_split id new_ids unit =
    if contains id unit.depends_on
    then record unit { depends_on = extend (remove id unit.depends_on) new_ids }
    else unit

-- The units of a plan after the correction, not sorted yet.
module _ (sha256 : Bytes → Bytes) (uuid_text : ℕ → Text) where
  unfoldable pub merge_units : BTreeSet ReviewUnitId → List ReviewUnit → Result (List ReviewUnit)
  merge_units units all_units = do
    reject_if (ltb (length units) 2) (invalid (text "a merge needs at least two review units"))
    let selected = filter (λ u. contains u.id units) all_units
    reject_if (not (nat_eq (length selected) (length units)))
        (not_found (text "review unit for merge"))
    let atoms = collect (flat_map (λ u. u.atoms) selected)
    let merged_id = deterministic_unit sha256 uuid_text atoms
    let merged_unit : ReviewUnit = record {
      id = merged_id;
      title = text "Reviewer merged review units";
      atoms = atoms;
      depends_on =
          collect (filter (λ d. not (contains d units)) (flat_map (λ u. u.depends_on) selected));
      confidence_milli = least_confidence selected;
    }
    ok (
        map (redirect_merged units merged_id)
          (filter (λ u. not (contains u.id units)) all_units ++ merged_unit ∷ []))

  unfoldable pub split_unit :
      ReviewUnitId → List (BTreeSet AtomId) → List ReviewUnit → Result (List ReviewUnit)
  split_unit unit groups all_units = do
    found ← ok_or (take_unit unit all_units) (not_found (text "review unit for split"))
    reject_if
        (ltb (length groups) 2
          || any is_empty groups
          || not (set_eq (collect (flat_map (λ g. g) groups)) (found.0).atoms))
        (invalid (text "split groups must partition the original atoms"))
    let new_ids = map (deterministic_unit sha256 uuid_text) groups
    ok (
        map (redirect_split unit new_ids)
          (found.1 ++ group_units (deterministic_unit sha256 uuid_text) found.0 0 groups))

  -- The `match correction`.
  unfoldable pub corrected_units : ReviewerCorrection → List ReviewUnit → Result (List ReviewUnit)
  corrected_units (merge units reason) all_units = merge_units units all_units
  corrected_units (split unit groups reason) all_units = split_unit unit groups all_units

  -- `apply_correction`
  unfoldable pub apply_correction : ReviewPlan → ReviewerCorrection → Result ReviewPlan
  apply_correction plan correction = do
    units ← corrected_units correction plan.units
    ok (record plan {
      revision = (plan.revision + 1) % 2 ^ 32;
      status = proposed;
      units = sort_units units;
    })

-- `matches!(status, PlanStatus::Superseded)`
abbrev pub is_superseded : PlanStatus → Bool
is_superseded superseded = true
is_superseded _ = false

-- `set_status`
unfoldable pub set_status : ReviewPlan → PlanStatus → Result ReviewPlan
set_status plan status = do
  reject_if (is_superseded status)
      (invalid (text "use an explicit successor plan to mark a review plan superseded"))
  ok (record plan { revision = (plan.revision + 1) % 2 ^ 32; status = status })
