-- ===== src/Model/Plans/WellFormed.antt =====
-- crates/orkia-model/src/lib.rs: the whole of `ReviewPlan::validate`.
use boop_orkia_cli.Prelude.{
  ℕ, ◌≤◌, ◌≡◌, refl, sym, subst, ◌∙◌, ◌↔◌, true, false, not, ◌||◌, Option, none, some, List, [],
  arith, is_empty, length, all, nat_eq, nat_eq_iff, ltb, nat_ord, Bool-cases, inl, inr,
  if◌then◌else◌,
}
use boop_orkia_cli.Prelude.Sets.{BTreeSet, position, IsSorted, IsDistinct}
use boop_orkia_cli.Prelude.Sets.Sorted.{extend-IsSorted}
use boop_orkia_cli.Prelude.Sets.Fresh.{IsFresh-nil_iff}
use boop_orkia_cli.Prelude.Text.{is_ascii_hexdigit}
use boop_orkia_cli.Errors.{
  OrkiaError, Result, ok, reject_if, >>-eq-ok, >>=-eq-ok, reject_if-eq-ok, >>=-ok, >>-ok,
  reject_if->>-ok, reject_if-ok, ok_or, ok_or-eq-ok, if_some, ◌>>=◌,
}
use boop_orkia_cli.ReadyLoop.{ready_order}
use boop_orkia_cli.ReadyLoop.Acyclic.{IsRanked, ready_order_complete, ready_order-IsRanked}
use boop_orkia_cli.Model.Ids.{ReviewUnitId}
use boop_orkia_cli.Model.Objects.{validate_schema_version_iff, validate_hash_iff}
use boop_orkia_cli.Model.Plans.Dependencies.{
  IsAcyclic, ids, contains-ids, depends_on, ready_units-SelectsReady, closure_total,
}
use boop_orkia_cli.Model.Plans.{
  ReviewUnit, ReviewPlan, unit_ids, validate_manifest, ready_units, ready_units_remaining,
  validate_plan,
}
use boop_orkia_cli.Model.Plans.Partition.{
  all_occupied, collect_unit_ids-eq-ok, collect_unit_ids_total, IsPartition,
  validate_manifest_sound, validate_manifest_total,
}

abbrev IsDigest : Option (List ℕ) → Type 0
IsDigest none = Unit
IsDigest (some digest) = (length digest ≡ 64) × (all is_ascii_hexdigit digest ≡ true)

-- The plans that are safe to project: of this schema, measured, with units that are not empty, have
-- identities of their own, partition the manifest of atoms where there is one, and depend on each
-- other without a gap or a cycle.
pub record IsWellFormed (plan : ReviewPlan) : Type 0 where
  pub version : plan.schema_version ≡ 1
  pub checkpoint : is_empty plan.source_checkpoint ≡ false
  pub digest : IsDigest plan.policy_digest
  pub coverage : plan.coverage_milli ≤ 1000
  pub some_unit : is_empty plan.units ≡ false
  pub occupied : all_occupied plan.units ≡ true
  pub distinct : IsDistinct (unit_ids plan.units)
  pub partition : is_empty plan.atoms ≡ false → IsPartition plan
  pub acyclic : IsAcyclic plan.units

IsDigest-passes_iff :
    (digest : Option (List ℕ)) (e : OrkiaError)
    → (if_some digest
          (λ text. reject_if (not (nat_eq (length text) 64) || not (all is_ascii_hexdigit text)) e)
        ≡ ok tt)
      ↔ IsDigest digest
IsDigest-passes_iff none e = (λ h. tt, λ d. refl)
IsDigest-passes_iff (some text) e = (
  λ h.
      let passed = reject_if-eq-ok _ _ h in
      (ground (arith, passed, nat_eq_iff (length text) 64), ground (arith, passed)),
  λ d. reject_if-ok _ _ (ground (arith, d.0, d.1, nat_eq_iff (length text) 64)),
)

found_passes :
    {A : Type 0} (o : Option A) (e : OrkiaError) {a : A}
    → o ≡ some a
    → ◌≡◌ {A = Result (Unit {0})} (ok_or o e >>= λ _. ok tt) (ok tt)
found_passes o e h = rw h

module _ (units : List ReviewUnit) (d : IsDistinct (unit_ids units)) where
  abbrev loop : BTreeSet ReviewUnitId → Option (List ReviewUnitId)
  loop known = ready_order (ready_units units) (ready_units_remaining units) known

  IsSorted-ids : IsSorted (ids units d)
  IsSorted-ids = extend-IsSorted [] (unit_ids units) tt

  -- The order that the loop finds ranks the units.
  order-IsAcyclic : (l : List ReviewUnitId) → loop (ids units d) ≡ some l → IsAcyclic units
  order-IsAcyclic l found = (
    λ k. position k l,
    λ k j m jm.
        let (known, below) =
          ready_order-IsRanked (ready_units units) (ready_units_remaining units) (depends_on units)
            (ids units d) (ready_units-SelectsReady units d) IsSorted-ids l found k j
            (contains-ids units d k ∙ m) jm in
        (sym (contains-ids units d j) ∙ known, below),
  )

  abbrev IsRankedByIds : (ReviewUnitId → ℕ) → Type 0
  IsRankedByIds rank = IsRanked (depends_on units) (ids units d) rank

  ranked_by_ids :
      (rank : ReviewUnitId → ℕ)
      → IsRanked (depends_on units) (unit_ids units) rank
      → IsRankedByIds rank
  ranked_by_ids rank ranked k j m jm =
      let (known, below) = ranked k j (sym (contains-ids units d k) ∙ m) jm in
      (contains-ids units d j ∙ known, below)

  acyclic_order : IsAcyclic units → (l : List ReviewUnitId) × (loop (ids units d) ≡ some l)
  acyclic_order (rank, ranked) =
      ready_order_complete (ready_units units) (ready_units_remaining units) (depends_on units)
        (ids units d) (ready_units-SelectsReady units d) rank IsSorted-ids
        (ranked_by_ids rank ranked)

module _ (plan : ReviewPlan) where
  manifest_passes_iff :
      ((if not (is_empty plan.atoms) then validate_manifest plan else ok tt) ≡ ok tt)
      ↔ (is_empty plan.atoms ≡ false → IsPartition plan)
  manifest_passes_iff = (
    λ h e. validate_manifest_sound plan (rw e at h),
    λ p. elim (Bool-cases (is_empty plan.atoms)) [
      | inl e ↦ rw e
      | inr e ↦ rw e (validate_manifest_total plan (p e))
    ],
  )

  at_most_1000 : ltb 1000 plan.coverage_milli ≡ false → plan.coverage_milli ≤ 1000
  at_most_1000 h = ground arith

  -- Acceptance gives every clause of well-formedness.
  validate_plan_sound : validate_plan plan ≡ ok tt → IsWellFormed plan
  unfolding validate_plan
  validate_plan_sound h =
      let (version, h1) = >>-eq-ok _ _ h in
      let (checkpoint, h2) = >>-eq-ok _ _ h1 in
      let (digest, h3) = >>-eq-ok _ _ h2 in
      let (coverage, h4) = >>-eq-ok _ _ h3 in
      let (some_unit, h5) = >>-eq-ok _ _ h4 in
      let (known, filled, h6) = >>=-eq-ok _ _ h5 in
      let (partition, h7) = >>-eq-ok _ _ h6 in
      let (closed, h8) = >>-eq-ok _ _ h7 in
      let (order, found, h9) = >>=-eq-ok _ _ h8 in
      let (occupied, fresh, same) = collect_unit_ids-eq-ok [] plan.units filled in
      let distinct = (IsFresh-nil_iff (unit_ids plan.units)).0 fresh in
      record {
        version = (validate_schema_version_iff _).0 version;
        checkpoint = (validate_hash_iff _ _).0 checkpoint;
        digest = (IsDigest-passes_iff _ _).0 digest;
        coverage = at_most_1000 (reject_if-eq-ok _ _ coverage);
        some_unit = reject_if-eq-ok _ _ some_unit;
        occupied = occupied;
        distinct = distinct;
        partition = manifest_passes_iff.0 partition;
        acyclic = order-IsAcyclic plan.units distinct order (
            subst (λ set. loop plan.units distinct set ≡ some order) (sym same)
              (ok_or-eq-ok _ _ found));
      }

  -- A well-formed plan passes every check.
  validate_plan_total : IsWellFormed plan → validate_plan plan ≡ ok tt
  unfolding validate_plan
  validate_plan_total w =
      let (rank, ranked) = w.acyclic in
      let (l, found) = acyclic_order plan.units w.distinct w.acyclic in
      let edge = ranked_by_ids plan.units w.distinct rank ranked in
      >>-ok _ _ ((validate_schema_version_iff _).1 w.version)
      ∙ >>-ok _ _ ((validate_hash_iff _ _).1 w.checkpoint)
      ∙ >>-ok _ _ ((IsDigest-passes_iff _ _).1 w.digest)
      ∙ reject_if->>-ok _ _ _ (ground (arith, w.coverage))
      ∙ reject_if->>-ok _ _ _ w.some_unit
      ∙ >>=-ok _ _ (
          collect_unit_ids_total [] plan.units w.occupied
            ((IsFresh-nil_iff (unit_ids plan.units)).1 w.distinct))
      ∙ >>-ok _ _ (manifest_passes_iff.1 w.partition)
      ∙ >>-ok _ _ (
          closure_total (ids plan.units w.distinct) rank plan.units w.distinct
            (λ k j m jm. edge k j (contains-ids plan.units w.distinct k ∙ m) jm))
      ∙ found_passes (loop plan.units w.distinct (ids plan.units w.distinct)) _ found

  -- A review plan is accepted exactly when it is well formed.
  pub validate_plan_iff : (validate_plan plan ≡ ok tt) ↔ IsWellFormed plan
  validate_plan_iff = (validate_plan_sound, validate_plan_total)
