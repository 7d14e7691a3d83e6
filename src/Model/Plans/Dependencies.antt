-- ===== src/Model/Plans/Dependencies.antt =====
-- crates/orkia-model/src/lib.rs: the checks of the dependencies between units in
-- `ReviewPlan::validate`.
use boop_orkia_cli.Prelude.{
  ℕ, ◌<◌, ◌≡◌, refl, ◌∙◌, true, false, not, ◌&&◌, ◌||◌, List, [], ◌∷◌, arith, all, any, nat_eq,
  nat_eq_iff, nat_ord, Bool-cases, inl, inr, if◌then◌else◌,
}
use boop_orkia_cli.Prelude.Sets.{
  BTreeSet, contains, extend, IsDistinct, contains-extend, contains-head, contains-tail,
  contains→any,
}
use boop_orkia_cli.Errors.{ok, for_each, reject_if->>-ok}
use boop_orkia_cli.ReadyLoop.Invariant.{SelectsReady}
use boop_orkia_cli.ReadyLoop.Acyclic.{IsRanked}
use boop_orkia_cli.Model.Ids.{ReviewUnitId}
use boop_orkia_cli.Model.Plans.{ReviewUnit, unit_ids, validate_dependency_closure, ready_units}

-- The dependencies of the unit with an identity.
unfoldable pub depends_on : List ReviewUnit → ReviewUnitId → List ReviewUnitId
depends_on [] id = []
depends_on (u ∷ units) id =
    let rest = depends_on units id in if nat_eq id u.id then u.depends_on else rest

ready_units-absent :
    (units : List ReviewUnit) (remaining complete : BTreeSet ReviewUnitId) (id : ReviewUnitId)
    → contains id (unit_ids units) ≡ false
    → contains id (ready_units units remaining complete) ≡ false
unfolding ready_units contains
ready_units-absent [] remaining complete id h = refl
ready_units-absent (u ∷ units) remaining complete id h =
    ground (arith, ready_units-absent units remaining complete id, h)

contains-ready_units :
    (units : List ReviewUnit) (remaining complete : BTreeSet ReviewUnitId) (id : ReviewUnitId)
    → IsDistinct (unit_ids units)
    → contains id (unit_ids units) ≡ true
    → contains id (ready_units units remaining complete)
      ≡ (contains id remaining && all (λ d. contains d complete) (depends_on units id))
unfolding ready_units contains depends_on
contains-ready_units [] remaining complete id d m = cc
contains-ready_units (u ∷ units) remaining complete id d m = elim (Bool-cases (nat_eq id u.id)) [
  | inl e ↦
      let same = (nat_eq_iff id u.id).0 e in
      ground (
        arith,
        same,
        ready_units-absent units remaining complete id,
        ready_units-absent units remaining complete u.id,
        d.0,
      )
  | inr n ↦ ground (arith, n, contains-ready_units units remaining complete id d.1 (ground arith))
]

ready_units-IsDistinct :
    (units : List ReviewUnit) (remaining complete : BTreeSet ReviewUnitId)
    → IsDistinct (unit_ids units)
    → IsDistinct (ready_units units remaining complete)
unfolding ready_units
ready_units-IsDistinct [] remaining complete d = tt
ready_units-IsDistinct (u ∷ units) remaining complete d =
    elim (Bool-cases (contains u.id remaining && all (λ d. contains d complete) u.depends_on)) [
      | inl e ↦ rw e (
        ready_units-absent units remaining complete u.id d.0,
        ready_units-IsDistinct units remaining complete d.1,
      )
      | inr n ↦ rw n (ready_units-IsDistinct units remaining complete d.1)
    ]

module _ (units : List ReviewUnit) (d : IsDistinct (unit_ids units)) where
  abbrev pub ids : BTreeSet ReviewUnitId
  ids = extend [] (unit_ids units)

  pub contains-ids : (id : ReviewUnitId) → contains id ids ≡ contains id (unit_ids units)
  unfolding contains
  contains-ids id = contains-extend id [] (unit_ids units)

  pub ready_units-SelectsReady : SelectsReady (depends_on units) ids (ready_units units)
  ready_units-SelectsReady = record {
    once = λ r c s. ready_units-IsDistinct units r c d;
    exactly = λ r c known k. elim (Bool-cases (contains k (unit_ids units))) [
      | inl m ↦ contains-ready_units units r c k d m
      | inr n ↦ ground (arith, ready_units-absent units r c k n, known k, contains-ids k, n)
    ];
  }

-- The dependencies are closed and acyclic: each stands below its unit in some ranking.
abbrev pub IsAcyclic : List ReviewUnit → Type 0
IsAcyclic units = (rank : ReviewUnitId → ℕ) × IsRanked (depends_on units) (unit_ids units) rank

-- A ranked edge neither loops nor dangles.
pub closure_total :
    (known : BTreeSet ReviewUnitId) (rank : ReviewUnitId → ℕ) (units : List ReviewUnit)
    → IsDistinct (unit_ids units)
    → ((k d : ReviewUnitId)
        → contains k (unit_ids units) ≡ true
        → contains d (depends_on units k) ≡ true
        → (contains d known ≡ true) × (rank d < rank k))
    → validate_dependency_closure known units ≡ ok tt
unfolding validate_dependency_closure for_each
closure_total known rank [] distinct edge = refl
closure_total known rank (u ∷ units) distinct edge =
    reject_if->>-ok _ _ _ passes ∙ closure_total known rank units distinct.1 edges
  where
    own :
        (d : ReviewUnitId)
        → contains d u.depends_on ≡ true
        → (contains d known ≡ true) × (rank d < rank u.id)
    own d m =
        edge u.id d (contains-head u.id (unit_ids units)) (unfold depends_on in ground (arith, m))

    no_loop : contains u.id u.depends_on ≡ false
    no_loop = elim (Bool-cases (contains u.id u.depends_on)) [
      | inl m ↦ absurd (omega (arith, (own u.id m).1))
      | inr n ↦ n
    ]

    passes : (contains u.id u.depends_on || any (λ d. not (contains d known)) u.depends_on) ≡ false
    passes = ground (
      arith,
      no_loop,
      contains→any (λ d. not (contains d known)) u.depends_on (λ d m. ground (arith, own d m)),
    )

    edges :
        (k d : ReviewUnitId)
        → contains k (unit_ids units) ≡ true
        → contains d (depends_on units k) ≡ true
        → (contains d known ≡ true) × (rank d < rank k)
    edges k d m dm =
        edge k d (contains-tail k u.id (unit_ids units) m)
          (unfold depends_on in ground (arith, dm, m, distinct.0, nat_eq_iff k u.id))
