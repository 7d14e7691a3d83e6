-- ===== src/Review/Planning.antt =====
-- crates/orkia-review/src/lib.rs: `plan` and the identities and titles that it derives. The UUID
-- library's rendering of an identity as text is a parameter.
pub mod Coverage
use boop_orkia_cli.Prelude.{
  take, ℕ, zero, suc, ◌+◌, Bool, true, false, not, ◌&&◌, ◌||◌, Option, none, some, List, [], ◌∷◌,
  ◌++◌, map, filter, flat_map, foldl, length, head?, nat_eq, ltb, nat_ord, list_ord, if◌then◌else◌,
}
use boop_orkia_cli.Prelude.Sets.{BTreeSet, contains, insert, collect, sort}
use boop_orkia_cli.Prelude.Maps.{BTreeMap, lookup, collect_map}
use boop_orkia_cli.Prelude.Text.{Text, text, utf8}
use boop_orkia_cli.Model.Ids.{AtomId, Bytes, EventId, PlanId, ReviewUnitId, as_bytes, from_be_bytes}
use boop_orkia_cli.Model.Objects.{semantic_schema_version}
use boop_orkia_cli.Model.Atoms.{ChangeAtom, AtomDependency, DependencyKind}
use boop_orkia_cli.Model.Plans.{ReviewUnit, ReviewPlan, proposed, atom_ids}
use boop_orkia_cli.Review.Components.{confidence, hard_components}

pub record PlanningInput : Type 0 where
  pub checkpoint : Text
  pub policy_digest : Option Text
  pub atoms : List ChangeAtom
  pub dependencies : List AtomDependency
  pub coverage_milli : ℕ
  pub minimum_coverage_milli : ℕ
  pub minimum_confidence_milli : ℕ
  pub source_events : BTreeSet EventId

-- `units.sort_by(|a, b| a.id.cmp(&b.id))`, which is stable.
unfoldable pub place_unit : ReviewUnit → List ReviewUnit → List ReviewUnit
place_unit u [] = u ∷ []
place_unit u (v ∷ vs) = let rest = place_unit u vs in if ltb v.id u.id then v ∷ rest else u ∷ v ∷ vs

unfoldable pub sort_units : List ReviewUnit → List ReviewUnit
sort_units [] = []
sort_units (u ∷ us) = place_unit u (sort_units us)

-- `parts.join("|")`
unfoldable pub join_bar : List Text → Text
join_bar [] = []
join_bar (t ∷ []) = t
join_bar (t ∷ u ∷ ts) = t ++ (text "|" ++ join_bar (u ∷ ts))

-- `title_for`
unfoldable pub title_for : BTreeSet AtomId → List ChangeAtom → Text
title_for atoms all_atoms =
    elim (head? (sort (map (λ a. a.path) (filter (λ a. contains a.id atoms) all_atoms)))) [
      | none ↦ text "Review change"
      | some path ↦ text "Review " ++ path
    ]

-- The kinds of dependency that order review units.
abbrev pub orders_units : DependencyKind → Bool
orders_units DependencyKind.causal = false
orders_units _ = true

-- `components.iter().enumerate()`, as pairs of an atom and its component's index.
unfoldable pub indexed_atoms : ℕ → List (BTreeSet AtomId) → List (AtomId × ℕ)
indexed_atoms index [] = []
indexed_atoms index (atoms ∷ parts) = map (λ a. (a, index)) atoms ++ indexed_atoms (index + 1) parts

abbrev pub get_elem? : {A : Type 0} → List A → ℕ → Option A
get_elem? [] i = none
get_elem? (x ∷ xs) zero = some x
get_elem? (x ∷ xs) (suc i) = get_elem? xs i

-- `units[index].depends_on.insert(id)`
unfoldable pub depend_at : List ReviewUnit → ℕ → ReviewUnitId → List ReviewUnit
depend_at [] index id = []
depend_at (u ∷ us) zero id = record u { depends_on = insert id u.depends_on } ∷ us
depend_at (u ∷ us) (suc index) id = u ∷ depend_at us index id

-- `units[from].depends_on.insert(units[to].id.clone())`
unfoldable pub insert_dependency : List ReviewUnit → ℕ → ℕ → List ReviewUnit
insert_dependency units from to = elim (get_elem? units to) [
  | none ↦ units
  | some unit ↦ depend_at units from unit.id
]

-- The body of the loop over the dependencies.
unfoldable pub relate : BTreeMap AtomId ℕ → List ReviewUnit → AtomDependency → List ReviewUnit
relate atom_to_unit units dep = elim (lookup dep.from atom_to_unit) [
  | none ↦ units
  | some from ↦ elim (lookup dep.to atom_to_unit) [
    | none ↦ units
    | some to ↦
        if not (nat_eq from to) && orders_units dep.kind
        then insert_dependency units from to
        else units
  ]
]

module _ (sha256 : Bytes → Bytes) (uuid_text : ℕ → Text) where
  -- `deterministic_unit`
  unfoldable pub deterministic_unit : BTreeSet AtomId → ReviewUnitId
  deterministic_unit atoms =
      from_be_bytes (take 16 (sha256 (utf8 (join_bar (map (λ id. uuid_text id) atoms)))))

  -- `deterministic_plan`
  unfoldable pub deterministic_plan : PlanningInput → PlanId
  deterministic_plan input =
      let digest_bytes : Bytes = elim input.policy_digest [
        | none ↦ []
        | some digest ↦ utf8 digest
      ] in
      from_be_bytes (
        take 16 (
          sha256 (
            utf8 input.checkpoint
            ++ (0
                ∷ (digest_bytes
                    ++ (0
                        ∷ (flat_map (λ a. as_bytes a.id) input.atoms
                            ++ (0 ∷ flat_map as_bytes input.source_events))))))))

  abbrev plan_of : PlanningInput → List ReviewUnit → ReviewPlan
  plan_of input units = record {
    schema_version = semantic_schema_version;
    id = deterministic_plan input;
    revision = 0;
    source_checkpoint = input.checkpoint;
    policy_digest = input.policy_digest;
    units = units;
    atom_paths = collect_map (map (λ a. (a.id, a.path)) input.atoms);
    atoms = input.atoms;
    coverage_milli = input.coverage_milli;
    status = proposed;
    created_from = input.source_events;
  }

  -- `one_unit_plan`
  unfoldable pub one_unit_plan : PlanningInput → ℕ → ReviewPlan
  one_unit_plan input level =
      let atoms = collect (atom_ids input.atoms) in
      plan_of input (
        record {
          id = deterministic_unit atoms;
          title = text "Single review: insufficient causal coverage";
          atoms = atoms;
          depends_on = [];
          confidence_milli = level;
        }
        ∷ [])

  -- The units of the components, before their dependencies are known.
  unfoldable pub component_units : PlanningInput → ℕ → List (BTreeSet AtomId) → List ReviewUnit
  component_units input level components =
      map
        (λ atoms. record {
          id = deterministic_unit atoms;
          title = title_for atoms input.atoms;
          atoms = atoms;
          depends_on = [];
          confidence_milli = level;
        })
        components

  -- The plan of an input that is covered and trusted enough.
  unfoldable pub split_plan : PlanningInput → ℕ → ReviewPlan
  split_plan input level =
      let components = hard_components input.atoms input.dependencies in
      let atom_to_unit = collect_map (indexed_atoms 0 components) in
      plan_of input (
        sort_units
          (foldl (relate atom_to_unit) (component_units input level components) input.dependencies))

  -- `plan`
  unfoldable pub plan : PlanningInput → ReviewPlan
  plan input =
      let level = confidence input.dependencies (length input.atoms) in
      if ltb input.coverage_milli input.minimum_coverage_milli
        || ltb level input.minimum_confidence_milli
      then one_unit_plan input level
      else split_plan input level
