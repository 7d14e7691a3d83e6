-- ===== src/Semantic/Dependencies.antt =====
-- crates/orkia-semantic/src/lib.rs: the dependencies between the atoms of a change.
pub mod Justified
use boop_orkia_cli.Prelude.{
  ℕ, ltb, leb, nat_eq, Bool, true, false, not, ◌&&◌, ◌||◌, Option, none, some, List, [], ◌∷◌, ◌++◌,
  map, any, filter, flat_map, if◌then◌else◌, sort_by, nat_ord, list_ord, pair_ord, ◌==◌, ◌<?◌,
}
use boop_orkia_cli.Prelude.Sets.{contains, collect}
use boop_orkia_cli.Prelude.Text.{Text, text}
use boop_orkia_cli.Model.Atoms.{AtomKind, ChangeAtom, DependencyKind, AtomDependency}
use boop_orkia_cli.Semantic.Languages.{holds_part}

-- `kind == AtomKind::Import` and `kind == AtomKind::Test`
abbrev pub is_import : AtomKind → Bool
is_import AtomKind.import = true
is_import _ = false

abbrev pub is_test : AtomKind → Bool
is_test AtomKind.test = true
is_test _ = false

abbrev pub edge : ChangeAtom → ChangeAtom → DependencyKind → ℕ → AtomDependency
edge a b kind confidence = record {
  from = a.id;
  to = b.id;
  kind = kind;
  confidence_milli = confidence;
}

-- The two nested loops: what each atom gives with each behind it.
unfoldable pub each_pair :
    (ChangeAtom → ChangeAtom → List AtomDependency) → List ChangeAtom → List AtomDependency
each_pair f [] = []
each_pair f (left ∷ atoms) = flat_map (f left) atoms ++ each_pair f atoms

abbrev pub shares_event : ChangeAtom → ChangeAtom → Bool
shares_event a b = any (λ event. contains event b.source_events) a.source_events

unfoldable pub causal_edges : ChangeAtom → ChangeAtom → List AtomDependency
causal_edges left right =
    if shares_event left right then edge left right DependencyKind.causal 700 ∷ [] else []

abbrev pub overlap : ChangeAtom → ChangeAtom → Bool
overlap a b = leb a.start_line b.end_line && leb b.start_line a.end_line

-- The body of the loops over the atoms of one path.
unfoldable pub path_edges : ChangeAtom → ChangeAtom → List AtomDependency
path_edges left right =
    if overlap left right
    then edge left right DependencyKind.hard 1000 ∷ []
    else if is_import left.kind && not (is_import right.kind)
    then edge right left DependencyKind.import 950 ∷ []
    else if is_import right.kind && not (is_import left.kind)
    then edge left right DependencyKind.import 950 ∷ []
    else []

-- The groups of `by_path`, in the order of the paths.
unfoldable pub by_path_edges : List ChangeAtom → List AtomDependency
by_path_edges atoms =
    flat_map (λ path. each_pair path_edges (filter (λ a. a.path == path) atoms))
      (collect (map (λ a. a.path) atoms))

abbrev pub names_test : Option Text → Bool
names_test none = false
names_test (some symbol) = holds_part (text "test") symbol

unfoldable pub tests : List ChangeAtom → List ChangeAtom
tests atoms = filter (λ a. is_test a.kind || names_test a.symbol) atoms

unfoldable pub implementations : List ChangeAtom → List ChangeAtom
implementations atoms = filter (λ a. not (any (λ test. nat_eq test.id a.id) (tests atoms))) atoms

unfoldable pub test_edges : List ChangeAtom → List AtomDependency
test_edges atoms =
    flat_map
      (λ test.
        flat_map
          (λ implementation.
            if test.path == implementation.path
            then []
            else edge test implementation DependencyKind.test 900 ∷ [])
          (implementations atoms))
      (tests atoms)

-- The endpoints in order, and the higher confidence first.
abbrev pub edge_less : AtomDependency → AtomDependency → Bool
edge_less a b =
    ◌<?◌ {A = ℕ × ℕ} (a.from, a.to) (b.from, b.to)
    || (◌==◌ {A = ℕ × ℕ} (a.from, a.to) (b.from, b.to) && ltb b.confidence_milli a.confidence_milli)

abbrev pub same_ends : AtomDependency → AtomDependency → Bool
same_ends a b = nat_eq a.from b.from && nat_eq a.to b.to

-- `dedup_by`, behind the last edge that was kept.
unfoldable pub dedup_behind : AtomDependency → List AtomDependency → List AtomDependency
dedup_behind kept [] = []
dedup_behind kept (e ∷ edges) = elim (same_ends e kept) [
  | true ↦ dedup_behind kept edges
  | false ↦ e ∷ dedup_behind e edges
]

unfoldable pub dedup : List AtomDependency → List AtomDependency
dedup [] = []
dedup (e ∷ edges) = e ∷ dedup_behind e edges

unfoldable pub infer_dependencies : List ChangeAtom → List AtomDependency
infer_dependencies atoms =
    dedup (
      sort_by edge_less (each_pair causal_edges atoms ++ (by_path_edges atoms ++ test_edges atoms)))
