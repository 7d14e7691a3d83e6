-- ===== src/Semantic/Dependencies/Justified.antt =====
-- crates/orkia-semantic/src/lib.rs: why `infer_dependencies` gives a dependency.
use boop_orkia_cli.Prelude.{
  ◌≡◌, ◌≢◌, refl, sym, ◌∙◌, true, false, ◌||◌, inl, inr, Bool-cases, List, [], ◌∷◌, ◌++◌, arith,
  map, filter, flat_map, AllOf, IsIn, AllOf-IsIn, AllOf-filter, AllOf-weaken, append-AllOf,
  flat_map-AllOf, sort_by-AllOf, if◌then◌else◌, nat_ord, list_ord, ◌==◌, ==→≡, ==-false→≢,
}
use boop_orkia_cli.Prelude.Sets.{collect}
use boop_orkia_cli.Prelude.Text.{Text}
use boop_orkia_cli.Model.Atoms.{ChangeAtom, DependencyKind, AtomDependency}
use boop_orkia_cli.Semantic.Dependencies.{
  is_import, is_test, edge, each_pair, shares_event, causal_edges, overlap, path_edges,
  by_path_edges, names_test, tests, implementations, test_edges, edge_less, same_ends, dedup_behind,
  dedup, infer_dependencies,
}

-- Why an atom depends on another.
abbrev pub IsReason : DependencyKind → ChangeAtom → ChangeAtom → Type 0
IsReason DependencyKind.hard a b = (a.path ≡ b.path) × (overlap a b ≡ true)
IsReason DependencyKind.causal a b = shares_event a b ≡ true
IsReason DependencyKind.import a b =
    (a.path ≡ b.path)
    × (overlap a b ≡ false)
    × (is_import a.kind ≡ false)
    × (is_import b.kind ≡ true)
IsReason DependencyKind.test a b =
    (a.path ≢ b.path) × ((is_test a.kind || names_test a.symbol) ≡ true)
IsReason DependencyKind.configuration a b = ⊥

module _ (atoms : List ChangeAtom) where
  abbrev pub IsJustified : AtomDependency → Type 0
  IsJustified e =
      (a : ChangeAtom) × (b : ChangeAtom) × IsIn a atoms
      × IsIn b atoms
      × (e.from ≡ a.id)
      × (e.to ≡ b.id)
      × IsReason e.kind a b

  each_pair-AllOf :
      (f : ChangeAtom → ChangeAtom → List AtomDependency) (Q : ChangeAtom → Type 0)
      (xs : List ChangeAtom)
      → ((a b : ChangeAtom) → Q a → Q b → AllOf IsJustified (f a b))
      → AllOf Q xs
      → AllOf IsJustified (each_pair f xs)
  unfolding each_pair
  each_pair-AllOf f Q [] g h = tt
  each_pair-AllOf f Q (x ∷ xs) g h =
      append-AllOf IsJustified (flat_map (f x) xs) (each_pair f xs)
        (flat_map-AllOf Q IsJustified (f x) xs (λ b q. g x b h.0 q) h.1)
        (each_pair-AllOf f Q xs g h.1)

  causal_edges-AllOf :
      (a b : ChangeAtom) → IsIn a atoms → IsIn b atoms → AllOf IsJustified (causal_edges a b)
  unfolding causal_edges
  causal_edges-AllOf a b i j = elim (Bool-cases (shares_event a b)) [
    | inl e ↦ rw e ((a, b, i, j, refl, refl, e), tt)
    | inr n ↦ rw n tt
  ]

  path_edges-AllOf :
      (path : Text) (a b : ChangeAtom)
      → IsIn a atoms × ((a.path == path) ≡ true)
      → IsIn b atoms × ((b.path == path) ≡ true)
      → AllOf IsJustified (path_edges a b)
  unfolding path_edges
  path_edges-AllOf path a b (i, s) (j, t) =
      let same : a.path ≡ b.path = ==→≡ a.path path s ∙ sym (==→≡ b.path path t) in
      elim (Bool-cases (overlap a b)) [
        | inl e ↦ rw e ((a, b, i, j, refl, refl, (same, e)), tt)
        | inr n ↦ elim (Bool-cases (is_import a.kind)) [
          | inl e ↦ elim (Bool-cases (is_import b.kind)) [
            | inl f ↦ rw (n, e, f) tt
            | inr f ↦ rw (n, e, f) ((b, a, j, i, refl, refl, (sym same, ground arith, f, e)), tt)
          ]
          | inr e ↦ elim (Bool-cases (is_import b.kind)) [
            | inl f ↦ rw (n, e, f) ((a, b, i, j, refl, refl, (same, n, e, f)), tt)
            | inr f ↦ rw (n, e, f) tt
          ]
        ]
      ]

  by_path_edges-AllOf : AllOf IsJustified (by_path_edges atoms)
  unfolding by_path_edges
  by_path_edges-AllOf =
      flat_map-AllOf (λ path. Unit {0}) IsJustified _ (collect (map (λ a. a.path) atoms))
        (λ path u.
          each_pair-AllOf path_edges (λ a. IsIn a atoms × ((a.path == path) ≡ true))
            (filter (λ a. a.path == path) atoms) (path_edges-AllOf path)
            (AllOf-filter (λ a. IsIn a atoms) (λ a. a.path == path) atoms (AllOf-IsIn atoms)))
        (anything (collect (map (λ a. a.path) atoms)))
    where
      anything : (paths : List Text) → AllOf (λ path. Unit {0}) paths
      anything [] = tt
      anything (path ∷ paths) = (tt, anything paths)

  test_edge-AllOf :
      (a b : ChangeAtom)
      → IsIn a atoms × ((is_test a.kind || names_test a.symbol) ≡ true)
      → IsIn b atoms
      → AllOf IsJustified (if a.path == b.path then [] else edge a b DependencyKind.test 900 ∷ [])
  test_edge-AllOf a b (i, t) j = elim (Bool-cases (a.path == b.path)) [
    | inl e ↦ rw e tt
    | inr n ↦ rw n ((a, b, i, j, refl, refl, (==-false→≢ a.path b.path n, t)), tt)
  ]

  implementations-AllOf : AllOf (λ b. IsIn b atoms) (implementations atoms)
  unfolding implementations
  implementations-AllOf =
      AllOf-weaken _ (λ b. IsIn b atoms) _ (λ b h. h.0)
        (AllOf-filter (λ b. IsIn b atoms) _ atoms (AllOf-IsIn atoms))

  test_edges-AllOf : AllOf IsJustified (test_edges atoms)
  unfolding test_edges tests
  test_edges-AllOf =
      flat_map-AllOf (λ a. IsIn a atoms × ((is_test a.kind || names_test a.symbol) ≡ true))
        IsJustified _ (tests atoms)
        (λ a t.
          flat_map-AllOf (λ b. IsIn b atoms) IsJustified _ (implementations atoms)
            (λ b j. test_edge-AllOf a b t j) implementations-AllOf)
        (AllOf-filter (λ a. IsIn a atoms) (λ a. is_test a.kind || names_test a.symbol) atoms
          (AllOf-IsIn atoms))

  dedup_behind-AllOf :
      (kept : AtomDependency) (es : List AtomDependency)
      → AllOf IsJustified es
      → AllOf IsJustified (dedup_behind kept es)
  unfolding dedup_behind
  dedup_behind-AllOf kept [] h = tt
  dedup_behind-AllOf kept (e ∷ es) h = elim (Bool-cases (same_ends e kept)) [
    | inl s ↦ rw (dedup_behind, s) (dedup_behind-AllOf kept es h.1)
    | inr n ↦ rw (dedup_behind, n) (h.0, dedup_behind-AllOf e es h.1)
  ]

  dedup-AllOf : (es : List AtomDependency) → AllOf IsJustified es → AllOf IsJustified (dedup es)
  unfolding dedup
  dedup-AllOf [] h = tt
  dedup-AllOf (e ∷ es) h = (h.0, dedup_behind-AllOf e es h.1)

  -- Every inferred dependency joins two of the atoms for a reason: a hard one two atoms of one path
  -- whose lines overlap, an import one an atom and an import of the same path whose lines do not, a
  -- test one a test and an atom of another path, and a causal one two atoms of a common event.
  pub infer_dependencies-IsJustified : AllOf IsJustified (infer_dependencies atoms)
  unfolding infer_dependencies
  infer_dependencies-IsJustified = dedup-AllOf _ (
      sort_by-AllOf IsJustified edge_less _ (
        append-AllOf IsJustified (each_pair causal_edges atoms)
          (by_path_edges atoms ++ test_edges atoms)
          (each_pair-AllOf causal_edges (λ a. IsIn a atoms) atoms causal_edges-AllOf
            (AllOf-IsIn atoms))
          (append-AllOf IsJustified (by_path_edges atoms) (test_edges atoms) by_path_edges-AllOf
            test_edges-AllOf)))
