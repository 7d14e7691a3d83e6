-- ===== src/Review/Components/Hard.antt =====
-- crates/orkia-review/src/lib.rs: `hard_components` as a whole.
use boop_orkia_cli.Prelude.{◌≡◌, sym, true_and, and_true, ◌∙◌, true, List, arith, nat_ord, length}
use boop_orkia_cli.Prelude.Sets.{contains, collect, contains-collect, IsDistinct}
use boop_orkia_cli.Prelude.Sets.Sorted.{collect-IsSorted}
use boop_orkia_cli.Model.Ids.{AtomId}
use boop_orkia_cli.Model.Atoms.{ChangeAtom, AtomDependency}
use boop_orkia_cli.Model.Plans.{atom_ids}
use boop_orkia_cli.Review.Components.{adjacency, hard_components}
use boop_orkia_cli.Review.Components.Partition.{
  Parts, atoms_of, AllOccupied, AreTogether, IsUniform, collect_parts-AreComponents,
}
use boop_orkia_cli.Review.Components.Edges.{
  hard_dependencies, are_joined, neighbours-adjacency, joins_comm,
}

-- Some parts are the components of the atoms: they hold exactly the atoms, each once, and none is empty;
-- atoms that a hard dependency joins lie in the same part; and a label that no hard dependency changes is
-- constant on a part.
pub record AreHardComponents (atoms : List ChangeAtom) (dependencies : List AtomDependency)
    (parts : Parts) : Type 1 where
  pub cover : (k : AtomId) → contains k (atoms_of parts) ≡ contains k (atom_ids atoms)
  pub once : IsDistinct (atoms_of parts)
  pub occupied : AllOccupied parts
  pub joined :
      (a b : AtomId)
      → are_joined dependencies a b ≡ true
      → contains a (atom_ids atoms) ≡ true
      → contains b (atom_ids atoms) ≡ true
      → AreTogether a b parts
  pub uniform :
      {L : Type 0} (f : AtomId → L)
      → ((a b : AtomId) → are_joined dependencies a b ≡ true → f a ≡ f b)
      → IsUniform f parts

-- The parts of a plan's atoms are the connected components of the atoms under the hard dependencies,
-- for every list of atoms and of dependencies.
pub hard_components-AreHardComponents :
    (atoms : List ChangeAtom) (dependencies : List AtomDependency)
    → AreHardComponents atoms dependencies (hard_components atoms dependencies)
unfolding hard_components
hard_components-AreHardComponents atoms dependencies =
    let ids = collect (atom_ids atoms) in
    let adj = adjacency ids dependencies in
    let same = λ (k : AtomId). contains-collect k (atom_ids atoms) in
    let parts =
      collect_parts-AreComponents adj (length ids) ids (omega arith)
        (collect-IsSorted (atom_ids atoms)) in
    record {
      cover = λ k. parts.cover k ∙ same k;
      once = parts.once;
      occupied = parts.occupied;
      joined = λ a b j ma mb.
          parts.joined a b
            (neighbours-adjacency ids dependencies a b ∙ true_and _ _ (same a ∙ ma) j)
            (neighbours-adjacency ids dependencies b a
              ∙ true_and _ _ (same b ∙ mb) (joins_comm (hard_dependencies dependencies) b a ∙ j))
            (same a ∙ ma) (same b ∙ mb);
      uniform = λ f stable. parts.uniform f (λ a b m.
          stable a b (and_true _ _ (sym (neighbours-adjacency ids dependencies a b) ∙ m)).1);
    }
