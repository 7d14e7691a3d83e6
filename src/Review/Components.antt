-- ===== src/Review/Components.antt =====
-- crates/orkia-review/src/lib.rs: `hard_components` and `confidence`.
pub mod Search
pub mod Closure
pub mod Round
pub mod Edges
pub mod Hard
pub mod Partition
pub mod Confidence
use boop_orkia_cli.Prelude.{
  ℕ, zero, suc, ◌+◌, ◌/◌, ◌%◌, ◌^◌, Bool, true, false, Option, none, some, List, [], ◌∷◌, ◌++◌, map,
  foldl, filter, length, head?, is_empty, nat_eq, nat_ord, if◌then◌else◌,
}
use boop_orkia_cli.Prelude.Sets.{BTreeSet, contains, insert, remove, collect}
use boop_orkia_cli.Prelude.Maps.{BTreeMap, lookup, put, collect_map}
use boop_orkia_cli.Model.Ids.{AtomId}
use boop_orkia_cli.Model.Atoms.{ChangeAtom, AtomDependency, DependencyKind}
use boop_orkia_cli.Model.Plans.{atom_ids}

abbrev pub Adjacency : Type 0
Adjacency = BTreeMap AtomId (BTreeSet AtomId)

-- `matches!(kind, DependencyKind::Hard)`
abbrev pub is_hard : DependencyKind → Bool
is_hard DependencyKind.hard = true
is_hard _ = false

-- `if let Some(edges) = adj.get_mut(&key) { edges.insert(other); }`
unfoldable pub add_edge : AtomId → AtomId → Adjacency → Adjacency
add_edge key other adj = elim (lookup key adj) [
  | none ↦ adj
  | some edges ↦ put key (insert other edges) adj
]

-- The body of the loop over the hard dependencies.
unfoldable pub connect : Adjacency → AtomDependency → Adjacency
connect adj dep = add_edge dep.to dep.from (add_edge dep.from dep.to adj)

unfoldable pub adjacency : BTreeSet AtomId → List AtomDependency → Adjacency
adjacency ids dependencies =
    foldl connect (collect_map (map (λ id. (id, [])) ids))
      (filter (λ d. is_hard d.kind) dependencies)

-- `adj.get(&current)`, with no edges for an unknown atom.
unfoldable pub neighbours : Adjacency → AtomId → List AtomId
neighbours adj id = elim (lookup id adj) [ none ↦ [] | some edges ↦ edges ]

-- `while let Some(current) = queue.pop_front() { … }`, over the atoms `left` and the growing `part`.
-- The first argument bounds the number of atoms left: an atom that is taken lowers it, an atom that is
-- skipped shortens the queue, and where it is zero no atom is left to take.
unfoldable pub explore :
    Adjacency
    → ℕ
    → List AtomId
    → BTreeSet AtomId
    → BTreeSet AtomId
    → BTreeSet AtomId × BTreeSet AtomId
explore adj bound [] left part = (left, part)
explore adj zero (current ∷ queue) left part = explore adj zero queue left part
explore adj (suc bound) (current ∷ queue) left part = elim (contains current left) [
  | true ↦
      explore adj bound (queue ++ neighbours adj current) (remove current left)
        (insert current part)
  | false ↦ explore adj (suc bound) queue left part
]

-- `while let Some(start) = left.iter().next().cloned() { … }`, with the same bound.
unfoldable pub collect_parts : Adjacency → ℕ → BTreeSet AtomId → List (BTreeSet AtomId)
collect_parts adj zero left = []
collect_parts adj (suc bound) left = elim (head? left) [
  | none ↦ []
  | some start ↦
      let (left', part) = explore adj (suc bound) (start ∷ []) left [] in
      part ∷ collect_parts adj bound left'
]

-- `hard_components`
unfoldable pub hard_components : List ChangeAtom → List AtomDependency → List (BTreeSet AtomId)
hard_components atoms dependencies =
    let ids = collect (atom_ids atoms) in
    collect_parts (adjacency ids dependencies) (length ids) ids

abbrev pub sum_confidence : List AtomDependency → ℕ
sum_confidence [] = 0
sum_confidence (d ∷ ds) = d.confidence_milli + sum_confidence ds

-- `confidence`. The sum and the count are 32-bit integers, and the quotient a 16-bit one.
unfoldable pub confidence : List AtomDependency → ℕ → ℕ
confidence deps atom_count =
    if nat_eq atom_count 0
    then 0
    else if is_empty deps
    then 850
    else ((sum_confidence deps % 2 ^ 32) / (length deps % 2 ^ 32)) % 2 ^ 16
