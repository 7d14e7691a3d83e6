-- ===== src/Review/Components/Edges.antt =====
-- crates/orkia-review/src/lib.rs: the adjacency that `hard_components` builds.
use boop_orkia_cli.Prelude.{
  ◌≡◌, refl, ap, ◌∙◌, Bool, false, ◌&&◌, ◌||◌, none, some, List, [], ◌∷◌, arith, any, filter, foldl,
  map, nat_eq, nat_eq_iff, nat_ord, if◌then◌else◌, Bool-cases, Option-cases, inl, inr,
}
use boop_orkia_cli.Prelude.Sets.{BTreeSet, contains, insert, contains-insert}
use boop_orkia_cli.Prelude.Maps.{
  keys, lookup, put, put_all, collect_map, lookup-put, contains-keys-put, lookup→contains,
  contains→lookup, contains-keys-collect_map,
}
use boop_orkia_cli.Model.Ids.{AtomId}
use boop_orkia_cli.Model.Atoms.{AtomDependency}
use boop_orkia_cli.Review.Components.{Adjacency, is_hard, add_edge, connect, adjacency, neighbours}

neighbours-some :
    (key : AtomId) (edges : BTreeSet AtomId) (adj : Adjacency)
    → lookup key adj ≡ some edges
    → neighbours adj key ≡ edges
unfolding neighbours
neighbours-some key edges adj h = rw (neighbours, h)

neighbours-same :
    (key : AtomId) (adj next : Adjacency)
    → lookup key next ≡ lookup key adj
    → neighbours next key ≡ neighbours adj key
unfolding neighbours
neighbours-same key adj next h = rw (neighbours, h)

neighbours-put :
    (key : AtomId) (edges : BTreeSet AtomId) (adj : Adjacency) (a : AtomId)
    → neighbours (put key edges adj) a ≡ (if nat_eq a key then edges else neighbours adj a)
neighbours-put key edges adj a = elim (Bool-cases (nat_eq a key)) [
  | inl e ↦
      rw e (
        neighbours-some a edges (put key edges adj) (ground (arith, lookup-put key a edges adj, e)))
  | inr n ↦
      rw n
        (neighbours-same a adj (put key edges adj) (ground (arith, lookup-put key a edges adj, n)))
]

add_edge-absent :
    (key other : AtomId) (adj : Adjacency) → lookup key adj ≡ none → add_edge key other adj ≡ adj
unfolding add_edge
add_edge-absent key other adj h = rw (add_edge, h)

add_edge-found :
    (key other : AtomId) (adj : Adjacency) (edges : BTreeSet AtomId)
    → lookup key adj ≡ some edges
    → add_edge key other adj ≡ put key (insert other edges) adj
unfolding add_edge
add_edge-found key other adj edges h = rw (add_edge, h)

add_edge-keys :
    (key other : AtomId) (adj : Adjacency) (j : AtomId)
    → contains j (keys (add_edge key other adj)) ≡ contains j (keys adj)
add_edge-keys key other adj j = elim (Option-cases (lookup key adj)) [
  | inl absent ↦ rw (add_edge-absent key other adj absent)
  | inr (edges, found) ↦ rw (add_edge-found key other adj edges found) (
      ground (
        arith,
        contains-keys-put j key (insert other edges) adj,
        lookup→contains key edges adj found,
        nat_eq_iff j key,
      ))
]

no_key : (key : AtomId) (adj : Adjacency) → lookup key adj ≡ none → contains key (keys adj) ≡ false
no_key key adj h = elim (Bool-cases (contains key (keys adj))) [
  | inl m ↦ let (v, found) = contains→lookup key adj m in cc
  | inr n ↦ n
]

-- An edge is added for a key that is there.
neighbours-add_edge :
    (key other : AtomId) (adj : Adjacency) (a k : AtomId)
    → contains k (neighbours (add_edge key other adj) a) ≡ (
        contains k (neighbours adj a)
        || (contains a (keys adj) && (nat_eq a key && nat_eq k other)))
neighbours-add_edge key other adj a k = elim (Option-cases (lookup key adj)) [
  | inl absent ↦
      rw (add_edge-absent key other adj absent)
        (ground (arith, no_key key adj absent, nat_eq_iff a key))
  | inr (edges, found) ↦
      rw (add_edge-found key other adj edges found, neighbours-put key (insert other edges) adj a)
        (ground (
          arith,
          lookup→contains key edges adj found,
          nat_eq_iff a key,
          contains-insert k other edges,
          neighbours-some key edges adj found,
        ))
]

-- A dependency joins two atoms, in one direction or the other.
abbrev pub joins : AtomDependency → AtomId → AtomId → Bool
joins d a k = (nat_eq a d.from && nat_eq k d.to) || (nat_eq a d.to && nat_eq k d.from)

connect-keys :
    (adj : Adjacency) (d : AtomDependency) (j : AtomId)
    → contains j (keys (connect adj d)) ≡ contains j (keys adj)
unfolding connect
connect-keys adj d j =
    add_edge-keys d.to d.from (add_edge d.from d.to adj) j ∙ add_edge-keys d.from d.to adj j

neighbours-connect :
    (adj : Adjacency) (d : AtomDependency) (a k : AtomId)
    → contains k (neighbours (connect adj d) a)
      ≡ (contains k (neighbours adj a) || (contains a (keys adj) && joins d a k))
unfolding connect
neighbours-connect adj d a k = ground (
  arith,
  neighbours-add_edge d.to d.from (add_edge d.from d.to adj) a k,
  neighbours-add_edge d.from d.to adj a k,
  add_edge-keys d.from d.to adj a,
)

neighbours-foldl :
    (adj : Adjacency) (ds : List AtomDependency) (a k : AtomId)
    → contains k (neighbours (foldl connect adj ds) a)
      ≡ (contains k (neighbours adj a) || (contains a (keys adj) && any (λ d. joins d a k) ds))
neighbours-foldl adj [] a k = ground arith
neighbours-foldl adj (d ∷ ds) a k = ground (
  arith,
  neighbours-foldl (connect adj d) ds a k,
  neighbours-connect adj d a k,
  connect-keys adj d a,
)

isolated_one :
    (id : AtomId) (adj : Adjacency) (a k : AtomId)
    → contains k (neighbours adj a) ≡ false
    → contains k (neighbours (put id [] adj) a) ≡ false
unfolding contains
isolated_one id adj a k h = ground (arith, neighbours-put id [] adj a, h)

-- The adjacency before any edge.
isolated :
    (ids : List AtomId) (adj : Adjacency) (a k : AtomId)
    → contains k (neighbours adj a) ≡ false
    → contains k (neighbours (put_all adj (map (λ id. (id, [])) ids)) a) ≡ false
unfolding put_all
isolated [] adj a k h = h
isolated (id ∷ ids) adj a k h = isolated ids (put id [] adj) a k (isolated_one id adj a k h)

abbrev empty_edges : BTreeSet AtomId
empty_edges = []

plain_keys : (ids : List AtomId) → keys (map (λ (id : AtomId). (id, empty_edges)) ids) ≡ ids
plain_keys [] = refl
plain_keys (id ∷ ids) = ap (λ l. id ∷ l) (plain_keys ids)

no_bindings : (a k : AtomId) → contains k (neighbours [] a) ≡ false
unfolding neighbours lookup contains
no_bindings a k = refl

module _ (ids : BTreeSet AtomId) where
  abbrev empty_adjacency : Adjacency
  empty_adjacency = collect_map (map (λ id. (id, [])) ids)

  empty-neighbours : (a k : AtomId) → contains k (neighbours empty_adjacency a) ≡ false
  unfolding collect_map
  empty-neighbours a k = isolated ids [] a k (no_bindings a k)

  empty-keys : (a : AtomId) → contains a (keys empty_adjacency) ≡ contains a ids
  empty-keys a =
      contains-keys-collect_map a (map (λ id. (id, [])) ids) ∙ ap (contains a) (plain_keys ids)

-- The hard dependencies among some.
abbrev pub hard_dependencies : List AtomDependency → List AtomDependency
hard_dependencies dependencies = filter (λ d. is_hard d.kind) dependencies

-- A hard dependency joins two atoms.
abbrev pub are_joined : List AtomDependency → AtomId → AtomId → Bool
are_joined dependencies a b = any (λ d. joins d a b) (hard_dependencies dependencies)

-- Two atoms are neighbours exactly when a hard dependency joins them and the first is an atom of the set.
pub neighbours-adjacency :
    (ids : BTreeSet AtomId) (dependencies : List AtomDependency) (a k : AtomId)
    → contains k (neighbours (adjacency ids dependencies) a)
      ≡ (contains a ids && are_joined dependencies a k)
unfolding adjacency
neighbours-adjacency ids dependencies a k = ground (
  arith,
  neighbours-foldl (empty_adjacency ids) (hard_dependencies dependencies) a k,
  empty-neighbours ids a k,
  empty-keys ids a,
)

pub joins_comm :
    (ds : List AtomDependency) (a b : AtomId)
    → any (λ d. joins d a b) ds ≡ any (λ d. joins d b a) ds
joins_comm [] a b = refl
joins_comm (d ∷ ds) a b = ground (arith, joins_comm ds a b)
