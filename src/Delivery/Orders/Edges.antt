-- ===== src/Delivery/Orders/Edges.antt =====
-- crates/orkia-changesets/src/lib.rs: a graph that says of each value what it waits for, and the values
-- that the three order functions look up by their keys.
use boop_orkia_cli.Prelude.{
  ℕ, ◌≡◌, some, sym, subst, ap, ◌∙◌, true, List, [], ◌∷◌, all, map, Ord, AllOf,
}
use boop_orkia_cli.Prelude.Sets.{contains, contains-head, contains-tail}
use boop_orkia_cli.Prelude.Maps.{
  lookup, collect_map, keys-map, contains-keys-collect_map, contains→lookup, AllBindings,
  lookup-collect_map-AllBindings,
}
use boop_orkia_cli.ReadyLoop.Invariant.{IsTopological, IsOrder}
use boop_orkia_cli.ReadyLoop.Acyclic.{IsRanked}

module _ {ℓ} {K : Type ℓ} {V : Type 0} ⦃o : Ord K⦄ (key_of : V → K) (own : V → List K) where
  -- A value that waits for what the graph says of the key.
  abbrev Waits : (K → List K) → K → V → Type ℓ
  Waits graph k v = graph k ≡ own v

  values-AllBindings :
      (graph : K → List K) (values : List V)
      → AllOf (λ v. graph (key_of v) ≡ own v) values
      → AllBindings (Waits graph) (map (λ v. (key_of v, v)) values)
  values-AllBindings graph [] h = tt
  values-AllBindings graph (v ∷ values) h = (h.0, values-AllBindings graph values h.1)

  -- What is found at a key waits for what the graph says.
  pub lookup-Waits :
      (graph : K → List K) (values : List V)
      → AllOf (λ v. graph (key_of v) ≡ own v) values
      → (k : K) → contains k (map key_of values) ≡ true
      → (v : V) × (lookup k (collect_map (map (λ v. (key_of v, v)) values)) ≡ some v)
        × (graph k ≡ own v)
  lookup-Waits graph values h k m =
      let entries = map (λ v. (key_of v, v)) values in
      let (v, found) =
        contains→lookup k (collect_map entries)
          (contains-keys-collect_map k entries ∙ ap (contains k) (keys-map key_of values) ∙ m) in
      (
        v,
        found,
        lookup-collect_map-AllBindings (Waits graph) k v entries (values-AllBindings graph values h)
            found,
      )

module _ {ℓ} {K : Type ℓ} ⦃o : Ord K⦄ (deps graph : K → List K) where
  IsTopological-agree :
      (seen l : List K)
      → ((k : K) → contains k l ≡ true → deps k ≡ graph k)
      → IsTopological deps seen l
      → IsTopological graph seen l
  IsTopological-agree seen [] same t = tt
  IsTopological-agree seen (x ∷ l) same t = (
    subst (λ ds. all (λ d. contains d seen) ds ≡ true) (same x (contains-head x l)) t.0,
    IsTopological-agree (x ∷ seen) l (λ k m. same k (contains-tail k x l m)) t.1,
  )

  module _ (ids : List K) (same : (k : K) → contains k ids ≡ true → deps k ≡ graph k) where
    pub IsOrder-agree : (l : List K) → IsOrder deps ids l → IsOrder graph ids l
    IsOrder-agree l h = record {
      topological = IsTopological-agree [] l (λ k m. same k (sym (h.cover k) ∙ m)) h.topological;
      distinct = h.distinct;
      cover = h.cover;
    }

    pub IsRanked-agree : (rank : K → ℕ) → IsRanked deps ids rank → IsRanked graph ids rank
    IsRanked-agree rank h k d m dm =
        h k d m (subst (λ ds. contains d ds ≡ true) (sym (same k m)) dm)
