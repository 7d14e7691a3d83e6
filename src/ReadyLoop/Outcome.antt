-- ===== src/ReadyLoop/Outcome.antt =====
-- The ordering loop of crates/orkia-changesets/src/lib.rs: the order that a function returns or refuses.
use boop_orkia_cli.Prelude.{ℕ, ◌≡◌, sym, ap, map, ◌∙◌, ◌↔◌, true, List, Ord}
use boop_orkia_cli.Prelude.Sets.{BTreeSet, contains, collect, position, contains-collect}
use boop_orkia_cli.Prelude.Sets.Sorted.{collect-IsSorted}
use boop_orkia_cli.Prelude.Maps.{keys, collect_map, contains-keys-collect_map, keys-map}
use boop_orkia_cli.Errors.{OrkiaError, Result, ok, ok_or, ok_or-eq-ok}
use boop_orkia_cli.ReadyLoop.{ready_order}
use boop_orkia_cli.ReadyLoop.Invariant.{SelectsReady, IsOrder, ready_order-IsOrder}
use boop_orkia_cli.ReadyLoop.Acyclic.{IsRanked, ready_order_complete, ready_order-IsRanked}

module _ {ℓ κ} {K : Type ℓ} {V : Type κ} ⦃o : Ord K⦄ (pick : BTreeSet K → BTreeSet K → List K)
    (pick_remaining : (r c : BTreeSet K) (id : K)
      → contains id (pick r c) ≡ true
      → contains id r ≡ true)
    (deps : K → List K) (key_of : V → K) (values : List V)
    (selects : SelectsReady deps
      (collect (keys (collect_map (map (λ v. (key_of v, v)) values))))
      pick)
    (e : OrkiaError) where
  abbrev entries : List (K × V)
  entries = map (λ v. (key_of v, v)) values

  abbrev outcome : Result (List K)
  outcome = ok_or (ready_order pick pick_remaining (collect (keys (collect_map entries)))) e

  contains-ids :
      (k : K) → contains k (collect (keys (collect_map entries))) ≡ contains k (map key_of values)
  contains-ids k =
      contains-collect k _
      ∙ contains-keys-collect_map k entries
      ∙ ap (contains k) (keys-map key_of values)

  pub outcome-IsOrder : (l : List K) → outcome ≡ ok l → IsOrder deps (map key_of values) l
  outcome-IsOrder l h =
      let is_order =
        ready_order-IsOrder pick pick_remaining deps _ selects (collect-IsSorted _) l
          (ok_or-eq-ok _ e h) in
      record {
        topological = is_order.topological;
        distinct = is_order.distinct;
        cover = λ k. is_order.cover k ∙ contains-ids k;
      }

  pub outcome_iff :
      ((l : List K) × (outcome ≡ ok l)) ↔ ((rank : K → ℕ) × IsRanked deps (map key_of values) rank)
  outcome_iff = (
    λ (l, h). (
      λ k. position k l,
      λ k d m dm.
          let (known, below) =
            ready_order-IsRanked pick pick_remaining deps _ selects (collect-IsSorted _) l
              (ok_or-eq-ok _ e h) k d (contains-ids k ∙ m) dm in
          (sym (contains-ids d) ∙ known, below),
    ),
    λ (rank, ranked).
        let (l, found) =
          ready_order_complete pick pick_remaining deps _ selects rank (collect-IsSorted _)
            (λ k d m dm.
              let (known, below) = ranked k d (sym (contains-ids k) ∙ m) dm in
              (contains-ids d ∙ known, below)) in
        (l, rw found),
  )
