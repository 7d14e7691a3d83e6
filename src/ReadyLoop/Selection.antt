-- ===== src/ReadyLoop/Selection.antt =====
-- The selection that keeps, of the remaining keys, those whose dependencies are complete, in order.
use boop_orkia_cli.Prelude.{◌≡◌, sym, ◌∙◌, ap, ◌&&◌, true, List, all, filter, Ord, and_true, Bool}
use boop_orkia_cli.Prelude.Sets.{BTreeSet, contains, contains-filter}
use boop_orkia_cli.Prelude.Sets.Sorted.{filter-IsSorted, IsSorted→IsDistinct}
use boop_orkia_cli.ReadyLoop.Invariant.{SelectsReady}

module _ {ℓ} {K : Type ℓ} ⦃o : Ord K⦄ where
  -- `remaining.iter().filter(|id| test(complete, id)).cloned().collect::<Vec<_>>()`
  abbrev pub keep_ready : (BTreeSet K → K → Bool) → BTreeSet K → BTreeSet K → List K
  keep_ready test remaining complete = filter (test complete) remaining

  pub keep_ready_remaining :
      (test : BTreeSet K → K → Bool) (remaining complete : BTreeSet K) (id : K)
      → contains id (keep_ready test remaining complete) ≡ true
      → contains id remaining ≡ true
  keep_ready_remaining test remaining complete id h =
      (and_true _ _ (sym (contains-filter id (test complete) remaining) ∙ h)).0

  pub keep_ready-SelectsReady :
      (test : BTreeSet K → K → Bool) (deps : K → List K) (ids : BTreeSet K)
      → ((c : BTreeSet K) (id : K) → test c id ≡ all (λ d. contains d c) (deps id))
      → SelectsReady deps ids (keep_ready test)
  keep_ready-SelectsReady test deps ids same = record {
    once = λ r c s. IsSorted→IsDistinct _ (filter-IsSorted (test c) r s);
    exactly = λ r c known k. contains-filter k (test c) r ∙ ap (λ b. contains k r && b) (same c k);
  }
