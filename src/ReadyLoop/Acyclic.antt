-- ===== src/ReadyLoop/Acyclic.antt =====
-- The ordering loop of crates/orkia-changesets/src/lib.rs: when it ends in an order.
use boop_orkia_cli.Prelude.{
  ℕ, zero, suc, ◌<◌, ◌≡◌, refl, ◌∙◌, sym, subst, ==→≡, ◌≢◌, ◌⊎◌, inl, inr, true, false, none, some,
  List, [], ◌∷◌, arith, length, is_empty, all, Ord, ◌==◌, Bool-cases, Option-cases,
}
use boop_orkia_cli.Prelude.Sets.{
  BTreeSet, contains, position, IsSorted, all_fails, all→contains, not_empty→contains,
}
use boop_orkia_cli.ReadyLoop.{Progress, start, ready, ready_order}
use boop_orkia_cli.ReadyLoop.Invariant.{
  IsTopological, Inv, start-Inv, SelectsReady, Inv-remaining, ready_loop_rule, ready_order-IsOrder,
}

module _ {ℓ} {K : Type ℓ} ⦃o : Ord K⦄ where
  -- Every dependency of a key is a key of a lower rank, so the graph is closed and has no cycle.
  abbrev pub IsRanked : (K → List K) → List K → (K → ℕ) → Type ℓ
  IsRanked deps ids rank =
      (k d : K)
      → contains k ids ≡ true
      → contains d (deps k) ≡ true
      → (contains d ids ≡ true) × (rank d < rank k)

  position_lt :
      (deps : K → List K) (seen l : List K)
      → IsTopological deps seen l
      → (k d : K) → contains k l ≡ true
      → contains d (deps k) ≡ true
      → (contains d seen ≡ true) ⊎ (contains d l ≡ true) × (position d l < position k l)
  unfolding contains position
  position_lt deps seen [] t k d m dm = cc
  position_lt deps seen (x ∷ xs) t k d m dm = elim (Bool-cases (k == x)) [
    | inl e ↦ inl (
        all→contains (λ j. contains j seen) (deps k)
          (subst (λ z. all (λ j. contains j seen) (deps z) ≡ true) (sym (==→≡ k x e)) t.0) d dm)
    | inr n ↦ ground (arith, n, position_lt deps (x ∷ seen) xs t.1 k d (ground arith) dm)
  ]

  -- The place of a key in an order ranks the graph.
  pub IsTopological→IsRanked :
      (deps : K → List K) (l : List K)
      → IsTopological deps [] l
      → IsRanked deps l (λ k. position k l)
  IsTopological→IsRanked deps l t k d m dm = elim (position_lt deps [] l t k d m dm) [
    | inl e ↦ unfold contains in cc
    | inr p ↦ p
  ]

module _ {ℓ} {K : Type ℓ} ⦃o : Ord K⦄ (pick : BTreeSet K → BTreeSet K → List K)
    (pick_remaining : (r c : BTreeSet K) (id : K)
      → contains id (pick r c) ≡ true
      → contains id r ≡ true)
    (deps : K → List K) (ids : BTreeSet K) (selects : SelectsReady deps ids pick) where
  is_empty-contains : (xs : List K) (k : K) → is_empty xs ≡ true → contains k xs ≡ false
  unfolding contains
  is_empty-contains [] k e = refl
  is_empty-contains (x ∷ xs) k e = cc

  -- Below a remaining key of a stuck state stands another remaining key.
  blocked :
      (rank : K → ℕ)
      → IsRanked deps ids rank
      → (s : Progress K) → Inv deps ids s
      → is_empty (ready pick pick_remaining s) ≡ true
      → (k : K) → contains k s.remaining ≡ true
      → (d : K) × (contains d s.remaining ≡ true) × (rank d < rank k)
  blocked rank ranked s v e k m =
      let not_ready = is_empty-contains (ready pick pick_remaining s) k e in
      let chosen =
        selects.exactly s.remaining s.complete
          (Inv-remaining pick pick_remaining deps ids selects s v) k in
      let (d, dm, missing) =
        all_fails (λ d. contains d s.complete) (deps k) (ground (arith, not_ready, chosen, m)) in
      let (known, below) =
        ranked k d (Inv-remaining pick pick_remaining deps ids selects s v k m) dm in
      (d, ground (arith, known, v.cover d, v.same d, missing), below)

  -- So no rank is the lowest one, and nothing remains.
  nothing_blocked :
      (rank : K → ℕ)
      → IsRanked deps ids rank
      → (s : Progress K) → Inv deps ids s
      → is_empty (ready pick pick_remaining s) ≡ true
      → (n : ℕ) (k : K) → rank k < n
      → contains k s.remaining ≡ true
      → ⊥
  nothing_blocked rank ranked s v e zero k below m = elim below [ ]
  nothing_blocked rank ranked s v e (suc n) k below m =
      let (d, dm, lower) = blocked rank ranked s v e k m in
      nothing_blocked rank ranked s v e n d (omega arith) dm

  pub ready_order-ne-none :
      (rank : K → ℕ)
      → IsSorted ids
      → IsRanked deps ids rank
      → ready_order pick pick_remaining ids ≢ none
  unfolding ready_order
  ready_order-ne-none rank h ranked =
      ready_loop_rule pick pick_remaining deps ids selects (λ r. r ≢ none) (λ s v e p. cc)
        (λ s v some_remain e p.
          let (k, m) = not_empty→contains s.remaining some_remain in
          nothing_blocked rank ranked s v e (suc (rank k)) k (omega arith) m)
        (length ids) (start ids) _ (start-Inv deps ids h)

  pub ready_order_complete :
      (rank : K → ℕ)
      → IsSorted ids
      → IsRanked deps ids rank
      → (l : List K) × (ready_order pick pick_remaining ids ≡ some l)
  ready_order_complete rank h ranked = elim (Option-cases (ready_order pick pick_remaining ids)) [
    | inl stuck ↦ absurd (ready_order-ne-none rank h ranked stuck)
    | inr found ↦ found
  ]

  -- An order of the keys ranks the graph, so a graph that has none is never ordered.
  pub ready_order-IsRanked :
      IsSorted ids
      → (l : List K) → ready_order pick pick_remaining ids ≡ some l
      → IsRanked deps ids (λ k. position k l)
  ready_order-IsRanked h l e k d m dm =
      let is_order = ready_order-IsOrder pick pick_remaining deps ids selects h l e in
      let (known, below) =
        IsTopological→IsRanked deps l is_order.topological k d (is_order.cover k ∙ m) dm in
      (sym (is_order.cover d) ∙ known, below)
