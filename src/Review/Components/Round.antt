-- ===== src/Review/Components/Round.antt =====
-- crates/orkia-review/src/lib.rs: one round of the outer loop of `hard_components`.
use boop_orkia_cli.Prelude.{
  ℕ, suc, ◌≤◌, ◌<◌, ◌≡◌, refl, ap, ◌⊎◌, true, false, ◌&&◌, ◌||◌, List, [], ◌∷◌, arith, length,
  nat_ord, inl, inr,
}
use boop_orkia_cli.Prelude.Sets.{
  BTreeSet, contains, IsSorted, contains-head, contains-cons_cases, length-remove-lt,
}
use boop_orkia_cli.Model.Ids.{AtomId}
use boop_orkia_cli.Review.Components.{Adjacency, neighbours, explore}
use boop_orkia_cli.Review.Components.Search.{
  Sets, SearchRule, explore_rule, Conserves-rule, IsApart-rule, IsSorted-rule,
}
use boop_orkia_cli.Review.Components.Closure.{Closed-rule, label_rule, IsStable}

-- A queued atom that is left shrinks the atoms left.
abbrev Shrinks : List AtomId → BTreeSet AtomId → BTreeSet AtomId → Sets → Type 0
Shrinks queue left part r =
    (length r.0 ≤ length left)
    × ((k : AtomId) → contains k queue ≡ true → contains k left ≡ true → length r.0 < length left)

Shrinks-rule : (adj : Adjacency) → SearchRule adj Shrinks
Shrinks-rule adj = record {
  done = λ left part. (omega arith, λ k m h. unfold contains in cc);
  skip = λ current queue left part r n p. (
    p.0,
    λ k m h. elim (contains-cons_cases k current queue m) [
      | inl e ↦ ground (arith, e, n, h)
      | inr m' ↦ p.1 k m' h
    ],
  );
  taken = λ current queue left part r m p. (
    omega (arith, length-remove-lt current left m, p.0),
    λ k km h. omega (arith, length-remove-lt current left m, p.0),
  );
}

module _ (adj : Adjacency) (bound : ℕ) (left : BTreeSet AtomId) (start : AtomId)
    (h : length left ≤ suc bound) (m : contains start left ≡ true) where
  abbrev pub found : Sets
  found = explore adj (suc bound) (start ∷ []) left []

  pub found-length : length found.0 ≤ bound
  found-length = omega (
    arith,
    (explore_rule (Shrinks-rule adj) (suc bound) (start ∷ []) left [] h).1 start
        (contains-head start []) m,
  )

  pub found-cover : (k : AtomId) → contains k left ≡ (contains k found.0 || contains k found.1)
  found-cover k =
      let same = explore_rule (Conserves-rule adj) (suc bound) (start ∷ []) left [] h k in
      unfold contains in ground (arith, same)

  pub found-apart : (k : AtomId) → (contains k found.0 && contains k found.1) ≡ false
  found-apart =
      explore_rule (IsApart-rule adj) (suc bound) (start ∷ []) left [] h
        (λ k. unfold contains in ground arith)

  pub found-IsSorted : IsSorted left → IsSorted found.0 × IsSorted found.1
  found-IsSorted s = explore_rule (IsSorted-rule adj) (suc bound) (start ∷ []) left [] h s tt

  pub found-start : contains start found.1 ≡ true
  found-start =
      (explore_rule (Closed-rule adj) (suc bound) (start ∷ []) left [] h).1 start
        (contains-head start []) (ground (arith, m))

  pub found-closed :
      (k n : AtomId)
      → contains k found.1 ≡ true
      → contains n (neighbours adj k) ≡ true
      → contains n left ≡ true
      → contains n found.1 ≡ true
  found-closed k n km edge nm =
      (explore_rule (Closed-rule adj) (suc bound) (start ∷ []) left [] h).2 k n km
        (unfold contains in refl) edge (ground (arith, nm))

  only_start :
      {L : Type 0} (f : AtomId → L) (j : AtomId)
      → (j ≡ start) ⊎ (contains j [] ≡ true)
      → f j ≡ f start
  unfolding contains
  only_start f j (inl e) = ap f e
  only_start f j (inr absent) = cc

  pub found-label :
      {L : Type 0} (f : AtomId → L)
      → IsStable adj f
      → (k : AtomId) → contains k found.1 ≡ true
      → f k ≡ f start
  found-label f stable k km =
      explore_rule (label_rule adj f (f start) stable) (suc bound) (start ∷ []) left [] h
        (λ j jm. only_start f j (contains-cons_cases j start [] jm)) k km (unfold contains in refl)
