-- ===== src/Review/Components/Closure.antt =====
-- crates/orkia-review/src/lib.rs: where the search of `hard_components` ends.
use boop_orkia_cli.Prelude.{
  ◌≡◌, sym, ◌∙◌, true, false, ◌||◌, List, ◌∷◌, ◌++◌, arith, nat_eq, nat_eq_iff, nat_ord, Bool-cases,
  inl, inr, or_true, ap,
}
use boop_orkia_cli.Prelude.Sets.{
  BTreeSet, contains, insert, remove, contains-insert, contains-append, contains-head,
  contains-tail, contains-cons_cases,
}
use boop_orkia_cli.Model.Ids.{AtomId}
use boop_orkia_cli.Review.Components.{Adjacency, neighbours}
use boop_orkia_cli.Review.Components.Search.{Sets, SearchRule, Reaches, grows_rule, moved}

module _ (adj : Adjacency) where
  abbrev Grows : List AtomId → BTreeSet AtomId → BTreeSet AtomId → Sets → Type 0
  Grows queue left part r = (k : AtomId) → contains k part ≡ true → contains k r.1 ≡ true

  reach_skip :
      (current : AtomId) (queue : List AtomId) (left part : BTreeSet AtomId) (r : Sets)
      → contains current left ≡ false
      → Grows queue left part r
      → Reaches queue left part r
      → Reaches (current ∷ queue) left part r
  reach_skip current queue left part r n grows reaches k m h =
      elim (contains-cons_cases k current queue m) [
        | inl e ↦ grows k (ground (arith, h, e, n))
        | inr m' ↦ reaches k m' h
      ]

  reach_taken :
      (current : AtomId) (queue : List AtomId) (left part : BTreeSet AtomId) (r : Sets)
      → contains current left ≡ true
      → Grows (queue ++ neighbours adj current) (remove current left) (insert current part) r
      → Reaches (queue ++ neighbours adj current) (remove current left) (insert current part) r
      → Reaches (current ∷ queue) left part r
  reach_taken current queue left part r c grows reaches k m h =
      elim (contains-cons_cases k current queue m) [
        | inl e ↦ grows k (ground (arith, contains-insert k current part, nat_eq_iff k current, e))
        | inr m' ↦
            reaches k (ground (arith, contains-append k queue (neighbours adj current), m'))
              (moved k current left part c ∙ h)
      ]

  pub Reaches-rule :
      SearchRule adj (λ queue left part r. Grows queue left part r × Reaches queue left part r)
  Reaches-rule = record {
    done = λ left part. ((grows_rule adj).done left part, λ k m h. unfold contains in cc);
    skip = λ current queue left part r n p. (p.0, reach_skip current queue left part r n p.0 p.1);
    taken = λ current queue left part r m p. (
      (grows_rule adj).taken current queue left part r m p.0,
      reach_taken current queue left part r m p.0 p.1,
    );
  }

  -- Whatever an atom that joined the part is joined to, and could be taken, is in the part.
  abbrev pub Closed : List AtomId → BTreeSet AtomId → BTreeSet AtomId → Sets → Type 0
  Closed queue left part r =
      (k n : AtomId)
      → contains k r.1 ≡ true
      → contains k part ≡ false
      → contains n (neighbours adj k) ≡ true
      → (contains n left || contains n part) ≡ true
      → contains n r.1 ≡ true

  Closed-taken :
      (current : AtomId) (queue : List AtomId) (left part : BTreeSet AtomId) (r : Sets)
      → contains current left ≡ true
      → Reaches (queue ++ neighbours adj current) (remove current left) (insert current part) r
      → Closed (queue ++ neighbours adj current) (remove current left) (insert current part) r
      → Closed (current ∷ queue) left part r
  Closed-taken current queue left part r c reaches closed k n m absent edge h =
      elim (Bool-cases (nat_eq k current)) [
        | inl e ↦
            reaches n
              (ground (
                arith,
                contains-append n queue (neighbours adj current),
                edge,
                (nat_eq_iff k current).0 e,
              ))
              (moved n current left part c ∙ h)
        | inr other ↦
            closed k n m (ground (arith, contains-insert k current part, absent, other)) edge
              (moved n current left part c ∙ h)
      ]

  pub Closed-rule : SearchRule adj (λ queue left part r.
      Grows queue left part r × Reaches queue left part r × Closed queue left part r)
  Closed-rule = record {
    done = λ left part. (
      (grows_rule adj).done left part,
      λ k m h. unfold contains in cc,
      λ k n m absent edge h. cc,
    );
    skip =
        λ current queue left part r n p. (p.0, reach_skip current queue left part r n p.0 p.1, p.2);
    taken = λ current queue left part r m p. (
      (grows_rule adj).taken current queue left part r m p.0,
      reach_taken current queue left part r m p.0 p.1,
      Closed-taken current queue left part r m p.1 p.2,
    );
  }

  -- A label that no edge changes.
  abbrev pub IsStable : {L : Type 0} → (AtomId → L) → Type 0
  IsStable f = (a b : AtomId) → contains b (neighbours adj a) ≡ true → f a ≡ f b

  module _ {L : Type 0} (f : AtomId → L) (c : L) (stable : IsStable f) where
    -- If the queue has one label, then all that joins the part has that label.
    abbrev pub KeepsLabel : List AtomId → BTreeSet AtomId → BTreeSet AtomId → Sets → Type 0
    KeepsLabel queue left part r =
        ((k : AtomId) → contains k queue ≡ true → f k ≡ c)
        → (k : AtomId) → contains k r.1 ≡ true
        → contains k part ≡ false
        → f k ≡ c

    label_queue :
        (current : AtomId) (queue : List AtomId)
        → ((k : AtomId) → contains k (current ∷ queue) ≡ true → f k ≡ c)
        → (k : AtomId) → contains k (queue ++ neighbours adj current) ≡ true
        → f k ≡ c
    label_queue current queue labelled k m =
        elim (or_true _ _ (sym (contains-append k queue (neighbours adj current)) ∙ m)) [
          | inl here ↦ labelled k (contains-tail k current queue here)
          | inr next ↦ sym (stable current k next) ∙ labelled current (contains-head current queue)
        ]

    label_taken :
        (current : AtomId) (queue : List AtomId) (left part : BTreeSet AtomId) (r : Sets)
        → KeepsLabel (queue ++ neighbours adj current) (remove current left) (insert current part) r
        → KeepsLabel (current ∷ queue) left part r
    label_taken current queue left part r keeps labelled k m absent =
        elim (Bool-cases (nat_eq k current)) [
          | inl e ↦
              ap f ((nat_eq_iff k current).0 e) ∙ labelled current (contains-head current queue)
          | inr other ↦
              keeps (label_queue current queue labelled) k m
                (ground (arith, contains-insert k current part, absent, other))
        ]

    pub label_rule : SearchRule adj KeepsLabel
    label_rule = record {
      done = λ left part labelled k m absent. cc;
      skip = λ current queue left part r n keeps labelled.
          keeps (λ k m. labelled k (contains-tail k current queue m));
      taken = λ current queue left part r m keeps. label_taken current queue left part r keeps;
    }
