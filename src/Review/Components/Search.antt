-- ===== src/Review/Components/Search.antt =====
-- crates/orkia-review/src/lib.rs: the search of one component, what `explore` moves from the atoms that
-- are left to the part.
use boop_orkia_cli.Prelude.{
  ℕ, zero, suc, ◌≤◌, ◌≡◌, refl, ◌∙◌, true, false, ◌&&◌, ◌||◌, List, [], ◌∷◌, ◌++◌, arith, length,
  nat_eq_iff, nat_ord,
}
use boop_orkia_cli.Prelude.Sets.{
  BTreeSet, contains, insert, remove, IsSorted, contains-insert, contains-remove, length-remove-le,
  length-remove-lt,
}
use boop_orkia_cli.Prelude.Sets.Sorted.{insert-IsSorted, remove-IsSorted}
use boop_orkia_cli.Model.Ids.{AtomId}
use boop_orkia_cli.Review.Components.{Adjacency, neighbours, explore}

abbrev pub Sets : Type 0
Sets = BTreeSet AtomId × BTreeSet AtomId

-- A relation between the queue, the atoms left and the part before a search, and the sets after it,
-- that holds at the end, and of an atom that is skipped or taken if it does of the rest.
pub record SearchRule (adj : Adjacency)
    (P : List AtomId → BTreeSet AtomId → BTreeSet AtomId → Sets → Type 0) : Type 0 where
  pub done : (left part : BTreeSet AtomId) → P [] left part (left, part)
  pub skip :
      (current : AtomId) (queue : List AtomId) (left part : BTreeSet AtomId) (r : Sets)
      → contains current left ≡ false
      → P queue left part r
      → P (current ∷ queue) left part r
  pub taken :
      (current : AtomId) (queue : List AtomId) (left part : BTreeSet AtomId) (r : Sets)
      → contains current left ≡ true
      → P (queue ++ neighbours adj current) (remove current left) (insert current part) r
      → P (current ∷ queue) left part r

none_left : (k : AtomId) (left : BTreeSet AtomId) → length left ≤ 0 → contains k left ≡ false
unfolding contains
none_left k [] h = refl
none_left k (x ∷ left) h = absurd (omega arith)

module _ {adj : Adjacency} {P : List AtomId → BTreeSet AtomId → BTreeSet AtomId → Sets → Type 0}
    (rule : SearchRule adj P) where
  pub explore_rule :
      (bound : ℕ) (queue : List AtomId) (left part : BTreeSet AtomId)
      → length left ≤ bound
      → P queue left part (explore adj bound queue left part)
  unfolding explore
  explore_rule bound [] left part h = rule.done left part
  explore_rule zero (current ∷ queue) left part h =
      rule.skip current queue left part _ (none_left current left h)
        (explore_rule zero queue left part h)
  explore_rule (suc bound) (current ∷ queue) left part h =
      (elim (contains current left)
          as (λ b.
            contains current left ≡ b
            → P (current ∷ queue) left part (elim b [
              | true ↦
                  explore adj bound (queue ++ neighbours adj current) (remove current left)
                    (insert current part)
              | false ↦ explore adj (suc bound) queue left part
            ])) [
              | true ↦ λ m. rule.taken current queue left part _ m (
                  explore_rule bound (queue ++ neighbours adj current) (remove current left)
                    (insert current part) (omega (arith, length-remove-lt current left m)))
              | false ↦ λ n.
                  rule.skip current queue left part _ n (explore_rule (suc bound) queue left part h)
            ])
        refl

-- An atom is left or in the part after the search exactly if it was before.
abbrev pub Conserves : List AtomId → BTreeSet AtomId → BTreeSet AtomId → Sets → Type 0
Conserves queue left part r =
    (k : AtomId) → (contains k r.0 || contains k r.1) ≡ (contains k left || contains k part)

pub moved :
    (k current : AtomId) (left part : BTreeSet AtomId)
    → contains current left ≡ true
    → (contains k (remove current left) || contains k (insert current part))
      ≡ (contains k left || contains k part)
moved k current left part m =
    ground
      (arith, contains-remove k current left, contains-insert k current part, nat_eq_iff k current)

-- Sets with no common atom stay so.
abbrev pub IsApart : BTreeSet AtomId → BTreeSet AtomId → Type 0
IsApart left part = (k : AtomId) → (contains k left && contains k part) ≡ false

moved-IsApart :
    (current : AtomId) (left part : BTreeSet AtomId)
    → IsApart left part
    → IsApart (remove current left) (insert current part)
moved-IsApart current left part apart k = ground (
  arith,
  contains-remove k current left,
  contains-insert k current part,
  nat_eq_iff k current,
  apart k,
)

-- Every queued atom that the search may take is in the part after it.
abbrev pub Reaches : List AtomId → BTreeSet AtomId → BTreeSet AtomId → Sets → Type 0
Reaches queue left part r =
    (k : AtomId)
    → contains k queue ≡ true
    → (contains k left || contains k part) ≡ true
    → contains k r.1 ≡ true

module _ (adj : Adjacency) where
  pub Conserves-rule : SearchRule adj Conserves
  Conserves-rule = record {
    done = λ left part k. refl;
    skip = λ current queue left part r n p. p;
    taken = λ current queue left part r m p k. p k ∙ moved k current left part m;
  }

  pub IsApart-rule : SearchRule adj (λ queue left part r. IsApart left part → IsApart r.0 r.1)
  IsApart-rule = record {
    done = λ left part apart. apart;
    skip = λ current queue left part r n p. p;
    taken = λ current queue left part r m p apart. p (moved-IsApart current left part apart);
  }

  pub IsSorted-rule :
      SearchRule adj
        (λ queue left part r. IsSorted left → IsSorted part → IsSorted r.0 × IsSorted r.1)
  IsSorted-rule = record {
    done = λ left part s t. (s, t);
    skip = λ current queue left part r n p. p;
    taken = λ current queue left part r m p s t.
        p (remove-IsSorted current left s) (insert-IsSorted current part t);
  }

  pub length_rule : SearchRule adj (λ queue left part r. length r.0 ≤ length left)
  length_rule = record {
    done = λ left part. omega arith;
    skip = λ current queue left part r n p. p;
    taken = λ current queue left part r m p. omega (arith, length-remove-le current left, p);
  }

  -- The part only grows.
  pub grows_rule :
      SearchRule adj
        (λ queue left part r. (k : AtomId) → contains k part ≡ true → contains k r.1 ≡ true)
  grows_rule = record {
    done = λ left part k m. m;
    skip = λ current queue left part r n p. p;
    taken = λ current queue left part r m p k h.
        p k (ground (arith, contains-insert k current part, h));
  }
