-- ===== src/Forge/Counts.antt =====
-- crates/orkia-forge/src/lib.rs: how often a pull request stands among what a round takes and leaves.
use boop_orkia_cli.Prelude.{
  ℕ, ◌≤◌, ◌≡◌, refl, Bool, List, [], ◌∷◌, arith, filter, nat_eq, nat_ord, if◌then◌else◌, ltb,
}
use boop_orkia_cli.Prelude.Sets.{contains, remove}
use boop_orkia_cli.Review.Planning.Coverage.{occurrences}

pub occurrences-remove :
    (k a : ℕ) (xs : List ℕ)
    → occurrences k (remove a xs) ≡ (if nat_eq k a then 0 else occurrences k xs)
unfolding occurrences remove
occurrences-remove k a [] = ground arith
occurrences-remove k a (x ∷ xs) = ground (arith, occurrences-remove k a xs)

pub occurrences-filter-le :
    (k : ℕ) (p : ℕ → Bool) (xs : List ℕ) → occurrences k (filter p xs) ≤ occurrences k xs
unfolding occurrences
occurrences-filter-le k p [] = omega arith
occurrences-filter-le k p (x ∷ xs) = ground (arith, occurrences-filter-le k p xs)

pub contains-occurrences : (k : ℕ) (xs : List ℕ) → contains k xs ≡ ltb 0 (occurrences k xs)
unfolding occurrences contains
contains-occurrences k [] = refl
contains-occurrences k (x ∷ xs) = ground (arith, contains-occurrences k xs)
