-- ===== src/Review/Components/Confidence.antt =====
-- crates/orkia-review/src/lib.rs: the range of `confidence`.
use boop_orkia_cli.Prelude.{
  ℕ, ◌≡◌, ◌≤◌, ◌<◌, ◌*◌, ◌%◌, ◌/◌, ◌^◌, List, [], ◌∷◌, arith, length, is_empty, nat_eq, false,
  Bool-cases, inl, inr,
}
use native.Mathlib.Nat.{div-lt_iff_lt-mul}
use boop_orkia_cli.Model.Atoms.{AtomDependency}
use boop_orkia_cli.Review.Components.{sum_confidence, confidence}

-- Every dependency is at most fully confident.
abbrev pub AllThousandths : List AtomDependency → Type 0
AllThousandths [] = Unit
AllThousandths (d ∷ ds) = (d.confidence_milli ≤ 1000) × AllThousandths ds

sum-le : (ds : List AtomDependency) → AllThousandths ds → sum_confidence ds ≤ 1000 * length ds
sum-le [] w = omega arith
sum-le (d ∷ ds) w = let rest = sum-le ds w.1 in let here = w.0 in omega arith

-- The sum does not reach 2 ^ 32, nor does the count.
quotient-le :
    (sum count : ℕ)
    → sum ≤ 1000 * count
    → 0 < count
    → count ≤ 4000000
    → ((sum % 2 ^ 32) / (count % 2 ^ 32)) % 2 ^ 16 ≤ 1000
quotient-le sum count h positive short =
    let sum_fits : sum % 2 ^ 32 ≡ sum = omega arith in
    let count_fits : count % 2 ^ 32 ≡ count = omega arith in
    let bound : sum / count < 1001 = (div-lt_iff_lt-mul positive).1 (omega arith) in
    rw (sum_fits, count_fits) (omega (arith, bound))

counts : (ds : List AtomDependency) → is_empty ds ≡ false → 0 < length ds
counts [] h = cc
counts (d ∷ ds) h = omega arith

-- The confidence of a unit is in thousandths when the confidences of the dependencies are, of which there
-- are at most four million.
pub confidence-le :
    (deps : List AtomDependency) (atom_count : ℕ)
    → AllThousandths deps
    → length deps ≤ 4000000
    → confidence deps atom_count ≤ 1000
unfolding confidence
confidence-le deps atom_count w short = elim (Bool-cases (nat_eq atom_count 0)) [
  | inl none_left ↦ rw none_left (omega arith)
  | inr some_left ↦ elim (Bool-cases (is_empty deps)) [
    | inl alone ↦ rw (some_left, alone) (omega arith)
    | inr joined ↦
        rw (some_left, joined)
          (quotient-le (sum_confidence deps) (length deps) (sum-le deps w) (counts deps joined)
            short)
  ]
]
