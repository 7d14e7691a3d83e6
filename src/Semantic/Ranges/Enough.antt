-- ===== src/Semantic/Ranges/Enough.antt =====
-- crates/orkia-semantic/src/lib.rs: the loops of `changed_line_ranges` end.
use boop_orkia_cli.Prelude.{
  ℕ, zero, suc, ◌+◌, ◌≤◌, ◌<◌, ltb, ◌≡◌, refl, ◌&&◌, true, false, inl, inr, Bool-cases, List, [],
  ◌∷◌, arith, length, is_empty, nat_ord, list_ord, ◌==◌,
}
use boop_orkia_cli.Prelude.Text.{Text}
use boop_orkia_cli.Projection.Alignment.{cell}
use boop_orkia_cli.Semantic.Ranges.{
  Place, place, skip, finish, starts_equal, tail, skipped, next_place, next_ranges, ranges_from,
}

abbrev left_over : Place → ℕ
left_over p = length p.old_rest + length p.new_rest

skip-le :
    (lcs : List (List ℕ)) (i j : ℕ) (old new : List Text)
    → left_over (skip lcs i j old new) ≤ length old + length new
unfolding skip
skip-le lcs i j [] new = omega arith
skip-le lcs i j (x ∷ old) [] = omega arith
skip-le lcs i j (x ∷ old) (y ∷ new) = elim (Bool-cases (x == y)) [
  | inl e ↦ rw (skip, e) (omega arith)
  | inr n ↦ elim (Bool-cases (ltb (cell lcs i (suc j)) (cell lcs (suc i) j))) [
    | inl c ↦ rw (skip, n, c) (omega (arith, skip-le lcs (suc i) j old (y ∷ new)))
    | inr c ↦ rw (skip, n, c) (omega (arith, skip-le lcs i (suc j) (x ∷ old) new))
  ]
]

-- Different first lines: the inner loop takes one of them at least.
skip-lt :
    (lcs : List (List ℕ)) (i j : ℕ) (x y : Text) (old new : List Text)
    → (x == y) ≡ false
    → left_over (skip lcs i j (x ∷ old) (y ∷ new)) < length (x ∷ old) + length (y ∷ new)
unfolding skip
skip-lt lcs i j x y old new n = elim (Bool-cases (ltb (cell lcs i (suc j)) (cell lcs (suc i) j))) [
  | inl c ↦ rw (skip, n, c) (omega (arith, skip-le lcs (suc i) j old (y ∷ new)))
  | inr c ↦ rw (skip, n, c) (omega (arith, skip-le lcs i (suc j) (x ∷ old) new))
]

finish-le :
    (os ns : ℕ) (p : Place) (old new : List Text)
    → left_over p ≡ length old + length new
    → left_over (finish os ns p old new) ≤ length old + length new
finish-le os ns p [] new h = omega arith
finish-le os ns p (x ∷ old) [] h = omega arith
finish-le os ns p (x ∷ old) (y ∷ new) h = omega (arith, h)

nothing_left :
    (old new : List Text) → length old + length new ≤ 0 → (is_empty old && is_empty new) ≡ true
nothing_left [] [] h = refl
nothing_left [] (y ∷ new) h = absurd (omega arith)
nothing_left (x ∷ old) new h = absurd (omega arith)

skipped-lt :
    (lcs : List (List ℕ)) (os ns i j : ℕ) (old new : List Text)
    → (is_empty old && is_empty new) ≡ false
    → starts_equal old new ≡ false
    → left_over (skipped lcs os ns (place i j old new)) < length old + length new
unfolding skip
skipped-lt lcs os ns i j [] [] h n = cc
skipped-lt lcs os ns i j [] (y ∷ new) h n = omega arith
skipped-lt lcs os ns i j (x ∷ old) [] h n = omega arith
skipped-lt lcs os ns i j (x ∷ old) (y ∷ new) h n =
    let q = skip lcs i j (x ∷ old) (y ∷ new) in
    omega (arith, skip-lt lcs i j x y old new n, finish-le os ns q q.old_rest q.new_rest refl)

next_place-lt :
    (lcs : List (List ℕ)) (os ns i j : ℕ) (old new : List Text)
    → (is_empty old && is_empty new) ≡ false
    → left_over (next_place lcs os ns (place i j old new)) < length old + length new
unfolding next_place
next_place-lt lcs os ns i j old new h = elim (Bool-cases (starts_equal old new)) [
  | inl e ↦ rw e (tails old new e)
  | inr n ↦ rw n (skipped-lt lcs os ns i j old new h n)
]
  where
    tails :
        (old new : List Text)
        → starts_equal old new ≡ true
        → length (tail old) + length (tail new) < length old + length new
    tails [] new e = cc
    tails (x ∷ old) [] e = cc
    tails (x ∷ old) (y ∷ new) e = omega arith

-- More fuel than there are lines left does not change the ranges.
pub ranges_from-enough :
    (fuel more : ℕ) (lcs : List (List ℕ)) (os ns : ℕ) (p : Place) (ranges : List (ℕ × ℕ))
    → length p.old_rest + length p.new_rest ≤ fuel
    → length p.old_rest + length p.new_rest ≤ more
    → ranges_from fuel lcs os ns p ranges ≡ ranges_from more lcs os ns p ranges
unfolding ranges_from
ranges_from-enough zero zero lcs os ns p ranges h k = refl
ranges_from-enough zero (suc more) lcs os ns p ranges h k =
    rw (ranges_from, nothing_left p.old_rest p.new_rest h) refl
ranges_from-enough (suc fuel) zero lcs os ns p ranges h k =
    rw (ranges_from, nothing_left p.old_rest p.new_rest k) refl
ranges_from-enough (suc fuel) (suc more) lcs os ns p ranges h k =
    elim (Bool-cases (is_empty p.old_rest && is_empty p.new_rest)) [
      | inl e ↦ rw (ranges_from, e) refl
      | inr n ↦
          let less = next_place-lt lcs os ns p.old_index p.new_index p.old_rest p.new_rest n in
          rw (ranges_from, n)
            (ranges_from-enough fuel more lcs os ns (next_place lcs os ns p)
              (next_ranges lcs os ns p ranges) (omega (arith, less)) (omega (arith, less)))
    ]
