-- ===== src/Semantic/Ranges/Separated.antt =====
-- crates/orkia-semantic/src/lib.rs: the ranges of `changed_line_ranges`.
use boop_orkia_cli.Prelude.{
  ℕ, zero, suc, ◌+◌, ◌-◌, ◌≤◌, ◌<◌, ◌^◌, min, max, leb, ltb, ◌≡◌, refl, sym, subst, ◌&&◌, true, inl,
  inr, Bool-cases, List, [], ◌∷◌, arith, length, is_empty, nat_ord, list_ord, ◌==◌,
}
use boop_orkia_cli.Prelude.Text.{Text}
use boop_orkia_cli.Projection.Alignment.{cell, fill_table}
use boop_orkia_cli.Projection.Patches.{split_lines}
use boop_orkia_cli.Semantic.Ranges.{
  Place, place, skip, finish, to_u32, range_between, push_range, starts_equal, tail, skipped,
  next_place, next_ranges, ranges_from, line_ranges, changed_line_ranges,
}

-- Ranges of lines of a text of `size` lines, each at least two lines behind the end of the one before.
abbrev pub AreSeparated : ℕ → ℕ → List (ℕ × ℕ) → Type 0
AreSeparated size low [] = Unit
AreSeparated size low ((s, e) ∷ ranges) =
    (low ≤ s) × (s ≤ e) × (e ≤ size) × AreSeparated size (suc (suc e)) ranges

module _ (size : ℕ) (small : size < 2 ^ 32 - 1) where
  to_u32_small : (n : ℕ) → n ≤ suc size → to_u32 n ≡ n
  to_u32_small n h = omega arith

  push_range-behind :
      (low : ℕ) (first : ℕ × ℕ) (ranges : List (ℕ × ℕ)) (s e : ℕ)
      → s ≤ e
      → e ≤ size
      → AreSeparated size low (first ∷ ranges)
      → AreSeparated size low (push_range (first ∷ ranges) (s, e))
  unfolding push_range
  push_range-behind low (s', e') [] s e b c h =
      let wide = to_u32_small (e' + 1) (omega (arith, h.2)) in
      elim (Bool-cases (leb s (to_u32 (e' + 1)))) [
        | inl m ↦ rw m (h.0, omega (arith, h.1), omega (arith, h.2), tt)
        | inr n ↦ rw n (h.0, h.1, h.2, (ground (arith, wide), b, c, tt))
      ]
  push_range-behind low (s', e') (second ∷ ranges) s e b c h =
      (h.0, h.1, h.2, push_range-behind (suc (suc e')) second ranges s e b c h.3)

  push_range-AreSeparated :
      (ranges : List (ℕ × ℕ)) (r : ℕ × ℕ)
      → (1 ≤ r.0) × (r.0 ≤ r.1) × (r.1 ≤ size)
      → AreSeparated size 1 ranges
      → AreSeparated size 1 (push_range ranges r)
  unfolding push_range
  push_range-AreSeparated [] (s, e) (a, b, c) h = (a, b, c, tt)
  push_range-AreSeparated (first ∷ ranges) (s, e) (a, b, c) h =
      push_range-behind 1 first ranges s e b c h

  range_between-in_range :
      (start end : ℕ)
      → 1 ≤ size
      → end ≤ size
      → (1 ≤ (range_between size start end).0)
        × ((range_between size start end).0 ≤ (range_between size start end).1)
        × ((range_between size start end).1 ≤ size)
  unfolding range_between
  range_between-in_range start end filled inside =
      let anchor = min start (size - 1) in
      let a = to_u32_small end (omega arith) in
      let d = to_u32_small anchor (omega arith) in
      let e = to_u32_small (anchor + 1) (omega arith) in
      elim (Bool-cases (ltb start end)) [
        | inl m ↦
            let short : start < end = ground arith in
            let b = to_u32_small start (omega (arith, short)) in
            let c = to_u32_small (start + 1) (omega (arith, short)) in
            rw (m, b, c, a) (omega arith, omega (arith, short), inside)
        | inr n ↦ rw (n, d, e) (omega arith, omega arith, omega arith)
      ]

  -- The new lines in front of a place and from it on are all.
  abbrev IsPlaced : Place → Type 0
  IsPlaced p = p.new_index + length p.new_rest ≡ size

  skip-IsPlaced :
      (lcs : List (List ℕ)) (i j : ℕ) (old new : List Text)
      → j + length new ≡ size
      → IsPlaced (skip lcs i j old new)
  unfolding skip
  skip-IsPlaced lcs i j [] new h = h
  skip-IsPlaced lcs i j (x ∷ old) [] h = h
  skip-IsPlaced lcs i j (x ∷ old) (y ∷ new) h = elim (Bool-cases (x == y)) [
    | inl e ↦ rw (skip, e) h
    | inr n ↦ elim (Bool-cases (ltb (cell lcs i (suc j)) (cell lcs (suc i) j))) [
      | inl c ↦ rw (skip, n, c) (skip-IsPlaced lcs (suc i) j old (y ∷ new) h)
      | inr c ↦ rw (skip, n, c) (skip-IsPlaced lcs i (suc j) (x ∷ old) new (omega (arith, h)))
    ]
  ]

  finish-IsPlaced :
      (os : ℕ) (p : Place) (old new : List Text)
      → IsPlaced p
      → length new ≡ length p.new_rest
      → IsPlaced (finish os size p old new)
  finish-IsPlaced os p [] new h e = omega arith
  finish-IsPlaced os p (x ∷ old) [] h e = omega (arith, h, e)
  finish-IsPlaced os p (x ∷ old) (y ∷ new) h e = h

  skipped-IsPlaced :
      (lcs : List (List ℕ)) (os : ℕ) (p : Place) → IsPlaced p → IsPlaced (skipped lcs os size p)
  skipped-IsPlaced lcs os p h =
      let q = skip lcs p.old_index p.new_index p.old_rest p.new_rest in
      finish-IsPlaced os q q.old_rest q.new_rest
        (skip-IsPlaced lcs p.old_index p.new_index p.old_rest p.new_rest h) refl

  next_place-IsPlaced :
      (lcs : List (List ℕ)) (os : ℕ) (p : Place) → IsPlaced p → IsPlaced (next_place lcs os size p)
  unfolding next_place
  next_place-IsPlaced lcs os p h = elim (Bool-cases (starts_equal p.old_rest p.new_rest)) [
    | inl e ↦ rw e (omega (arith, h, one_less p.old_rest p.new_rest e))
    | inr n ↦ rw n (skipped-IsPlaced lcs os p h)
  ]
    where
      one_less :
          (old new : List Text) → starts_equal old new ≡ true → suc (length (tail new)) ≡ length new
      one_less [] new e = cc
      one_less (x ∷ old) [] e = cc
      one_less (x ∷ old) (y ∷ new) e = refl

  next_ranges-AreSeparated :
      (lcs : List (List ℕ)) (os : ℕ) (p : Place) (ranges : List (ℕ × ℕ))
      → 1 ≤ size
      → IsPlaced p
      → AreSeparated size 1 ranges
      → AreSeparated size 1 (next_ranges lcs os size p ranges)
  unfolding next_ranges
  next_ranges-AreSeparated lcs os p ranges filled h r =
      elim (Bool-cases (starts_equal p.old_rest p.new_rest)) [
        | inl e ↦ rw e r
        | inr n ↦
            let q = skipped lcs os size p in
            rw n (
              push_range-AreSeparated ranges _
                (range_between-in_range p.new_index q.new_index filled
                  (omega (arith, skipped-IsPlaced lcs os p h)))
                r)
      ]

  ranges_from-AreSeparated :
      (fuel : ℕ) (lcs : List (List ℕ)) (os : ℕ) (p : Place) (ranges : List (ℕ × ℕ))
      → 1 ≤ size
      → IsPlaced p
      → AreSeparated size 1 ranges
      → AreSeparated size 1 (ranges_from fuel lcs os size p ranges)
  unfolding ranges_from
  ranges_from-AreSeparated zero lcs os p ranges filled h r = r
  ranges_from-AreSeparated (suc fuel) lcs os p ranges filled h r =
      elim (Bool-cases (is_empty p.old_rest && is_empty p.new_rest)) [
        | inl e ↦ rw (ranges_from, e) r
        | inr n ↦
            rw (ranges_from, n)
              (ranges_from-AreSeparated fuel lcs os (next_place lcs os size p)
                (next_ranges lcs os size p ranges) filled (next_place-IsPlaced lcs os p h)
                (next_ranges-AreSeparated lcs os p ranges filled h r))
      ]

line_ranges-AreSeparated :
    (old new : List Text)
    → length new < 2 ^ 32 - 1
    → AreSeparated (max 1 (length new)) 1 (line_ranges old new)
unfolding line_ranges
line_ranges-AreSeparated [] [] small = tt
line_ranges-AreSeparated [] (y ∷ new) small =
    let e = to_u32_small (length (y ∷ new)) small (length (y ∷ new)) (omega arith) in
    rw e (omega arith, omega arith, omega arith, tt)
line_ranges-AreSeparated (x ∷ old) [] small = (omega arith, omega arith, omega arith, tt)
line_ranges-AreSeparated (x ∷ old) (y ∷ new) small =
    let size : max 1 (length (y ∷ new)) ≡ length (y ∷ new) = omega arith in
    let ranges =
      ranges_from (length (x ∷ old) + length (y ∷ new)) (fill_table (x ∷ old) (y ∷ new))
        (length (x ∷ old)) (length (y ∷ new)) (place 0 0 (x ∷ old) (y ∷ new)) [] in
    subst (λ n. AreSeparated n 1 ranges) (sym size)
      (ranges_from-AreSeparated (length (y ∷ new)) small (length (x ∷ old) + length (y ∷ new))
        (fill_table (x ∷ old) (y ∷ new)) (length (x ∷ old)) (place 0 0 (x ∷ old) (y ∷ new)) []
        (omega arith) (omega arith) tt)

-- The changed ranges of a new content of less than 2 ^ 32 - 1 lines lie among its lines, where a content
-- without lines counts as one, and are in order with at least one line between each two.
pub changed_line_ranges-AreSeparated :
    (old new : Text)
    → length (split_lines new) < 2 ^ 32 - 1
    → AreSeparated (max 1 (length (split_lines new))) 1 (changed_line_ranges old new)
unfolding changed_line_ranges
changed_line_ranges-AreSeparated old new small =
    elim (Bool-cases (◌==◌ {A = List Text} (split_lines old) (split_lines new))) [
      | inl e ↦ rw e tt
      | inr n ↦ rw n (line_ranges-AreSeparated (split_lines old) (split_lines new) small)
    ]
