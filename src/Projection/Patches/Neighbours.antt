-- ===== src/Projection/Patches/Neighbours.antt =====
-- crates/orkia-projection/src/lib.rs: where the aligned lines next to a range lie.
use boop_orkia_cli.Prelude.{
  ℕ, suc, ◌+◌, ◌≤◌, ◌<◌, ◌≡◌, refl, leb, ltb, false, Option, none, some, List, [], ◌∷◌, arith,
  if◌then◌else◌, inl, inr, Bool-cases, length, filter, nat_ord, list_ord,
}
use boop_orkia_cli.Projection.Alignment.Optimal.{IsAlignment}
use boop_orkia_cli.Projection.Patches.{last?, old_position, previous, following}

-- The later of two found lines.
abbrev or_else : Option ℕ → ℕ → Option ℕ
or_else none i = some i
or_else (some p) i = some p

or_else-or_else : (o : Option ℕ) (k i : ℕ) → or_else o k ≡ or_else (or_else o k) i
or_else-or_else none k i = refl
or_else-or_else (some p) k i = refl

last?-cons :
    (i j : ℕ) (pairs : List (ℕ × ℕ))
    → old_position (last? ((i, j) ∷ pairs)) ≡ or_else (old_position (last? pairs)) i
last?-cons i j [] = refl
last?-cons i j ((k, l) ∷ pairs) = rw (last?-cons k l pairs) (or_else-or_else _ k i)

previous-cons :
    (i j start : ℕ) (pairs : List (ℕ × ℕ))
    → previous ((i, j) ∷ pairs) start
      ≡ (if ltb j start then or_else (previous pairs start) i else previous pairs start)
unfolding previous
previous-cons i j start pairs = elim (Bool-cases (ltb j start)) [
  | inl e ↦ rw e (last?-cons i j (filter (λ p. ltb p.1 start) pairs))
  | inr n ↦ rw n refl
]

following-cons :
    (i j end : ℕ) (pairs : List (ℕ × ℕ))
    → following ((i, j) ∷ pairs) end ≡ (if leb end j then some i else following pairs end)
unfolding following
following-cons i j end pairs = elim (Bool-cases (leb end j)) [
  | inl e ↦ rw e refl
  | inr n ↦ rw n refl
]

-- Where a found line lies.
abbrev pub IsWithin : ℕ → ℕ → Option ℕ → Type 0
IsWithin low high none = Unit
IsWithin low high (some p) = (low ≤ p) × (p < high)

IsWithin-widen :
    {low high low' high' : ℕ} (o : Option ℕ)
    → low' ≤ low
    → high ≤ high'
    → IsWithin low high o
    → IsWithin low' high' o
IsWithin-widen none h k w = tt
IsWithin-widen (some p) h k w = (omega arith, omega arith)

IsWithin-or_else :
    (i n : ℕ) (o : Option ℕ) → IsWithin (suc i) (suc i + n) o → IsWithin i (i + suc n) (or_else o i)
IsWithin-or_else i n none w = (omega arith, omega arith)
IsWithin-or_else i n (some p) w = (omega arith, omega arith)

-- The first of two lines, where both are found, is in front of the second.
abbrev pub IsBefore : Option ℕ → Option ℕ → Type 0
IsBefore none o = Unit
IsBefore (some p) none = Unit
IsBefore (some p) (some q) = p < q

IsBefore-or_else :
    (i high : ℕ) (o following : Option ℕ)
    → IsWithin (suc i) high following
    → IsBefore o following
    → IsBefore (or_else o i) following
IsBefore-or_else i high none none w b = tt
IsBefore-or_else i high (some p) none w b = tt
IsBefore-or_else i high none (some q) w b = omega arith
IsBefore-or_else i high (some p) (some q) w b = b

module _ {A : Type 0} where
  pub previous-IsWithin :
      {i j : ℕ} {old new : List A} {pairs : List (ℕ × ℕ)} (start : ℕ)
      → IsAlignment i j old new pairs
      → IsWithin i (i + length old) (previous pairs start)
  unfolding previous
  previous-IsWithin start IsAlignment.none_left = tt
  previous-IsWithin start (IsAlignment.skip_old {pairs} a) =
      IsWithin-widen (previous pairs start) (omega arith) (omega arith) (previous-IsWithin start a)
  previous-IsWithin start (IsAlignment.skip_new a) = previous-IsWithin start a
  previous-IsWithin start (IsAlignment.same_line {i} {j} {old} {pairs} a) =
      let within = previous-IsWithin start a in
      elim (Bool-cases (ltb j start)) [
        | inl e ↦
            rw (previous-cons i j start pairs, e)
              (IsWithin-or_else i (length old) (previous pairs start) within)
        | inr n ↦
            rw (previous-cons i j start pairs, n)
              (IsWithin-widen (previous pairs start) (omega arith) (omega arith) within)
      ]

  pub following-IsWithin :
      {i j : ℕ} {old new : List A} {pairs : List (ℕ × ℕ)} (end : ℕ)
      → IsAlignment i j old new pairs
      → IsWithin i (i + length old) (following pairs end)
  unfolding following
  following-IsWithin end IsAlignment.none_left = tt
  following-IsWithin end (IsAlignment.skip_old {pairs} a) =
      IsWithin-widen (following pairs end) (omega arith) (omega arith) (following-IsWithin end a)
  following-IsWithin end (IsAlignment.skip_new a) = following-IsWithin end a
  following-IsWithin end (IsAlignment.same_line {i} {j} {pairs} a) = elim (Bool-cases (leb end j)) [
    | inl e ↦ rw (following-cons i j end pairs, e) (omega arith, omega arith)
    | inr n ↦
        rw (following-cons i j end pairs, n)
          (IsWithin-widen (following pairs end) (omega arith) (omega arith)
            (following-IsWithin end a))
  ]

  previous-none :
      {i j : ℕ} {old new : List A} {pairs : List (ℕ × ℕ)} (start : ℕ)
      → start ≤ j
      → IsAlignment i j old new pairs
      → previous pairs start ≡ none
  unfolding previous
  previous-none start h IsAlignment.none_left = refl
  previous-none start h (IsAlignment.skip_old a) = previous-none start h a
  previous-none start h (IsAlignment.skip_new a) = previous-none start (omega arith) a
  previous-none start h (IsAlignment.same_line {i} {j} {pairs} a) =
      let late : ltb j start ≡ false = ground arith in
      rw (previous-cons i j start pairs, late) (previous-none start (omega arith) a)

  pub previous-following :
      {i j : ℕ} {old new : List A} {pairs : List (ℕ × ℕ)} (start end : ℕ)
      → start ≤ end
      → IsAlignment i j old new pairs
      → IsBefore (previous pairs start) (following pairs end)
  unfolding previous following
  previous-following start end h IsAlignment.none_left = tt
  previous-following start end h (IsAlignment.skip_old a) = previous-following start end h a
  previous-following start end h (IsAlignment.skip_new a) = previous-following start end h a
  previous-following start end h (IsAlignment.same_line {i} {j} {old} {pairs} a) =
      elim (Bool-cases (leb end j)) [
        | inl e ↦
            let late : ltb j start ≡ false = ground arith in
            rw (previous-cons i j start pairs, late, previous-none start (ground arith) a) tt
        | inr n ↦
            let before = previous-following start end h a in
            elim (Bool-cases (ltb j start)) [
              | inl e ↦
                  rw (previous-cons i j start pairs, following-cons i j end pairs, e, n)
                    (IsBefore-or_else i (suc i + length old) (previous pairs start)
                      (following pairs end) (following-IsWithin end a) before)
              | inr m ↦
                  rw (previous-cons i j start pairs, following-cons i j end pairs, m, n) before
            ]
      ]
