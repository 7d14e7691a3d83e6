-- ===== src/Projection/Alignment/Optimal.antt =====
-- crates/orkia-projection/src/lib.rs: the alignment is a longest one.
use boop_orkia_cli.Prelude.{
  ℕ, zero, suc, ◌+◌, ◌≤◌, max, leb, ◌≡◌, refl, subst, ◌∙◌, ap, inl, inr, List, [], ◌∷◌, arith,
  length, drop, if◌then◌else◌, Ord, ◌==◌, ==→≡, ==-refl, Bool-cases,
}
use boop_orkia_cli.Projection.Alignment.{
  first_cell, next_cells, zeros, fill_row, first_row, fill_table, cell, align_from, align,
}

next_cells-drop : (b : ℕ) (row : List ℕ) → drop b (next_cells row) ≡ drop (suc b) row
next_cells-drop zero [] = refl
next_cells-drop (suc b) [] = refl
next_cells-drop b (c ∷ row) = refl

module _ {ℓ} {A : Type ℓ} where
  -- Pairs of positions of equal lines, each behind the one before in both texts, which start at the
  -- positions `i` and `j`.
  pub data IsAlignment : ℕ → ℕ → List A → List A → List (ℕ × ℕ) → Type ℓ where
    none_left : {i j : ℕ} {old new : List A} → IsAlignment i j old new []
    skip_old :
        {i j : ℕ} {x : A} {old new : List A} {pairs : List (ℕ × ℕ)}
        → IsAlignment (suc i) j old new pairs
        → IsAlignment i j (x ∷ old) new pairs
    skip_new :
        {i j : ℕ} {y : A} {old new : List A} {pairs : List (ℕ × ℕ)}
        → IsAlignment i (suc j) old new pairs
        → IsAlignment i j old (y ∷ new) pairs
    same_line :
        {i j : ℕ} {x : A} {old new : List A} {pairs : List (ℕ × ℕ)}
        → IsAlignment (suc i) (suc j) old new pairs
        → IsAlignment i j (x ∷ old) (x ∷ new) ((i, j) ∷ pairs)

module _ {ℓ} {A : Type ℓ} ⦃o : Ord A⦄ where
  -- The length of a longest common subsequence.
  unfoldable pub lcs : List A → List A → ℕ
  lcs [] new = 0
  lcs (x ∷ old) [] = 0
  lcs (x ∷ old) (y ∷ new) =
      if x == y then suc (lcs old new) else max (lcs old (y ∷ new)) (lcs (x ∷ old) new)

  lcs-nil : (old : List A) → lcs old [] ≡ 0
  unfolding lcs
  lcs-nil [] = refl
  lcs-nil (x ∷ old) = refl

  -- One more line makes it longer by one at most, and never shorter.
  lcs-cons :
      (old new : List A)
      → ((x : A) → (lcs old new ≤ lcs (x ∷ old) new) × (lcs (x ∷ old) new ≤ suc (lcs old new)))
        × ((y : A) → (lcs old new ≤ lcs old (y ∷ new)) × (lcs old (y ∷ new) ≤ suc (lcs old new)))
  unfolding lcs
  lcs-cons [] [] = (λ x. (omega arith, omega arith), λ y. (omega arith, omega arith))
  lcs-cons [] (z ∷ new) =
      (λ x. ground (arith, (lcs-cons [] new).0 x), λ y. (omega arith, omega arith))
  lcs-cons (z ∷ old) [] =
      (λ x. (omega arith, omega arith), λ y. ground (arith, (lcs-cons old []).1 y, lcs-nil old))
  lcs-cons (z ∷ old) (w ∷ new) = (
    λ x. ground (arith, (lcs-cons (z ∷ old) new).0 x, (lcs-cons (z ∷ old) new).1 w),
    λ y. ground (arith, (lcs-cons old (w ∷ new)).0 z, (lcs-cons old (w ∷ new)).1 y),
  )

  -- No alignment is longer.
  IsAlignment-le :
      {i j : ℕ} {old new : List A} {pairs : List (ℕ × ℕ)}
      → IsAlignment i j old new pairs
      → length pairs ≤ lcs old new
  unfolding lcs
  IsAlignment-le none_left = omega arith
  IsAlignment-le (skip_old {x} {old} {new} a) =
      omega (arith, IsAlignment-le a, (lcs-cons old new).0 x)
  IsAlignment-le (skip_new {y} {old} {new} a) =
      omega (arith, IsAlignment-le a, (lcs-cons old new).1 y)
  IsAlignment-le (same_line {x} {old} {new} a) = rw (==-refl x) (omega (arith, IsAlignment-le a))

  -- A row, and then the table, hold the lengths for the rest of the texts.
  fill_row-cell :
      (x : A) (old new : List A) (below : List ℕ)
      → ((b : ℕ) → first_cell (drop b below) ≡ lcs old (drop b new))
      → (b : ℕ) → first_cell (drop b (fill_row x new below)) ≡ lcs (x ∷ old) (drop b new)
  unfolding fill_row lcs
  fill_row-cell x old [] below h zero = refl
  fill_row-cell x old [] below h (suc zero) = refl
  fill_row-cell x old [] below h (suc (suc b)) = refl
  fill_row-cell x old (y ∷ new) below h zero =
      let below' = λ (b : ℕ). ap first_cell (next_cells-drop b below) ∙ h (suc b) in
      rw (h 0, below' 0, fill_row-cell x old new (next_cells below) below' 0) refl
  fill_row-cell x old (y ∷ new) below h (suc b) =
      fill_row-cell x old new (next_cells below)
        (λ b. ap first_cell (next_cells-drop b below) ∙ h (suc b)) b

  zeros-cell : (new : List A) (b : ℕ) → first_cell (drop b (zeros new)) ≡ 0
  zeros-cell [] zero = refl
  zeros-cell [] (suc zero) = refl
  zeros-cell [] (suc (suc b)) = refl
  zeros-cell (y ∷ new) zero = refl
  zeros-cell (y ∷ new) (suc b) = zeros-cell new b

  fill_table-cell :
      (old new : List A) (a b : ℕ) → cell (fill_table old new) a b ≡ lcs (drop a old) (drop b new)
  unfolding fill_table lcs
  fill_table-cell [] new zero b = zeros-cell new b
  fill_table-cell [] new (suc zero) zero = refl
  fill_table-cell [] new (suc zero) (suc b) = refl
  fill_table-cell [] new (suc (suc a)) zero = refl
  fill_table-cell [] new (suc (suc a)) (suc b) = refl
  fill_table-cell (x ∷ old) new zero b =
      fill_row-cell x old new (first_row (fill_table old new)) (fill_table-cell old new 0) b
  fill_table-cell (x ∷ old) new (suc a) b = fill_table-cell old new a b

  -- The loop finds an alignment as long as the table says.
  module _ (table : List (List ℕ)) where
    -- From the positions `i` and `j` on, the table is that of the rest of the texts.
    abbrev IsTableAt : ℕ → ℕ → List A → List A → Type 0
    IsTableAt i j old new = (a b : ℕ) → cell table (a + i) (b + j) ≡ lcs (drop a old) (drop b new)

    below_row :
        (i j : ℕ) (x : A) (old new : List A)
        → IsTableAt i j (x ∷ old) new
        → IsTableAt (suc i) j old new
    below_row i j x old new t a b =
        let e : suc a + i ≡ a + suc i = omega arith in
        subst (λ k. cell table k (b + j) ≡ lcs (drop a old) (drop b new)) e (t (suc a) b)

    next_column :
        (i j : ℕ) (y : A) (old new : List A)
        → IsTableAt i j old (y ∷ new)
        → IsTableAt i (suc j) old new
    next_column i j y old new t a b =
        let e : suc b + j ≡ b + suc j = omega arith in
        subst (λ k. cell table (a + i) k ≡ lcs (drop a old) (drop b new)) e (t a (suc b))

    align_from-lem :
        (i j : ℕ) (old new : List A)
        → IsTableAt i j old new
        → IsAlignment i j old new (align_from table i j old new)
          × (length (align_from table i j old new) ≡ lcs old new)
    unfolding align_from lcs
    align_from-lem i j [] new t = (none_left, refl)
    align_from-lem i j (x ∷ old) [] t = (none_left, refl)
    align_from-lem i j (x ∷ old) (y ∷ new) t = elim (Bool-cases (x == y)) [
      | inl e ↦
          let (a, l) =
            align_from-lem (suc i) (suc j) old new
              (next_column (suc i) j y old new (below_row i j x old (y ∷ new) t)) in
          rw (align_from, e)
            (
              subst
                  (λ z.
                    IsAlignment i j (x ∷ old) (z ∷ new)
                      ((i, j) ∷ align_from table (suc i) (suc j) old new))
                  (==→≡ x y e) (same_line a),
              ap suc l,
            )
      | inr n ↦
          let below = below_row i j x old (y ∷ new) t in
          let right = next_column i j y (x ∷ old) new t in
          let (a, l) = align_from-lem (suc i) j old (y ∷ new) below in
          let (b, m) = align_from-lem i (suc j) (x ∷ old) new right in
          elim (Bool-cases (leb (cell table i (suc j)) (cell table (suc i) j))) [
            | inl c ↦
                rw (align_from, n, c) (skip_old a, rw l (ground (arith, below 0 0, right 0 0)))
            | inr c ↦
                rw (align_from, n, c) (skip_new b, rw m (ground (arith, below 0 0, right 0 0)))
          ]
    ]

  -- The aligned positions of two texts are those of equal lines, increase in both texts, and are as many
  -- as those of any other alignment at least.
  pub align-IsAlignment :
      (old new : List A)
      → IsAlignment 0 0 old new (align old new)
        × ((pairs : List (ℕ × ℕ))
            → IsAlignment 0 0 old new pairs
            → length pairs ≤ length (align old new))
  unfolding align
  align-IsAlignment old new =
      let initial_cells : IsTableAt (fill_table old new) 0 0 old new = λ a b.
        let e : a ≡ a + 0 = omega arith in
        let f : b ≡ b + 0 = omega arith in
        subst (λ k. cell (fill_table old new) k (b + 0) ≡ lcs (drop a old) (drop b new)) e
          (subst (λ k. cell (fill_table old new) a k ≡ lcs (drop a old) (drop b new)) f
            (fill_table-cell old new a b)) in
      let (a, l) = align_from-lem (fill_table old new) 0 0 old new (λ a b. initial_cells a b) in
      (a, λ pairs p. rw l (IsAlignment-le p))
