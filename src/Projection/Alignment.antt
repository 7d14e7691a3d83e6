-- ===== src/Projection/Alignment.antt =====
-- crates/orkia-projection/src/lib.rs: `align_lines`, over any type of lines. A row of the table holds the
-- cells of one line of the old text, the last cell that of the end of the new text.
pub mod Optimal
use boop_orkia_cli.Prelude.{
  ℕ, zero, suc, max, leb, Bool, true, false, List, [], ◌∷◌, if◌then◌else◌, drop, Ord, ◌==◌,
}

-- The first cell of a row, and the row from the next column on.
abbrev pub first_cell : List ℕ → ℕ
first_cell [] = 0
first_cell (cell ∷ row) = cell

abbrev pub next_cells : List ℕ → List ℕ
next_cells [] = []
next_cells (cell ∷ row) = row

-- The row below the last line: `vec![0; new.len() + 1]`.
abbrev pub zeros {ℓ} : {A : Type ℓ} → List A → List ℕ
zeros [] = 0 ∷ []
zeros (y ∷ new) = 0 ∷ zeros new

abbrev pub first_row : List (List ℕ) → List ℕ
first_row [] = []
first_row (row ∷ table) = row

-- `table[old_index][new_index]`
abbrev pub cell : List (List ℕ) → ℕ → ℕ → ℕ
cell table old_index new_index = first_cell (drop new_index (first_row (drop old_index table)))

module _ {ℓ} {A : Type ℓ} ⦃o : Ord A⦄ where
  -- The inner loop, which fills a row from its end, given the row below.
  unfoldable pub fill_row : A → List A → List ℕ → List ℕ
  fill_row x [] below = 0 ∷ []
  fill_row x (y ∷ new) below =
      let row = fill_row x new (next_cells below) in
      (if x == y
        then suc (first_cell (next_cells below))
        else max (first_cell below) (first_cell row))
      ∷ row

  -- The outer loop.
  unfoldable pub fill_table : List A → List A → List (List ℕ)
  fill_table [] new = zeros new ∷ []
  fill_table (x ∷ old) new =
      let table = fill_table old new in fill_row x new (first_row table) ∷ table

  -- The `while` loop, with `old[old_index..]` and `new[new_index..]`.
  unfoldable pub align_from : List (List ℕ) → ℕ → ℕ → List A → List A → List (ℕ × ℕ)
  align_from table i j [] new = []
  align_from table i j (x ∷ old) [] = []
  align_from table i j (x ∷ old) (y ∷ new) = elim (x == y) [
    | true ↦ (i, j) ∷ align_from table (suc i) (suc j) old new
    | false ↦ elim (leb (cell table i (suc j)) (cell table (suc i) j)) [
      | true ↦ align_from table (suc i) j old (y ∷ new)
      | false ↦ align_from table i (suc j) (x ∷ old) new
    ]
  ]

  -- `align_lines`, of the lines of the two texts.
  unfoldable pub align : List A → List A → List (ℕ × ℕ)
  align old new = align_from (fill_table old new) 0 0 old new
