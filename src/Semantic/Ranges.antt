-- ===== src/Semantic/Ranges.antt =====
-- crates/orkia-semantic/src/lib.rs: `changed_line_ranges`.
pub mod Separated
pub mod Enough
use boop_orkia_cli.Prelude.{
  ℕ, zero, suc, ◌+◌, ◌-◌, ◌%◌, ◌^◌, min, max, leb, ltb, ◌&&◌, Bool, true, false, List, [], ◌∷◌,
  is_empty, length, if◌then◌else◌, nat_ord, list_ord, ◌==◌,
}
use boop_orkia_cli.Prelude.Text.{Text}
use boop_orkia_cli.Projection.Alignment.{cell, fill_table}
use boop_orkia_cli.Projection.Patches.{split_lines}

-- Where the two loops stand: the indices, and the lines from them on.
pub record Place : Type 0 where
  pub old_index : ℕ
  pub new_index : ℕ
  pub old_rest : List Text
  pub new_rest : List Text

abbrev pub place : ℕ → ℕ → List Text → List Text → Place
place i j old new = record { old_index = i; new_index = j; old_rest = old; new_rest = new }

-- The inner `while` loop, to the next equal lines or the end of a side.
unfoldable pub skip : List (List ℕ) → ℕ → ℕ → List Text → List Text → Place
skip lcs i j [] new = place i j [] new
skip lcs i j (x ∷ old) [] = place i j (x ∷ old) []
skip lcs i j (x ∷ old) (y ∷ new) = elim (x == y) [
  | true ↦ place i j (x ∷ old) (y ∷ new)
  | false ↦ elim (ltb (cell lcs i (suc j)) (cell lcs (suc i) j)) [
    | true ↦ skip lcs (suc i) j old (y ∷ new)
    | false ↦ skip lcs i (suc j) (x ∷ old) new
  ]
]

-- Where one side is at its end, the other is taken to its end too.
abbrev pub finish : ℕ → ℕ → Place → List Text → List Text → Place
finish old_size new_size p [] new = place p.old_index new_size [] []
finish old_size new_size p (x ∷ old) [] = place old_size p.new_index [] []
finish old_size new_size p (x ∷ old) (y ∷ new) = p

-- `as u32`, and the addition of 32-bit integers
abbrev pub to_u32 : ℕ → ℕ
to_u32 n = n % 2 ^ 32

-- The range of the lines between two new indices, or where there is none the nearest line.
unfoldable pub range_between : ℕ → ℕ → ℕ → ℕ × ℕ
range_between new_size start_new end_new =
    let anchor = min start_new (new_size - 1) in
    if ltb start_new end_new
    then (to_u32 (to_u32 start_new + 1), to_u32 end_new)
    else (to_u32 (to_u32 anchor + 1), to_u32 (to_u32 anchor + 1))

-- `ranges.push(range)`, or the last range is made longer where the new one touches it.
unfoldable pub push_range : List (ℕ × ℕ) → ℕ × ℕ → List (ℕ × ℕ)
push_range [] range = range ∷ []
push_range ((s, e) ∷ []) range =
    if leb range.0 (to_u32 (e + 1)) then (s, max e range.1) ∷ [] else (s, e) ∷ range ∷ []
push_range (first ∷ second ∷ ranges) range = first ∷ push_range (second ∷ ranges) range

abbrev pub starts_equal : List Text → List Text → Bool
starts_equal [] new = false
starts_equal (x ∷ old) [] = false
starts_equal (x ∷ old) (y ∷ new) = x == y

abbrev pub tail : List Text → List Text
tail [] = []
tail (x ∷ xs) = xs

-- Where the inner loop and what follows it end.
abbrev pub skipped : List (List ℕ) → ℕ → ℕ → Place → Place
skipped lcs old_size new_size p =
    let q = skip lcs p.old_index p.new_index p.old_rest p.new_rest in
    finish old_size new_size q q.old_rest q.new_rest

-- Where one round of the outer loop ends, and the ranges then.
unfoldable pub next_place : List (List ℕ) → ℕ → ℕ → Place → Place
next_place lcs old_size new_size p =
    if starts_equal p.old_rest p.new_rest
    then place (suc p.old_index) (suc p.new_index) (tail p.old_rest) (tail p.new_rest)
    else skipped lcs old_size new_size p

unfoldable pub next_ranges : List (List ℕ) → ℕ → ℕ → Place → List (ℕ × ℕ) → List (ℕ × ℕ)
next_ranges lcs old_size new_size p ranges =
    if starts_equal p.old_rest p.new_rest
    then ranges
    else push_range ranges
        (range_between new_size p.new_index (skipped lcs old_size new_size p).new_index)

-- The outer loop. The fuel bounds the lines that are left, of which each round takes one at least.
unfoldable pub ranges_from : ℕ → List (List ℕ) → ℕ → ℕ → Place → List (ℕ × ℕ) → List (ℕ × ℕ)
ranges_from zero lcs old_size new_size p ranges = ranges
ranges_from (suc fuel) lcs old_size new_size p ranges =
    elim (is_empty p.old_rest && is_empty p.new_rest) [
      | true ↦ ranges
      | false ↦
          ranges_from fuel lcs old_size new_size (next_place lcs old_size new_size p)
            (next_ranges lcs old_size new_size p ranges)
    ]

unfoldable pub line_ranges : List Text → List Text → List (ℕ × ℕ)
line_ranges [] [] = []
line_ranges [] (y ∷ new) = (1, to_u32 (length (y ∷ new))) ∷ []
line_ranges (x ∷ old) [] = (1, 1) ∷ []
line_ranges (x ∷ old) (y ∷ new) =
    ranges_from (length (x ∷ old) + length (y ∷ new)) (fill_table (x ∷ old) (y ∷ new))
      (length (x ∷ old)) (length (y ∷ new)) (place 0 0 (x ∷ old) (y ∷ new)) []

unfoldable pub changed_line_ranges : Text → Text → List (ℕ × ℕ)
changed_line_ranges old new =
    let old_lines = split_lines old in
    let new_lines = split_lines new in
    if ◌==◌ {A = List Text} old_lines new_lines then [] else line_ranges old_lines new_lines
