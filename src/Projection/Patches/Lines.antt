-- ===== src/Projection/Patches/Lines.antt =====
-- crates/orkia-projection/src/lib.rs: `split_lines` and `join_lines`, and parts of texts.
use boop_orkia_cli.Prelude.{
  ℕ, zero, suc, ◌≤◌, ◌≡◌, refl, sym, ◌∙◌, ap, nat_eq, inl, inr, Bool-cases, List, [], ◌∷◌, ◌++◌,
  arith, take, drop, slice, append_assoc,
}
use boop_orkia_cli.Prelude.Text.{Text}
use boop_orkia_cli.Projection.Patches.{in_line, split_lines, join_lines}

-- A text ends with, or starts with, another.
abbrev pub IsSuffix : Text → Text → Type 0
IsSuffix part whole = (front : Text) × (front ++ part ≡ whole)

abbrev pub IsPrefix : Text → Text → Type 0
IsPrefix part whole = (back : Text) × (part ++ back ≡ whole)

join_lines-in_line :
    (c : ℕ) (lines : List Text) → join_lines (in_line c lines) ≡ c ∷ join_lines lines
unfolding join_lines
join_lines-in_line c [] = refl
join_lines-in_line c (line ∷ lines) = refl

-- Joining the lines of a text gives the text again.
pub join_lines-split_lines : (t : Text) → join_lines (split_lines t) ≡ t
unfolding split_lines join_lines
join_lines-split_lines [] = refl
join_lines-split_lines (c ∷ cs) = elim (Bool-cases (nat_eq c 10)) [
  | inl e ↦ rw e (ap (λ l. c ∷ l) (join_lines-split_lines cs))
  | inr n ↦
      rw n (join_lines-in_line c (split_lines cs) ∙ ap (λ l. c ∷ l) (join_lines-split_lines cs))
]

pub join_lines-append : (xs ys : List Text) → join_lines (xs ++ ys) ≡ join_lines xs ++ join_lines ys
unfolding join_lines
join_lines-append [] ys = refl
join_lines-append (x ∷ xs) ys =
    ap (λ l. x ++ l) (join_lines-append xs ys) ∙ sym (append_assoc x _ _)

module _ {ℓ} {A : Type ℓ} where
  pub take-drop : (n : ℕ) (xs : List A) → take n xs ++ drop n xs ≡ xs
  take-drop zero xs = refl
  take-drop (suc n) [] = refl
  take-drop (suc n) (x ∷ xs) = ap (λ l. x ∷ l) (take-drop n xs)

  -- A list is what stands in front of a slice, the slice, and what stands behind it.
  pub take-slice-drop :
      (i j : ℕ) (xs : List A) → i ≤ j → take i xs ++ (slice i j xs ++ drop j xs) ≡ xs
  take-slice-drop zero j xs h = take-drop j xs
  take-slice-drop (suc i) zero xs h = absurd (omega arith)
  take-slice-drop (suc i) (suc j) [] h = refl
  take-slice-drop (suc i) (suc j) (x ∷ xs) h =
      ap (λ l. x ∷ l) (take-slice-drop i j xs (omega arith))

  -- One element more.
  pub take-suc : (i : ℕ) (xs : List A) → take (suc i) xs ≡ take i xs ++ slice i (suc i) xs
  take-suc zero [] = refl
  take-suc zero (x ∷ xs) = refl
  take-suc (suc i) [] = refl
  take-suc (suc i) (x ∷ xs) = ap (λ l. x ∷ l) (take-suc i xs)

  pub drop-suc : (i : ℕ) (xs : List A) → slice i (suc i) xs ++ drop (suc i) xs ≡ drop i xs
  drop-suc zero [] = refl
  drop-suc zero (x ∷ xs) = refl
  drop-suc (suc i) [] = refl
  drop-suc (suc i) (x ∷ xs) = drop-suc i xs

-- The text of some lines around the text of a slice of them.
pub join_lines-slice :
    (i j : ℕ) (lines : List Text)
    → i ≤ j
    → join_lines (take i lines) ++ (join_lines (slice i j lines) ++ join_lines (drop j lines))
      ≡ join_lines lines
join_lines-slice i j lines h =
    rw
      (
        sym (join_lines-append (slice i j lines) (drop j lines)),
        sym (join_lines-append (take i lines) (slice i j lines ++ drop j lines)),
      )
      (ap join_lines (take-slice-drop i j lines h))
