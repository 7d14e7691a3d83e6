-- ===== src/Semantic/Tokens/Edits.antt =====
-- crates/orkia-semantic/src/lib.rs: `lexical_tokens` and `token_edits`.
use boop_orkia_cli.Prelude.{
  ℕ, zero, suc, ◌≤◌, leb, ◌≡◌, refl, sym, subst, ◌∙◌, ap, ap₂, Bool, inl, inr, Bool-cases, Option,
  none, some, List, [], ◌∷◌, ◌++◌, arith, length, drop, slice, append_assoc, nat_ord, list_ord,
  ◌==◌, ==→≡,
}
use boop_orkia_cli.Prelude.Text.{Text}
use boop_orkia_cli.Projection.Alignment.{cell, fill_table}
use boop_orkia_cli.Semantic.Tokens.{
  TokenEdit, is_word, same_kind, tokens_behind, lexical_tokens, active_at, delete_one, insert_one,
  finished, edits_from, token_edits, concat,
}

tokens_behind-concat :
    (is_alphanumeric : ℕ → Bool) (word : Bool) (current t : Text)
    → concat (tokens_behind is_alphanumeric word current t) ≡ current ++ t
unfolding tokens_behind
tokens_behind-concat f word current [] = refl
tokens_behind-concat f word current (c ∷ cs) = elim (Bool-cases (same_kind word (is_word f c))) [
  | inl e ↦
      rw (tokens_behind, e)
        (tokens_behind-concat f word (current ++ c ∷ []) cs ∙ append_assoc current (c ∷ []) cs)
  | inr n ↦
      rw (tokens_behind, n)
        (ap (λ l. current ++ l) (tokens_behind-concat f (is_word f c) (c ∷ []) cs))
]

-- The tokens of a text, one behind the other, are the text.
pub concat-lexical_tokens :
    (is_alphanumeric : ℕ → Bool) (t : Text) → concat (lexical_tokens is_alphanumeric t) ≡ t
unfolding lexical_tokens
concat-lexical_tokens f [] = refl
concat-lexical_tokens f (c ∷ cs) = tokens_behind-concat f (is_word f c) (c ∷ []) cs

-- What edits make of the tokens of a base from a position on.
unfoldable pub apply_edits : List Text → ℕ → List TokenEdit → List Text
apply_edits base position [] = drop position base
apply_edits base position (edit ∷ edits) =
    slice position edit.start base ++ (edit.replacement ++ apply_edits base edit.end edits)

-- Edits one behind the other, from a position on, of a base of this length.
abbrev pub AreEdits : ℕ → ℕ → List TokenEdit → Type 0
AreEdits size position [] = position ≤ size
AreEdits size position (edit ∷ edits) =
    (position ≤ edit.start) × (edit.start ≤ edit.end) × AreEdits size edit.end edits

pub AreEdits-size :
    (size position : ℕ) (edits : List TokenEdit) → AreEdits size position edits → position ≤ size
AreEdits-size size position [] h = h
AreEdits-size size position (edit ∷ edits) h =
    omega (arith, h.0, h.1, AreEdits-size size edit.end edits h.2)

AreEdits-earlier :
    (size position : ℕ) (edits : List TokenEdit)
    → AreEdits size (suc position) edits
    → AreEdits size position edits
AreEdits-earlier size position [] h = omega arith
AreEdits-earlier size position (edit ∷ edits) (a, b, c) = (omega arith, b, c)

module _ {A : Type 0} where
  drop-next : (i : ℕ) (x : A) (xs rest : List A) → drop i xs ≡ x ∷ rest → drop (suc i) xs ≡ rest
  drop-next zero x [] rest h = cc
  drop-next zero x (y ∷ xs) rest h = cc
  drop-next (suc i) x [] rest h = cc
  drop-next (suc i) x (y ∷ xs) rest h = drop-next i x xs rest h

  drop-size : (i : ℕ) (xs : List A) → drop i xs ≡ [] → length xs ≤ i
  drop-size zero [] h = omega arith
  drop-size zero (x ∷ xs) h = cc
  drop-size (suc i) [] h = omega arith
  drop-size (suc i) (x ∷ xs) h = omega (arith, drop-size i xs h)

  drop-inside : (i : ℕ) (x : A) (xs rest : List A) → drop i xs ≡ x ∷ rest → suc i ≤ length xs
  drop-inside zero x [] rest h = cc
  drop-inside zero x (y ∷ xs) rest h = omega arith
  drop-inside (suc i) x [] rest h = cc
  drop-inside (suc i) x (y ∷ xs) rest h = omega (arith, drop-inside i x xs rest h)

  -- A slice that starts one element earlier.
  slice-next :
      (i j : ℕ) (x : A) (xs rest : List A)
      → drop i xs ≡ x ∷ rest
      → suc i ≤ j
      → slice i j xs ≡ x ∷ slice (suc i) j xs
  slice-next zero zero x xs rest h k = absurd (omega arith)
  slice-next zero (suc j) x [] rest h k = cc
  slice-next zero (suc j) x (y ∷ xs) rest h k = cc
  slice-next (suc i) zero x xs rest h k = absurd (omega arith)
  slice-next (suc i) (suc j) x [] rest h k = cc
  slice-next (suc i) (suc j) x (y ∷ xs) rest h k = slice-next i j x xs rest h (omega arith)

  slice-same : (i : ℕ) (xs : List A) → slice i i xs ≡ []
  slice-same zero xs = refl
  slice-same (suc i) [] = refl
  slice-same (suc i) (x ∷ xs) = slice-same i xs

apply_edits-next :
    (base : List Text) (position : ℕ) (x : Text) (rest : List Text) (edits : List TokenEdit)
    → drop position base ≡ x ∷ rest
    → AreEdits (length base) (suc position) edits
    → apply_edits base position edits ≡ x ∷ apply_edits base (suc position) edits
unfolding apply_edits
apply_edits-next base position x rest [] d h =
    d ∙ ap (λ l. x ∷ l) (sym (drop-next position x base rest d))
apply_edits-next base position x rest (edit ∷ edits) d h =
    ap (λ l. l ++ (edit.replacement ++ apply_edits base edit.end edits))
      (slice-next position edit.start x base rest d h.0)

module _ (base : List Text) where
  -- The edits that are made from the position `i` on, behind the active edit, turn the rest into `side`.
  abbrev Makes : ℕ → Option TokenEdit → List Text → List TokenEdit → Type 0
  Makes i none side edits = AreEdits (length base) i edits × (apply_edits base i edits ≡ side)
  Makes i (some e) side edits =
      (edit : TokenEdit) × (later : List TokenEdit) × (edits ≡ edit ∷ later)
      × (edit.start ≡ e.start)
      × (e.end ≤ edit.end)
      × AreEdits (length base) edit.end later
      × (edit.replacement ++ apply_edits base edit.end later ≡ e.replacement ++ side)

  -- The active edit ends where the loop stands.
  abbrev IsActive : ℕ → Option TokenEdit → Type 0
  IsActive i none = Unit
  IsActive i (some e) = (e.start ≤ e.end) × (e.end ≡ i)

  active_at-IsActive :
      (i : ℕ) (active : Option TokenEdit)
      → IsActive i active
      → IsActive i (some (active_at i active))
  active_at-IsActive i none a = (omega arith, refl)
  active_at-IsActive i (some e) a = a

  active_at-Makes :
      (i : ℕ) (active : Option TokenEdit) (side : List Text) (edits : List TokenEdit)
      → Makes i (some (active_at i active)) side edits
      → Makes i active side edits
  unfolding apply_edits
  active_at-Makes i none side edits (edit, later, e, start, end, a, r) =
      rw e ((omega (arith, start), omega (arith, start, end), a), rw (start, slice-same i base) r)
  active_at-Makes i (some e) side edits m = m

  delete_one-Makes :
      (i : ℕ) (e : TokenEdit) (side : List Text) (edits : List TokenEdit)
      → Makes (suc i) (some (delete_one e)) side edits
      → Makes i (some e) side edits
  delete_one-Makes i e side edits (edit, later, eq, start, end, a, r) =
      (edit, later, eq, start, omega (arith, end), a, r)

  insert_one-Makes :
      (i : ℕ) (e : TokenEdit) (y : Text) (side : List Text) (edits : List TokenEdit)
      → Makes i (some (insert_one y e)) side edits
      → Makes i (some e) (y ∷ side) edits
  insert_one-Makes i e y side edits (edit, later, eq, start, end, a, r) =
      (edit, later, eq, start, end, a, r ∙ append_assoc e.replacement (y ∷ []) side)

  finished-Makes :
      (i : ℕ) (active : Option TokenEdit) (side : List Text) (edits : List TokenEdit)
      → IsActive i active
      → AreEdits (length base) i edits
      → apply_edits base i edits ≡ side
      → Makes i active side (finished active edits)
  finished-Makes i none side edits a h e = (h, e)
  finished-Makes i (some edit) side edits (order, end) h e = (
    edit,
    edits,
    refl,
    refl,
    omega arith,
    subst (λ k. AreEdits (length base) k edits) (sym end) h,
    ap (λ l. edit.replacement ++ l) (ap (λ k. apply_edits base k edits) end ∙ e),
  )

  edits_from-Makes :
      (lcs : List (List ℕ)) (i j : ℕ) (active : Option TokenEdit) (rest side : List Text)
      → drop i base ≡ rest
      → i ≤ length base
      → IsActive i active
      → Makes i active side (edits_from lcs i j active rest side)
  unfolding edits_from apply_edits
  edits_from-Makes lcs i j active [] [] d h a = finished-Makes i active [] [] a h d
  edits_from-Makes lcs i j active [] (y ∷ side) d h a =
      let e = active_at i active in
      active_at-Makes i active (y ∷ side) _ (
        insert_one-Makes i e y side _ (
          edits_from-Makes lcs i (suc j) (some (insert_one y e)) [] side d h
            (active_at-IsActive i active a)))
  edits_from-Makes lcs i j active (x ∷ rest) [] d h a =
      let e = active_at i active in
      let (order, end) = active_at-IsActive i active a in
      active_at-Makes i active [] _ (
        delete_one-Makes i e [] _ (
          edits_from-Makes lcs (suc i) j (some (delete_one e)) rest [] (drop-next i x base rest d)
            (drop-inside i x base rest d) (omega (arith, order), ap suc end)))
  edits_from-Makes lcs i j active (x ∷ rest) (y ∷ side) d h a = elim (Bool-cases (x == y)) [
    | inl same ↦
        let (edits, made) =
          edits_from-Makes lcs (suc i) (suc j) none rest side (drop-next i x base rest d)
            (drop-inside i x base rest d) tt in
        rw (edits_from, same)
          (finished-Makes i active (y ∷ side) _ a (AreEdits-earlier (length base) i _ edits)
            (apply_edits-next base i x rest _ d edits ∙ ap₂ (λ b l. b ∷ l) (==→≡ x y same) made))
    | inr differ ↦
        let e = active_at i active in
        let (order, end) = active_at-IsActive i active a in
        elim (Bool-cases (leb (cell lcs i (suc j)) (cell lcs (suc i) j))) [
          | inl c ↦
              rw (edits_from, differ, c)
                (active_at-Makes i active (y ∷ side) _ (
                  delete_one-Makes i e (y ∷ side) _ (
                    edits_from-Makes lcs (suc i) j (some (delete_one e)) rest (y ∷ side)
                      (drop-next i x base rest d) (drop-inside i x base rest d)
                      (omega (arith, order), ap suc end))))
          | inr c ↦
              rw (edits_from, differ, c)
                (active_at-Makes i active (y ∷ side) _ (
                  insert_one-Makes i e y side _ (
                    edits_from-Makes lcs i (suc j) (some (insert_one y e)) (x ∷ rest) side d h
                      (order, end))))
        ]
  ]

  -- The edits of a side stand one behind the other inside the base, and turn the base into the side.
  pub token_edits-AreEdits :
      (side : List Text)
      → AreEdits (length base) 0 (token_edits base side)
        × (apply_edits base 0 (token_edits base side) ≡ side)
  unfolding token_edits
  token_edits-AreEdits side =
      edits_from-Makes (fill_table base side) 0 0 none base side refl (omega arith) tt
