-- ===== src/Semantic/Tokens/Symmetry.antt =====
-- crates/orkia-semantic/src/lib.rs: the merge does not prefer a side.
use boop_orkia_cli.Prelude.{
  ℕ, ltb, nat_eq, ◌≡◌, refl, sym, ◌∙◌, ap, Bool, true, false, inl, inr, Bool-cases, List, [], ◌∷◌,
  arith, nat_ord, list_ord, Ord, ◌==◌, ==→≡, ==-false, ==-false→≢,
}
use boop_orkia_cli.Prelude.Text.{Text}
use boop_orkia_cli.Semantic.Tokens.{
  TokenEdit, same_edit, copy_edit, merge_from, merge_token_edits, lexical_tokens, token_edits,
  concat_some, merge_token_text,
}
use boop_orkia_cli.Semantic.Tokens.Merging.{same_edit-≡}

==-comm {ℓ} : {A : Type ℓ} ⦃o : Ord A⦄ (a b : A) → (a == b) ≡ (b == a)
==-comm a b = elim (Bool-cases (a == b)) [
  | inl e ↦ rw (==→≡ a b e) refl
  | inr n ↦ n ∙ sym (==-false b a (λ e. ==-false→≢ a b n (sym e)))
]

same_edit_comm : (a b : TokenEdit) → same_edit a b ≡ same_edit b a
same_edit_comm a b = let c = ==-comm a.replacement b.replacement in ground (arith, c)

merge_from_comm :
    (base : List Text) (position : ℕ) (left right : List TokenEdit)
    → merge_from base position left right ≡ merge_from base position right left
unfolding merge_from
merge_from_comm base position [] [] = refl
merge_from_comm base position (l ∷ left) [] =
    ap (copy_edit base position l) (merge_from_comm base l.end left [])
merge_from_comm base position [] (r ∷ right) =
    ap (copy_edit base position r) (merge_from_comm base r.end [] right)
merge_from_comm base position (l ∷ left) (r ∷ right) = elim (Bool-cases (nat_eq l.start r.start)) [
  | inl same ↦
      let turned : nat_eq r.start l.start ≡ true = ground arith in
      elim (Bool-cases (same_edit l r)) [
        | inl e ↦
            rw (merge_from, same, turned, e, sym (same_edit_comm l r) ∙ e)
              (rw (same_edit-≡ l r e)
                (ap (copy_edit base position r) (merge_from_comm base r.end left right)))
        | inr n ↦ rw (merge_from, same, turned, n, sym (same_edit_comm l r) ∙ n) refl
      ]
  | inr differ ↦
      let turned : nat_eq r.start l.start ≡ false = ground arith in
      elim (Bool-cases (ltb l.start r.start)) [
        | inl first ↦
            let behind : ltb r.start l.start ≡ false = ground arith in
            elim (Bool-cases (ltb r.start l.end)) [
              | inl overlap ↦ rw (merge_from, differ, turned, first, behind, overlap) refl
              | inr free ↦
                  rw (merge_from, differ, turned, first, behind, free)
                    (ap (copy_edit base position l) (merge_from_comm base l.end left (r ∷ right)))
            ]
        | inr second ↦
            let before : ltb r.start l.start ≡ true = ground arith in
            elim (Bool-cases (ltb l.start r.end)) [
              | inl overlap ↦ rw (merge_from, differ, turned, second, before, overlap) refl
              | inr free ↦
                  rw (merge_from, differ, turned, second, before, free)
                    (ap (copy_edit base position r) (merge_from_comm base r.end (l ∷ left) right))
            ]
      ]
]

-- Merging two revisions of a base gives the same text, or none, whichever of them is called left.
pub merge_token_text_comm :
    (is_alphanumeric : ℕ → Bool) (base left right : Text)
    → merge_token_text is_alphanumeric base left right
      ≡ merge_token_text is_alphanumeric base right left
unfolding merge_token_text merge_token_edits
merge_token_text_comm f base left right =
    let tokens = lexical_tokens f in
    let both = ap concat_some (
      merge_from_comm (tokens base) 0 (token_edits (tokens base) (tokens left))
        (token_edits (tokens base) (tokens right))) in
    elim (Bool-cases (left == right)) [
      | inl e ↦ rw (==→≡ left right e) refl
      | inr n ↦
          let turned = sym (==-comm left right) ∙ n in
          elim (Bool-cases (left == base)) [
            | inl e ↦ elim (Bool-cases (right == base)) [
              | inl d ↦
                  absurd (==-false→≢ left right n (==→≡ left base e ∙ sym (==→≡ right base d)))
              | inr d ↦ rw (n, turned, e, d) refl
            ]
            | inr m ↦ elim (Bool-cases (right == base)) [
              | inl d ↦ rw (n, turned, m, d) refl
              | inr d ↦ rw (n, turned, m, d) both
            ]
          ]
    ]
