-- ===== src/Semantic/Tokens/Merging.antt =====
-- crates/orkia-semantic/src/lib.rs: what `merge_token_edits` makes of two sides.
use boop_orkia_cli.Prelude.{
  ℕ, ◌≤◌, ◌<◌, ltb, nat_eq, ◌≡◌, refl, sym, subst, true, ◌&&◌, inl, inr, Bool-cases, Option, none,
  some, List, [], ◌∷◌, ◌++◌, arith, length, slice, and_true, nat_ord, list_ord, ◌==◌, ==→≡,
}
use boop_orkia_cli.Prelude.Maps.{some_injective}
use boop_orkia_cli.Prelude.Text.{Text}
use boop_orkia_cli.Semantic.Tokens.{
  TokenEdit, same_edit, copy_edit, merge_from, merge_token_edits, token_edits,
}
use boop_orkia_cli.Semantic.Tokens.Edits.{
  apply_edits, AreEdits, AreEdits-size, token_edits-AreEdits,
}

-- An edit starts in front of the first of some edits.
abbrev pub IsFirst : TokenEdit → List TokenEdit → Type 0
IsFirst edit [] = Unit
IsFirst edit (other ∷ edits) = edit.start < other.start

-- The edits of two sides in the order of their starts. Two edits that start together are the same, and
-- are taken once.
pub data IsUnion : List TokenEdit → List TokenEdit → List TokenEdit → Type 0 where
  no_edits : IsUnion [] [] []
  from_left :
      {l : TokenEdit} {left right both : List TokenEdit}
      → IsFirst l right
      → IsUnion left right both
      → IsUnion (l ∷ left) right (l ∷ both)
  from_right :
      {r : TokenEdit} {left right both : List TokenEdit}
      → IsFirst r left
      → IsUnion left right both
      → IsUnion left (r ∷ right) (r ∷ both)
  shared :
      {e : TokenEdit} {left right both : List TokenEdit}
      → IsUnion left right both
      → IsUnion (e ∷ left) (e ∷ right) (e ∷ both)

pub same_edit-≡ : (a b : TokenEdit) → same_edit a b ≡ true → a ≡ b
same_edit-≡ a b h =
    let (ends, r) =
      and_true (nat_eq a.start b.start && nat_eq a.end b.end) (a.replacement == b.replacement) h in
    let start : a.start ≡ b.start = ground arith in
    let end : a.end ≡ b.end = ground arith in
    let replacement = ==→≡ a.replacement b.replacement r in
    λ i. record { start = start i; end = end i; replacement = replacement i }

copied :
    (base : List Text) (position : ℕ) (edit : TokenEdit) (rest : Option (List Text))
    (out : List Text)
    → copy_edit base position edit rest ≡ some out
    → (later : List Text) × (rest ≡ some later)
      × (out ≡ slice position edit.start base ++ (edit.replacement ++ later))
unfolding copy_edit
copied base position edit none out h = cc
copied base position edit (some later) out h = (later, refl, sym (some_injective h))

module _ (base : List Text) where
  -- What a merge that succeeds is.
  abbrev pub IsMerge : ℕ → List TokenEdit → List TokenEdit → List Text → Type 0
  IsMerge position left right out =
      (both : List TokenEdit) × IsUnion left right both
      × AreEdits (length base) position both
      × (out ≡ apply_edits base position both)

  copy-IsMerge :
      (position : ℕ) (edit : TokenEdit) (left right left' right' : List TokenEdit)
      (rest : Option (List Text)) (out : List Text)
      → position ≤ edit.start
      → edit.start ≤ edit.end
      → ((both : List TokenEdit) → IsUnion left right both → IsUnion left' right' (edit ∷ both))
      → ((later : List Text) → rest ≡ some later → IsMerge edit.end left right later)
      → copy_edit base position edit rest ≡ some out
      → IsMerge position left' right' out
  unfolding apply_edits
  copy-IsMerge position edit left right left' right' rest out h k union merged c =
      let (later, r, o) = copied base position edit rest out c in
      let (both, u, a, e) = merged later r in (edit ∷ both, union both u, (h, k, a), rw (sym e) o)

  merge_from-IsMerge :
      (position : ℕ) (left right : List TokenEdit) (out : List Text)
      → AreEdits (length base) position left
      → AreEdits (length base) position right
      → merge_from base position left right ≡ some out
      → IsMerge position left right out
  unfolding merge_from apply_edits
  merge_from-IsMerge position [] [] out a b h = ([], IsUnion.no_edits, a, sym (some_injective h))
  merge_from-IsMerge position (l ∷ left) [] out a b h =
      copy-IsMerge position l left [] (l ∷ left) [] _ out a.0 a.1 (λ both u. IsUnion.from_left tt u)
        (λ later.
          merge_from-IsMerge l.end left [] later a.2 (AreEdits-size (length base) l.end left a.2))
        h
  merge_from-IsMerge position [] (r ∷ right) out a b h =
      copy-IsMerge position r [] right [] (r ∷ right) _ out b.0 b.1
        (λ both u. IsUnion.from_right tt u)
        (λ later.
          merge_from-IsMerge r.end [] right later (AreEdits-size (length base) r.end right b.2) b.2)
        h
  merge_from-IsMerge position (l ∷ left) (r ∷ right) out a b h =
      elim (Bool-cases (nat_eq l.start r.start)) [
        | inl same ↦ elim (Bool-cases (same_edit l r)) [
          | inl e ↦
              let equal = same_edit-≡ l r e in
              copy-IsMerge position l left right (l ∷ left) (r ∷ right) _ out a.0 a.1
                (λ both u.
                  subst (λ x. IsUnion (l ∷ left) (x ∷ right) (l ∷ both)) equal (IsUnion.shared u))
                (λ later.
                  merge_from-IsMerge l.end left right later a.2
                    (subst (λ x. AreEdits (length base) x.end right) (sym equal) b.2))
                (rw (merge_from, same, e) at h)
          | inr n ↦ cc (rw (merge_from, same, n) at h)
        ]
        | inr differ ↦ elim (Bool-cases (ltb l.start r.start)) [
          | inl first ↦ elim (Bool-cases (ltb r.start l.end)) [
            | inl overlap ↦ cc (rw (merge_from, differ, first, overlap) at h)
            | inr free ↦
                copy-IsMerge position l left (r ∷ right) (l ∷ left) (r ∷ right) _ out a.0 a.1
                  (λ both u. IsUnion.from_left (ground arith) u)
                  (λ later.
                    merge_from-IsMerge l.end left (r ∷ right) later a.2 (ground arith, b.1, b.2))
                  (rw (merge_from, differ, first, free) at h)
          ]
          | inr second ↦ elim (Bool-cases (ltb l.start r.end)) [
            | inl overlap ↦ cc (rw (merge_from, differ, second, overlap) at h)
            | inr free ↦
                copy-IsMerge position r (l ∷ left) right (l ∷ left) (r ∷ right) _ out b.0 b.1
                  (λ both u. IsUnion.from_right (ground arith) u)
                  (λ later.
                    merge_from-IsMerge r.end (l ∷ left) right later (ground arith, a.1, a.2) b.2)
                  (rw (merge_from, differ, second, free) at h)
          ]
        ]
      ]

-- A merge of two sides that succeeds is what the edits of both make of the base, in the order of their
-- starts, where edits that start together are the same and are made once, and the edits together stand
-- one behind the other inside the base; each side's edits alone turn the base into this side.
pub merge_token_edits-IsMerge :
    (base left right out : List Text)
    → merge_token_edits base (token_edits base left) (token_edits base right) ≡ some out
    → IsMerge base 0 (token_edits base left) (token_edits base right) out
      × (apply_edits base 0 (token_edits base left) ≡ left)
      × (apply_edits base 0 (token_edits base right) ≡ right)
unfolding merge_token_edits
merge_token_edits-IsMerge base left right out h =
    let (a, l) = token_edits-AreEdits base left in
    let (b, r) = token_edits-AreEdits base right in
    (merge_from-IsMerge base 0 (token_edits base left) (token_edits base right) out a b h, l, r)
