-- ===== src/Projection/Applying/Places.antt =====
-- crates/orkia-projection/src/lib.rs: where `apply_patch` puts a patch.
use boop_orkia_cli.Prelude.{
  ℕ, suc, ◌≡◌, ◌⊎◌, subst, refl, sym, ◌∙◌, ◌&&◌, List, [], ◌∷◌, ◌++◌, arith, inl, inr, Bool-cases,
  length-append, and_true, if◌then◌else◌, length, take, drop, is_empty, nat_ord, list_ord,
  append_assoc, append-nil,
}
use boop_orkia_cli.Prelude.Text.{Text}
use boop_orkia_cli.Errors.{ok, ok_injective}
use boop_orkia_cli.Model.Atoms.{PatchFragment}
use boop_orkia_cli.Projection.Patches.Lines.{IsSuffix, IsPrefix}
use boop_orkia_cli.Projection.Applying.{
  starts_with, ends_with, meeting, insertion_positions, empty_ranges, candidates, apply_at,
  apply_patch,
}
use boop_orkia_cli.Projection.Applying.Unique.{IsHidden, IsUnplaced, IsListed, candidates-finds}
use boop_orkia_cli.Projection.Applying.Occurrences.{
  IsPlace, ArePlaces, starts_with-IsPrefix, ends_with-IsSuffix, is_empty→≡, take-start, drop-end,
  occurrences_from-ArePlaces,
}

module _ (content : Text) (patch : PatchFragment) where
  module _ (empty : patch.before ≡ []) where
    empty-IsPlace :
        (boundary : ℕ) (left right : Text)
        → content ≡ left ++ right
        → boundary ≡ length left
        → IsSuffix patch.before_context left
        → IsPrefix patch.after_context right
        → IsPlace content patch boundary boundary
    empty-IsPlace boundary left right e b suffix prefix = record {
      left = left;
      right = right;
      parts = rw empty e;
      starts = b;
      ends = rw (empty, append-nil left) b;
      context_before = suffix;
      context_after = prefix;
    }

    meets-ArePlaces :
        (boundary : ℕ) (left right : Text) (rest : List ℕ)
        → content ≡ left ++ right
        → boundary ≡ length left
        → ArePlaces content patch (empty_ranges rest)
        → ArePlaces content patch (
            empty_ranges (
              if ends_with patch.before_context left && starts_with patch.after_context right
              then boundary ∷ rest
              else rest))
    meets-ArePlaces boundary left right rest e b h =
        elim (Bool-cases
          (ends_with patch.before_context left && starts_with patch.after_context right)) [
            | inl m ↦
                let (s, p) =
                  and_true (ends_with patch.before_context left)
                    (starts_with patch.after_context right) m in
                rw m (
                  empty-IsPlace boundary left right e b
                      (ends_with-IsSuffix patch.before_context left s)
                      (
                        drop (length patch.after_context) right,
                        starts_with-IsPrefix patch.after_context right p,
                      ),
                  h,
                )
            | inr n ↦ rw n h
          ]

    meeting-ArePlaces :
        (boundary : ℕ) (left right : Text)
        → content ≡ left ++ right
        → boundary ≡ length left
        → ArePlaces content patch
            (empty_ranges (meeting patch.before_context patch.after_context boundary left right))
    unfolding meeting
    meeting-ArePlaces boundary left [] e b = meets-ArePlaces boundary left [] [] e b tt
    meeting-ArePlaces boundary left (c ∷ right) e b =
        let later =
          meeting-ArePlaces (suc boundary) (left ++ c ∷ []) right
            (e ∙ sym (append_assoc left (c ∷ []) right))
            (omega (arith, b, length-append left (c ∷ []))) in
        meets-ArePlaces boundary left (c ∷ right) _ e b later

    insertion_positions-ArePlaces :
        ArePlaces content patch
          (empty_ranges (insertion_positions content patch.before_context patch.after_context))
    unfolding insertion_positions
    insertion_positions-ArePlaces =
        elim (Bool-cases (is_empty patch.before_context && is_empty patch.after_context)) [
          | inl e ↦
              let (b, a) =
                and_true (is_empty patch.before_context) (is_empty patch.after_context) e in
              rw e (
                empty-IsPlace 0 [] content refl refl ([], is_empty→≡ patch.before_context b)
                    (content, rw (is_empty→≡ patch.after_context a) refl),
                tt,
              )
          | inr n ↦ rw n (meeting-ArePlaces 0 [] content refl refl)
        ]

  candidates-ArePlaces : ArePlaces content patch (candidates content patch)
  unfolding candidates
  candidates-ArePlaces = elim (Bool-cases (is_empty patch.before)) [
    | inl e ↦ rw e (insertion_positions-ArePlaces (is_empty→≡ patch.before e))
    | inr n ↦
        rw n
          (occurrences_from-ArePlaces content patch (suc (length content)) 0 [] content refl refl)
  ]

  -- A result is the content with the inserted text in place of the replaced one, at a place in context.
  -- Each other place starts inside an occurrence of the replaced text in front of it, or the patch has
  -- neither a replaced text nor a context.
  abbrev pub IsApplied : Text → Type 0
  IsApplied result =
      (start : ℕ) × (end : ℕ) × (p : IsPlace content patch start end) × (result
        ≡ p.left ++ (patch.after ++ p.right))
      × ((other last : ℕ)
          → IsPlace content patch other last
          → (other ≡ start) ⊎ (IsHidden content patch other ⊎ IsUnplaced content patch))

  place-IsApplied :
      (result : Text) (start end : ℕ)
      → IsPlace content patch start end
      → candidates content patch ≡ (start, end) ∷ []
      → take start content ++ (patch.after ++ drop end content) ≡ result
      → IsApplied result
  place-IsApplied result start end p c r = (
    start,
    end,
    p,
    sym r
        ∙ rw
            (
              p.starts,
              p.ends,
              take-start content patch p.left p.right p.parts,
              drop-end content patch p.left p.right p.parts,
            )
            refl,
    λ other last q. elim (candidates-finds content patch other last q) [
      | inl listed ↦ inl (only other (subst (IsListed content patch other) c listed))
      | inr rest ↦ inr rest
    ],
  )
    where
      only : (other : ℕ) → IsListed content patch other ((start, end) ∷ []) → other ≡ start
      only other (inl e) = sym e
      only other (inr no_other) = absurd no_other

  apply_at-IsApplied :
      (found : List (ℕ × ℕ)) (result : Text)
      → ArePlaces content patch found
      → candidates content patch ≡ found
      → apply_at content patch found ≡ ok result
      → IsApplied result
  unfolding apply_at
  apply_at-IsApplied [] result h c a = cc
  apply_at-IsApplied ((start, end) ∷ []) result h c a =
      place-IsApplied result start end h.0 c (ok_injective a)
  apply_at-IsApplied (first ∷ second ∷ found) result h c a = cc

  -- Where a patch is applied to a content, the result is the content with the inserted text at a place
  -- where the replaced text stands between the contexts of the patch; and each other such place starts
  -- inside an occurrence of the replaced text in front of it, unless the patch has neither a replaced text
  -- nor a context.
  pub apply_patch-IsApplied :
      (result : Text) → apply_patch content patch ≡ ok result → IsApplied result
  unfolding apply_patch
  apply_patch-IsApplied result h =
      apply_at-IsApplied (candidates content patch) result candidates-ArePlaces refl h
