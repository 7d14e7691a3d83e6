-- ===== src/Projection/Applying/Search.antt =====
-- crates/orkia-projection/src/lib.rs: the `while let` loop of `apply_patch` ends.
use boop_orkia_cli.Prelude.{
  ℕ, zero, suc, ◌+◌, ◌<◌, ◌≡◌, refl, sym, subst, ◌∙◌, ap, false, some, [], ◌∷◌, ◌++◌, arith, inl,
  inr, Option-cases, length, length-append, drop, is_empty, append_assoc,
}
use boop_orkia_cli.Prelude.Text.{Text}
use boop_orkia_cli.Model.Atoms.{PatchFragment}
use boop_orkia_cli.Projection.Applying.{find, occurrences_from}
use boop_orkia_cli.Projection.Applying.Occurrences.{drop-length, find-StandsAt}

length-pos : (t : Text) → is_empty t ≡ false → 0 < length t
length-pos [] h = cc
length-pos (c ∷ cs) h = omega arith

module _ (content : Text) (patch : PatchFragment) (filled : is_empty patch.before ≡ false) where
  -- Two bounds that are above the length of the rest give the same occurrences.
  occurrences_from-fuel :
      (fuel more offset : ℕ) (front rest : Text)
      → content ≡ front ++ rest
      → offset ≡ length front
      → length rest < fuel
      → length rest < more
      → occurrences_from fuel content patch offset ≡ occurrences_from more content patch offset
  unfolding occurrences_from
  occurrences_from-fuel zero more offset front rest e o h k = absurd (omega arith)
  occurrences_from-fuel (suc fuel) zero offset front rest e o h k = absurd (omega arith)
  occurrences_from-fuel (suc fuel) (suc more) offset front rest e o h k =
      elim (Option-cases (find patch.before (drop offset content))) [
        | inl n ↦ rw (occurrences_from, n) refl
        | inr (relative, f) ↦
            let behind : drop offset content ≡ rest = rw (o, e) (drop-length front rest) in
            let (l, right, parts, at) =
              find-StandsAt patch.before rest relative
                (subst (λ t. find patch.before t ≡ some relative) behind f) in
            let whole : content ≡ (front ++ (l ++ patch.before)) ++ right =
              e
              ∙ (ap (λ t. front ++ t) (parts ∙ sym (append_assoc l patch.before right))
                  ∙ sym (append_assoc front (l ++ patch.before) right)) in
            let end : offset + relative + length patch.before
                ≡ length (front ++ (l ++ patch.before)) =
              omega (
                arith,
                o,
                at,
                length-append l patch.before,
                length-append front (l ++ patch.before),
              ) in
            let size : length rest ≡ length l + (length patch.before + length right) =
              ap length parts
              ∙ omega (
                arith,
                length-append l (patch.before ++ right),
                length-append patch.before right,
              ) in
            let later =
              occurrences_from-fuel fuel more (offset + relative + length patch.before)
                (front ++ (l ++ patch.before)) right whole end
                (omega (arith, size, length-pos patch.before filled))
                (omega (arith, size, length-pos patch.before filled)) in
            rw (occurrences_from, f, later) refl
      ]

  -- The loop has ended where the fuel of `apply_patch` does: more fuel finds no other occurrence.
  pub occurrences_from-enough :
      (more : ℕ)
      → length content < more
      → occurrences_from (suc (length content)) content patch 0
        ≡ occurrences_from more content patch 0
  occurrences_from-enough more h =
      occurrences_from-fuel (suc (length content)) more 0 [] content refl refl (omega arith) h
