-- ===== src/Projection/Applying/Unique.antt =====
-- crates/orkia-projection/src/lib.rs: no place of a patch escapes the search of `apply_patch` but those
-- that start inside an occurrence of the replaced text.
use boop_orkia_cli.Prelude.{
  ℕ, zero, suc, ◌+◌, ◌-◌, leb, ltb, nat_eq, ◌≤◌, ◌<◌, ◌≡◌, ◌⊎◌, inl, inr, refl, sym, ◌∙◌, ap, subst,
  true, false, ◌&&◌, some, List, [], ◌∷◌, ◌++◌, arith, SomeOf, Bool-cases, length-append, and_true,
  true_and, length, take, drop, is_empty, nat_ord, list_ord, ◌==◌, ==-refl, append_assoc,
  append-nil,
}
use boop_orkia_cli.Prelude.Text.{Text}
use boop_orkia_cli.Model.Atoms.{PatchFragment}
use boop_orkia_cli.Projection.Patches.Lines.{take-drop}
use boop_orkia_cli.Projection.Applying.{
  starts_with, ends_with, find, in_context, meeting, insertion_positions, empty_ranges,
  occurrences_from, candidates,
}
use boop_orkia_cli.Projection.Applying.Occurrences.{
  StandsAt, IsPlace, find-StandsAt, is_empty→≡, drop-length, take-start, drop-end,
}

starts_with-append : (part right : Text) → starts_with part (part ++ right) ≡ true
starts_with-append [] right = refl
starts_with-append (c ∷ cs) right = ground (arith, starts_with-append cs right)

ends_with-append : (left part : Text) → ends_with part (left ++ part) ≡ true
ends_with-append left part =
    let size : length (left ++ part) - length part ≡ length left =
      omega (arith, length-append left part) in
    true_and (leb (length part) (length (left ++ part)))
      (drop (length (left ++ part) - length part) (left ++ part) == part)
      (ground (arith, length-append left part)) (rw (size, drop-length left part) (==-refl part))

-- `find` finds an occurrence that is not behind any other.
find-first :
    (part left right : Text)
    → (n : ℕ) × (find part (left ++ (part ++ right)) ≡ some n) × (n ≤ length left)
unfolding find
find-first [] [] [] = (0, refl, omega arith)
find-first [] [] (c ∷ cs) = (0, refl, omega arith)
find-first (p ∷ ps) [] right = (0, rw (find, starts_with-append (p ∷ ps) right) refl, omega arith)
find-first part (l ∷ left) right =
    elim (Bool-cases (starts_with part (l ∷ left ++ (part ++ right)))) [
      | inl e ↦ (0, rw (find, e) refl, omega arith)
      | inr e ↦
          let (n, found, le) = find-first part left right in
          (suc n, rw (find, e, found) refl, omega (arith, le))
    ]

drop-append : (n : ℕ) (xs ys : Text) → n ≤ length xs → drop n (xs ++ ys) ≡ drop n xs ++ ys
drop-append zero xs ys h = refl
drop-append (suc n) [] ys h = absurd (omega arith)
drop-append (suc n) (x ∷ xs) ys h = drop-append n xs ys (omega arith)

length-drop : (n : ℕ) (xs : Text) → n ≤ length xs → n + length (drop n xs) ≡ length xs
length-drop zero xs h = omega arith
length-drop (suc n) [] h = absurd (omega arith)
length-drop (suc n) (x ∷ xs) h = omega (arith, length-drop n xs (omega arith))

length-take : (n : ℕ) (xs : Text) → n ≤ length xs → length (take n xs) ≡ n
length-take zero xs h = refl
length-take (suc n) [] h = absurd (omega arith)
length-take (suc n) (x ∷ xs) h = ap suc (length-take n xs (omega arith))

module _ (content : Text) (patch : PatchFragment) where
  -- A place that starts inside an occurrence of the replaced text in front of it.
  abbrev pub IsHidden : ℕ → Type 0
  IsHidden place =
      (q : ℕ) × StandsAt patch.before content q × (q < place) × (place < q + length patch.before)

  -- A patch that neither replaces a text nor shows a context.
  abbrev pub IsUnplaced : Type 0
  IsUnplaced = (patch.before ≡ []) × (patch.before_context ≡ []) × (patch.after_context ≡ [])

  abbrev pub IsListed : ℕ → List (ℕ × ℕ) → Type 0
  IsListed place found = SomeOf (λ range. range.0 ≡ place) found

  module _ (start end : ℕ) (p : IsPlace content patch start end) where
    place-in_context : in_context content patch start end ≡ true
    place-in_context =
        let before : take start content ≡ p.left =
          rw p.starts (take-start content patch p.left p.right p.parts) in
        let after : drop end content ≡ p.right =
          rw p.ends (drop-end content patch p.left p.right p.parts) in
        true_and (ends_with patch.before_context (take start content))
          (starts_with patch.after_context (drop end content))
          (rw (before, sym p.context_before.1)
            (ends_with-append p.context_before.0 patch.before_context))
          (rw (after, sym p.context_after.1)
            (starts_with-append patch.after_context p.context_after.0))

    place-end : end ≡ start + length patch.before
    place-end = omega (arith, p.starts, p.ends, length-append p.left patch.before)

    found-StandsAt :
        (offset n : ℕ)
        → offset ≤ start
        → find patch.before (drop offset content) ≡ some n
        → StandsAt patch.before content (offset + n)
    found-StandsAt offset n h f =
        let (l, r, parts, at) = find-StandsAt patch.before (drop offset content) n f in
        let size = ap length p.parts in
        (
          take offset content ++ l,
          r,
          sym (take-drop offset content)
              ∙ (ap (λ t. take offset content ++ t) parts
                  ∙ sym (append_assoc (take offset content) l (patch.before ++ r))),
          omega (
            arith,
            at,
            p.starts,
            size,
            length-append p.left (patch.before ++ p.right),
            length-append (take offset content) l,
            length-take offset content,
          ),
        )

    -- The search from an offset at or in front of the place.
    pub occurrences_from-finds :
        (fuel offset : ℕ)
        → is_empty patch.before ≡ false
        → offset ≤ start
        → start < offset + fuel
        → IsListed start (occurrences_from fuel content patch offset) ⊎ IsHidden start
    unfolding occurrences_from
    occurrences_from-finds zero offset some_text h k = absurd (omega arith)
    occurrences_from-finds (suc fuel) offset some_text h k =
        let inside : offset ≤ length p.left = omega (arith, h, p.starts) in
        let (n, first, le) = find-first patch.before (drop offset p.left) p.right in
        let found : find patch.before (drop offset content) ≡ some n =
          ap (λ t. find patch.before (drop offset t)) p.parts
          ∙ (ap (find patch.before) (drop-append offset p.left (patch.before ++ p.right) inside)
              ∙ first) in
        let near : offset + n ≤ start =
          omega (arith, le, p.starts, length-drop offset p.left inside) in
        elim (Bool-cases (nat_eq (offset + n) start)) [
          | inl e ↦
              let same : offset + n ≡ start = ground arith in
              let shown : in_context content patch (offset + n) (offset + n + length patch.before)
                  ≡ true =
                rw (same, sym place-end) place-in_context in
              inl (rw (occurrences_from, found, shown) (inl same))
          | inr n' ↦ elim (Bool-cases (ltb start (offset + n + length patch.before))) [
            | inl over ↦
                inr (offset + n, found-StandsAt offset n h found, ground arith, ground arith)
            | inr behind ↦
                elim (occurrences_from-finds fuel (offset + n + length patch.before) some_text
                  (ground arith) (omega (arith, k, filled patch.before some_text))) [
                    | inr hidden ↦ inr hidden
                    | inl listed ↦
                        inl
                          (elim (Bool-cases (
                            in_context content patch (offset + n)
                              (offset + n + length patch.before))) [
                                | inl c ↦ rw (occurrences_from, found, c) (inr listed)
                                | inr c ↦ rw (occurrences_from, found, c) listed
                              ])
                  ]
          ]
        ]
      where
        filled : (t : Text) → is_empty t ≡ false → 0 < length t
        filled [] e = cc
        filled (c ∷ cs) e = omega arith

  -- The insertion positions are all boundaries in context.
  meeting-finds :
      (before after : Text) (boundary : ℕ) (left middle right : Text)
      → ends_with before (left ++ middle) ≡ true
      → starts_with after right ≡ true
      → IsListed
          (boundary + length middle)
          (empty_ranges (meeting before after boundary left (middle ++ right)))
  unfolding meeting
  meeting-finds before after boundary left [] [] e s =
      rw (meeting, sym (append-nil left), e, s) (inl (omega arith))
  meeting-finds before after boundary left [] (c ∷ right) e s =
      rw (meeting, sym (append-nil left), e, s) (inl (omega arith))
  meeting-finds before after boundary left (c ∷ middle) right e s =
      let later =
        meeting-finds before after (suc boundary) (left ++ c ∷ []) middle right
          (rw (append_assoc left (c ∷ []) middle) e) s in
      let same : suc boundary + length middle ≡ boundary + suc (length middle) = omega arith in
      let rest = meeting before after (suc boundary) (left ++ c ∷ []) (middle ++ right) in
      let moved : IsListed (boundary + suc (length middle)) (empty_ranges rest) =
        subst (λ i. IsListed i (empty_ranges rest)) same later in
      elim (Bool-cases (ends_with before left && starts_with after (c ∷ middle ++ right))) [
        | inl m ↦ rw (meeting, m) (inr moved)
        | inr m ↦ rw (meeting, m) moved
      ]

  insertion_positions-finds :
      (start end : ℕ)
      → patch.before ≡ []
      → IsPlace content patch start end
      → IsListed start
          (empty_ranges (insertion_positions content patch.before_context patch.after_context))
        ⊎ IsUnplaced
  unfolding insertion_positions
  insertion_positions-finds start end empty p =
      elim (Bool-cases (is_empty patch.before_context && is_empty patch.after_context)) [
        | inl e ↦
            let (b, a) =
              and_true (is_empty patch.before_context) (is_empty patch.after_context) e in
            inr (empty, is_empty→≡ patch.before_context b, is_empty→≡ patch.after_context a)
        | inr n ↦
            let parts : p.left ++ p.right ≡ content = sym (rw empty at p.parts) in
            let listed =
              meeting-finds patch.before_context patch.after_context 0 [] p.left p.right
                (rw (sym p.context_before.1)
                  (ends_with-append p.context_before.0 patch.before_context))
                (rw (sym p.context_after.1)
                  (starts_with-append patch.after_context p.context_after.0)) in
            inl (
              rw (insertion_positions, n)
                (subst
                  (λ t.
                    IsListed start
                      (empty_ranges (meeting patch.before_context patch.after_context 0 [] t)))
                  parts
                  (subst
                    (λ i. IsListed i (
                      empty_ranges (
                        meeting patch.before_context patch.after_context 0 [] (p.left ++ p.right))))
                    (omega (arith, p.starts)) listed)))
      ]

  -- Each place of the patch is a candidate, starts inside an occurrence of the replaced text in front of
  -- it, or is of a patch that shows no text.
  pub candidates-finds :
      (start end : ℕ)
      → IsPlace content patch start end
      → IsListed start (candidates content patch) ⊎ (IsHidden start ⊎ IsUnplaced)
  unfolding candidates
  candidates-finds start end p = elim (Bool-cases (is_empty patch.before)) [
    | inl e ↦ elim (insertion_positions-finds start end (is_empty→≡ patch.before e) p) [
      | inl listed ↦ inl (rw (candidates, e) listed)
      | inr free ↦ inr (inr free)
    ]
    | inr n ↦
        elim (occurrences_from-finds start end p (suc (length content)) 0 n (omega arith) (
          omega
            (arith, p.starts, ap length p.parts, length-append p.left (patch.before ++ p.right)))) [
              | inl listed ↦ inl (rw (candidates, n) listed)
              | inr hidden ↦ inr (inl hidden)
            ]
  ]
