-- ===== src/Projection/Applying/Occurrences.antt =====
-- crates/orkia-projection/src/lib.rs: the occurrences that `apply_patch` finds.
use boop_orkia_cli.Prelude.{
  ℕ, zero, suc, ◌+◌, ◌-◌, ◌≡◌, refl, sym, subst, ◌∙◌, ap, nat_eq, true, Option, none, some, List,
  [], ◌∷◌, ◌++◌, arith, inl, inr, Bool-cases, Option-cases, length-append, and_true, if◌then◌else◌,
  length, take, drop, is_empty, nat_ord, list_ord, ==→≡, append_assoc,
}
use boop_orkia_cli.Prelude.Text.{Text}
use boop_orkia_cli.Model.Atoms.{PatchFragment}
use boop_orkia_cli.Projection.Patches.Lines.{IsSuffix, IsPrefix, take-drop}
use boop_orkia_cli.Projection.Applying.{
  starts_with, ends_with, one_later, find, in_context, occurrences_from,
}

pub starts_with-IsPrefix :
    (part t : Text) → starts_with part t ≡ true → part ++ drop (length part) t ≡ t
starts_with-IsPrefix [] t h = refl
starts_with-IsPrefix (c ∷ cs) [] h = cc
starts_with-IsPrefix (c ∷ cs) (d ∷ ds) h =
    let e : c ≡ d = ground arith in
    rw e
      (ap (λ l. d ∷ l) (starts_with-IsPrefix cs ds (and_true (nat_eq c d) (starts_with cs ds) h).1))

pub ends_with-IsSuffix : (part t : Text) → ends_with part t ≡ true → IsSuffix part t
ends_with-IsSuffix part t h =
    let e = ==→≡ (drop (length t - length part) t) part (and_true _ _ h).1 in
    (
      take (length t - length part) t,
      ap (λ l. take (length t - length part) t ++ l) (sym e) ∙ take-drop (length t - length part) t,
    )

module _ {A : Type 0} where
  take-length : (xs ys : List A) → take (length xs) (xs ++ ys) ≡ xs
  take-length [] ys = refl
  take-length (x ∷ xs) ys = ap (λ l. x ∷ l) (take-length xs ys)

  pub drop-length : (xs ys : List A) → drop (length xs) (xs ++ ys) ≡ ys
  drop-length [] ys = refl
  drop-length (x ∷ xs) ys = drop-length xs ys

pub is_empty→≡ : (t : Text) → is_empty t ≡ true → t ≡ []
is_empty→≡ [] h = refl
is_empty→≡ (c ∷ cs) h = cc

-- A part of a text behind the given number of characters.
abbrev pub StandsAt : Text → Text → ℕ → Type 0
StandsAt part t n =
    (left : Text) × (right : Text) × (t ≡ left ++ (part ++ right)) × (n ≡ length left)

abbrev StandsWhere : Text → Text → Option ℕ → Type 0
StandsWhere part t none = Unit
StandsWhere part t (some n) = StandsAt part t n

one_later-StandsWhere :
    (part t : Text) (c : ℕ) (o : Option ℕ)
    → StandsWhere part t o
    → StandsWhere part (c ∷ t) (one_later o)
one_later-StandsWhere part t c none h = tt
one_later-StandsWhere part t c (some n) (left, right, e, l) =
    (c ∷ left, right, ap (λ l. c ∷ l) e, ap suc l)

pub find-StandsWhere : (part t : Text) → StandsWhere part t (find part t)
unfolding find
find-StandsWhere [] [] = ([], [], refl, refl)
find-StandsWhere (p ∷ ps) [] = tt
find-StandsWhere part (c ∷ cs) = elim (Bool-cases (starts_with part (c ∷ cs))) [
  | inl e ↦
      rw (find, e)
        ([], drop (length part) (c ∷ cs), sym (starts_with-IsPrefix part (c ∷ cs) e), refl)
  | inr n ↦ rw (find, n) (one_later-StandsWhere part cs c (find part cs) (find-StandsWhere part cs))
]

pub find-StandsAt : (part t : Text) (n : ℕ) → find part t ≡ some n → StandsAt part t n
find-StandsAt part t n h = subst (StandsWhere part t) h (find-StandsWhere part t)

-- A place of a patch in a content: the replaced text, between texts that show the contexts.
pub record IsPlace (content : Text) (patch : PatchFragment) (start end : ℕ) : Type 0 where
  pub left : Text
  pub right : Text
  pub parts : content ≡ left ++ (patch.before ++ right)
  pub starts : start ≡ length left
  pub ends : end ≡ length (left ++ patch.before)
  pub context_before : IsSuffix patch.before_context left
  pub context_after : IsPrefix patch.after_context right

module _ (content : Text) (patch : PatchFragment) where
  abbrev pub ArePlaces : List (ℕ × ℕ) → Type 0
  ArePlaces [] = Unit
  ArePlaces ((start, end) ∷ found) = IsPlace content patch start end × ArePlaces found

  -- What an occurrence of the text cuts off.
  pub take-start :
      (left right : Text)
      → content ≡ left ++ (patch.before ++ right)
      → take (length left) content ≡ left
  take-start left right e = rw e (take-length left (patch.before ++ right))

  pub drop-end :
      (left right : Text)
      → content ≡ left ++ (patch.before ++ right)
      → drop (length (left ++ patch.before)) content ≡ right
  drop-end left right e =
      rw (e ∙ sym (append_assoc left patch.before right)) (drop-length (left ++ patch.before) right)

  in_context-IsPlace :
      (left right : Text)
      → content ≡ left ++ (patch.before ++ right)
      → in_context content patch (length left) (length (left ++ patch.before)) ≡ true
      → IsPlace content patch (length left) (length (left ++ patch.before))
  in_context-IsPlace left right e h =
      let (b, a) =
        and_true (ends_with patch.before_context (take (length left) content))
          (starts_with patch.after_context (drop (length (left ++ patch.before)) content)) h in
      record {
        left = left;
        right = right;
        parts = e;
        starts = refl;
        ends = refl;
        context_before =
            ends_with-IsSuffix patch.before_context left
              (subst (λ t. ends_with patch.before_context t ≡ true) (take-start left right e) b);
        context_after =
            let a' =
              subst (λ t. starts_with patch.after_context t ≡ true) (drop-end left right e) a in
            (
              drop (length patch.after_context) right,
              starts_with-IsPrefix patch.after_context right a',
            );
      }

  in_context-ArePlaces :
      (start end : ℕ) (left right : Text) (found : List (ℕ × ℕ))
      → content ≡ left ++ (patch.before ++ right)
      → start ≡ length left
      → end ≡ length (left ++ patch.before)
      → ArePlaces found
      → ArePlaces (if in_context content patch start end then (start, end) ∷ found else found)
  in_context-ArePlaces start end left right found e s t h =
      elim (Bool-cases (in_context content patch start end)) [
        | inl c ↦
            let c' =
              subst (λ i. in_context content patch i (length (left ++ patch.before)) ≡ true) s
                (subst (λ i. in_context content patch start i ≡ true) t c) in
            let p = in_context-IsPlace left right e c' in
            rw c (
              record {
                left = p.left;
                right = p.right;
                parts = p.parts;
                starts = s ∙ p.starts;
                ends = t ∙ p.ends;
                context_before = p.context_before;
                context_after = p.context_after;
              },
              h,
            )
        | inr c ↦ rw c h
      ]

  pub occurrences_from-ArePlaces :
      (fuel offset : ℕ) (front rest : Text)
      → content ≡ front ++ rest
      → offset ≡ length front
      → ArePlaces (occurrences_from fuel content patch offset)
  unfolding occurrences_from
  occurrences_from-ArePlaces zero offset front rest e o = tt
  occurrences_from-ArePlaces (suc fuel) offset front rest e o =
      elim (Option-cases (find patch.before (drop offset content))) [
        | inl n ↦ rw (occurrences_from, n) tt
        | inr (relative, f) ↦
            let behind : drop offset content ≡ rest = rw (o, e) (drop-length front rest) in
            let (l, right, parts, at) =
              find-StandsAt patch.before rest relative
                (subst (λ t. find patch.before t ≡ some relative) behind f) in
            let whole : content ≡ (front ++ l) ++ (patch.before ++ right) =
              e
              ∙ (ap (λ t. front ++ t) parts ∙ sym (append_assoc front l (patch.before ++ right))) in
            let start : offset + relative ≡ length (front ++ l) =
              omega (arith, o, at, length-append front l) in
            let end : offset + relative + length patch.before
                ≡ length ((front ++ l) ++ patch.before) =
              omega (arith, start, length-append (front ++ l) patch.before) in
            let later =
              occurrences_from-ArePlaces fuel (offset + relative + length patch.before)
                ((front ++ l) ++ patch.before) right
                (whole ∙ sym (append_assoc (front ++ l) patch.before right)) end in
            rw (occurrences_from, f)
              (in_context-ArePlaces _ _ (front ++ l) right _ whole start end later)
      ]
