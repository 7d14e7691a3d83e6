-- ===== src/Projection/Applying.antt =====
-- crates/orkia-projection/src/lib.rs: patches applied to the contents of files. An offset counts the
-- characters in front of it; the source's offsets count bytes and lie between characters too.
pub mod Occurrences
pub mod Places
pub mod Search
pub mod Unique
use boop_orkia_cli.Prelude.{
  ℕ, zero, suc, ◌+◌, ◌-◌, leb, nat_eq, Bool, true, false, ◌&&◌, Option, none, some, List, [], ◌∷◌,
  ◌++◌, if◌then◌else◌, length, take, drop, is_empty, nat_ord, list_ord, ◌==◌,
}
use boop_orkia_cli.Prelude.Sets.{BTreeSet, collect}
use boop_orkia_cli.Prelude.Maps.{BTreeMap, lookup, put}
use boop_orkia_cli.Prelude.Text.{Text, text, decimal}
use boop_orkia_cli.Errors.{Result, ok, err, conflict, ◌>>=◌}
use boop_orkia_cli.Model.Atoms.{PatchFragment}

abbrev pub starts_with : Text → Text → Bool
starts_with [] t = true
starts_with (c ∷ cs) [] = false
starts_with (c ∷ cs) (d ∷ ds) = nat_eq c d && starts_with cs ds

abbrev pub ends_with : Text → Text → Bool
ends_with part t = leb (length part) (length t) && (drop (length t - length part) t == part)

abbrev pub one_later : Option ℕ → Option ℕ
one_later none = none
one_later (some n) = some (suc n)

-- `str::find`: the offset of the first occurrence
unfoldable pub find : Text → Text → Option ℕ
find part [] = if is_empty part then some 0 else none
find part (c ∷ cs) =
    let later = find part cs in if starts_with part (c ∷ cs) then some 0 else one_later later

-- The offsets at which the two contexts meet, from `boundary` on, with the text on either side of it.
unfoldable pub meeting : Text → Text → ℕ → Text → Text → List ℕ
meeting before after boundary left [] =
    if ends_with before left && starts_with after [] then boundary ∷ [] else []
meeting before after boundary left (c ∷ right) =
    let rest = meeting before after (suc boundary) (left ++ c ∷ []) right in
    if ends_with before left && starts_with after (c ∷ right) then boundary ∷ rest else rest

unfoldable pub insertion_positions : Text → Text → Text → List ℕ
insertion_positions content before_context after_context =
    if is_empty before_context && is_empty after_context
    then 0 ∷ []
    else meeting before_context after_context 0 [] content

-- Both sides of an occurrence show the contexts of the patch.
abbrev pub in_context : Text → PatchFragment → ℕ → ℕ → Bool
in_context content patch start end =
    ends_with patch.before_context (take start content)
    && starts_with patch.after_context (drop end content)

-- The `while let` loop from `offset` on. The fuel bounds the occurrences that are left.
unfoldable pub occurrences_from : ℕ → Text → PatchFragment → ℕ → List (ℕ × ℕ)
occurrences_from zero content patch offset = []
occurrences_from (suc fuel) content patch offset = elim (find patch.before (drop offset content)) [
  | none ↦ []
  | some relative ↦
      let start = offset + relative in
      let end = start + length patch.before in
      let rest = occurrences_from fuel content patch end in
      if in_context content patch start end then (start, end) ∷ rest else rest
]

abbrev pub empty_ranges : List ℕ → List (ℕ × ℕ)
empty_ranges [] = []
empty_ranges (boundary ∷ boundaries) = (boundary, boundary) ∷ empty_ranges boundaries

-- Each occurrence of the text that is replaced takes at least one character of the content.
unfoldable pub candidates : Text → PatchFragment → List (ℕ × ℕ)
candidates content patch =
    if is_empty patch.before
    then empty_ranges (insertion_positions content patch.before_context patch.after_context)
    else occurrences_from (suc (length content)) content patch 0

-- The one candidate, and the content with the patch in its place.
unfoldable pub apply_at : Text → PatchFragment → List (ℕ × ℕ) → Result Text
apply_at content patch ((start, end) ∷ []) =
    ok (take start content ++ (patch.after ++ drop end content))
apply_at content patch found = err (
    conflict (
      text "patch for "
      ++ patch.path
      ++ text " is not uniquely applicable ("
      ++ decimal (length found)
      ++ text ")"))

unfoldable pub apply_patch : Text → PatchFragment → Result Text
apply_patch content patch = apply_at content patch (candidates content patch)

abbrev pub or_default : Option Text → Text
or_default none = []
or_default (some content) = content

-- `apply_patches`, which is given up at the first error.
unfoldable pub apply_patches : BTreeMap Text Text → List PatchFragment → Result (BTreeMap Text Text)
apply_patches files [] = ok files
apply_patches files (patch ∷ patches) = do
  content ← apply_patch (or_default (lookup patch.path files)) patch
  apply_patches (put patch.path content files) patches
