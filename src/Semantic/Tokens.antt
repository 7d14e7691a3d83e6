-- ===== src/Semantic/Tokens.antt =====
-- crates/orkia-semantic/src/lib.rs: the merge of two texts at token boundaries. `char::is_alphanumeric`,
-- a property of Unicode, is a parameter.
pub mod Edits
pub mod Merging
pub mod Symmetry
use boop_orkia_cli.Prelude.{
  ℕ, suc, ltb, leb, nat_eq, Bool, true, false, not, ◌&&◌, ◌||◌, Option, none, some, List, [], ◌∷◌,
  ◌++◌, if◌then◌else◌, flat_map, slice, drop, nat_ord, list_ord, ◌==◌,
}
use boop_orkia_cli.Prelude.Text.{Text}
use boop_orkia_cli.Projection.Alignment.{cell, fill_table}

pub record TokenEdit : Type 0 where
  pub start : ℕ
  pub end : ℕ
  pub replacement : List Text

-- `Eq` of edits
abbrev pub same_edit : TokenEdit → TokenEdit → Bool
same_edit a b = nat_eq a.start b.start && nat_eq a.end b.end && a.replacement == b.replacement

abbrev pub same_kind : Bool → Bool → Bool
same_kind true b = b
same_kind false b = not b

module _ (is_alphanumeric : ℕ → Bool) where
  abbrev pub is_word : ℕ → Bool
  is_word c = is_alphanumeric c || nat_eq c b'_'

  -- The loop of `lexical_tokens`: the token so far holds a character, and `word` says of which kind.
  unfoldable pub tokens_behind : Bool → Text → Text → List Text
  tokens_behind word current [] = current ∷ []
  tokens_behind word current (c ∷ cs) = elim (same_kind word (is_word c)) [
    | true ↦ tokens_behind word (current ++ c ∷ []) cs
    | false ↦ current ∷ tokens_behind (is_word c) (c ∷ []) cs
  ]

  unfoldable pub lexical_tokens : Text → List Text
  lexical_tokens [] = []
  lexical_tokens (c ∷ cs) = tokens_behind (is_word c) (c ∷ []) cs

-- `active.get_or_insert_with(…)`
abbrev pub active_at : ℕ → Option TokenEdit → TokenEdit
active_at base_index none = record { start = base_index; end = base_index; replacement = [] }
active_at base_index (some edit) = edit

abbrev pub delete_one : TokenEdit → TokenEdit
delete_one edit = record edit { end = suc edit.end }

abbrev pub insert_one : Text → TokenEdit → TokenEdit
insert_one token edit = record edit { replacement = edit.replacement ++ token ∷ [] }

abbrev pub finished : Option TokenEdit → List TokenEdit → List TokenEdit
finished none edits = edits
finished (some edit) edits = edit ∷ edits

-- The `while` loop of `token_edits`, with `base[base_index..]` and `side[side_index..]`.
unfoldable pub edits_from :
    List (List ℕ) → ℕ → ℕ → Option TokenEdit → List Text → List Text → List TokenEdit
edits_from lcs i j active [] [] = finished active []
edits_from lcs i j active [] (y ∷ side) =
    edits_from lcs i (suc j) (some (insert_one y (active_at i active))) [] side
edits_from lcs i j active (x ∷ base) [] =
    edits_from lcs (suc i) j (some (delete_one (active_at i active))) base []
edits_from lcs i j active (x ∷ base) (y ∷ side) = elim (x == y) [
  | true ↦ finished active (edits_from lcs (suc i) (suc j) none base side)
  | false ↦ elim (leb (cell lcs i (suc j)) (cell lcs (suc i) j)) [
    | true ↦ edits_from lcs (suc i) j (some (delete_one (active_at i active))) base (y ∷ side)
    | false ↦ edits_from lcs i (suc j) (some (insert_one y (active_at i active))) (x ∷ base) side
  ]
]

unfoldable pub token_edits : List Text → List Text → List TokenEdit
token_edits base side = edits_from (fill_table base side) 0 0 none base side

-- `output.extend(&base[position..edit.start])`, the replacement, and the rest of the output.
unfoldable pub copy_edit : List Text → ℕ → TokenEdit → Option (List Text) → Option (List Text)
copy_edit base position edit none = none
copy_edit base position edit (some rest) =
    some (slice position edit.start base ++ (edit.replacement ++ rest))

-- The loop of `merge_token_edits`, with the edits that are left of each side.
unfoldable pub merge_from : List Text → ℕ → List TokenEdit → List TokenEdit → Option (List Text)
merge_from base position [] [] = some (drop position base)
merge_from base position (l ∷ left) [] = copy_edit base position l (merge_from base l.end left [])
merge_from base position [] (r ∷ right) = copy_edit base position r (merge_from base r.end [] right)
merge_from base position (l ∷ left) (r ∷ right) = elim (nat_eq l.start r.start) [
  | true ↦ elim (same_edit l r) [
    | true ↦ copy_edit base position l (merge_from base l.end left right)
    | false ↦ none
  ]
  | false ↦ elim (ltb l.start r.start) [
    | true ↦ elim (ltb r.start l.end) [
      | true ↦ none
      | false ↦ copy_edit base position l (merge_from base l.end left (r ∷ right))
    ]
    | false ↦ elim (ltb l.start r.end) [
      | true ↦ none
      | false ↦ copy_edit base position r (merge_from base r.end (l ∷ left) right)
    ]
  ]
]

unfoldable pub merge_token_edits : List Text → List TokenEdit → List TokenEdit → Option (List Text)
merge_token_edits base left right = merge_from base 0 left right

abbrev pub concat : List Text → Text
concat tokens = flat_map (λ t. t) tokens

abbrev pub concat_some : Option (List Text) → Option Text
concat_some none = none
concat_some (some tokens) = some (concat tokens)

unfoldable pub merge_token_text : (is_alphanumeric : ℕ → Bool) → Text → Text → Text → Option Text
merge_token_text is_alphanumeric base left right =
    let tokens = lexical_tokens is_alphanumeric in
    if left == right
    then some left
    else if left == base
    then some right
    else if right == base
    then some left
    else concat_some (
        merge_token_edits (tokens base) (token_edits (tokens base) (tokens left))
          (token_edits (tokens base) (tokens right)))
