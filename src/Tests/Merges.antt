-- ===== src/Tests/Merges.antt =====
-- crates/orkia-semantic/src/lib.rs at small texts, and canonical JSON at a small value.
use boop_orkia_cli.Prelude.{
  ℕ, ◌≡◌, refl, Bool, true, ◌&&◌, leb, Option, none, some, List, [], ◌∷◌, length, AllOf, map, ◌++◌,
  nat_ord, list_ord, pair_ord, sort_by, place_by,
}
use boop_orkia_cli.Prelude.Sets.{contains, insert, extend, collect, sort, place}
use boop_orkia_cli.Prelude.Maps.{lookup}
use boop_orkia_cli.Prelude.Text.{Text, text, utf8, digits_from, decimal}
use boop_orkia_cli.Errors.{Result, ok}
use boop_orkia_cli.Model.Ids.{Bytes}
use boop_orkia_cli.Model.Atoms.{ChangeAtom}
use boop_orkia_cli.Model.Nodes.{SemanticTrunk, SemanticBranch, SemanticNodeState, TrunkState}
use boop_orkia_cli.Model.Json.{
  Json, number, object, end, field, separator, join_element, write_entry, write_entries,
  write_sorted, write_canonical_json,
}
use boop_orkia_cli.Model.Json.Order.{object_fields, swapped, write_canonical_json-reordered}
use boop_orkia_cli.Projection.Alignment.{fill_row, fill_table}
use boop_orkia_cli.Semantic.Tokens.{
  tokens_behind, lexical_tokens, edits_from, token_edits, copy_edit, merge_from, merge_token_edits,
  merge_token_text,
}
use boop_orkia_cli.Semantic.Tokens.Edits.{AreEdits, apply_edits, token_edits-AreEdits}
use boop_orkia_cli.Semantic.Tokens.Merging.{IsMerge, merge_token_edits-IsMerge}
use boop_orkia_cli.Semantic.Tokens.Symmetry.{merge_token_text_comm}
use boop_orkia_cli.Semantic.Languages.{Language}
use boop_orkia_cli.Semantic.Extraction.{ChangedFile, SyntaxTree}
use boop_orkia_cli.Semantic.Dependencies.{
  infer_dependencies, each_pair, causal_edges, path_edges, by_path_edges, tests, implementations,
  test_edges, dedup, dedup_behind,
}
use boop_orkia_cli.Semantic.Dependencies.Justified.{IsJustified, infer_dependencies-IsJustified}
use boop_orkia_cli.Semantic.Trunks.{delete_trunk}
use boop_orkia_cli.Semantic.Trunks.Deleted.{IsDeletedTrunk, delete_trunk-IsDeletedTrunk}
use boop_orkia_cli.Tests.Samples.{plain_atom}

program : Unit {0}
unfolding text utf8 lookup contains sort place write_canonical_json write_entry write_entries
    write_sorted separator join_element fill_row fill_table tokens_behind lexical_tokens edits_from
    token_edits copy_edit merge_from merge_token_edits merge_token_text insert extend collect
    sort_by place_by infer_dependencies each_pair causal_edges path_edges by_path_edges tests
    implementations test_edges dedup dedup_behind digits_from decimal
program = tt

abbrev quoted : Text → Result Bytes
quoted t = ok (b'"' ∷ (t ++ b'"' ∷ []))

abbrev one_field : Json
one_field = number (text "1")

abbrev two_fields : Json
two_fields = object (field (text "b") one_field (field (text "a") one_field end))

abbrev turned_fields : Json
turned_fields = object (field (text "a") one_field (field (text "b") one_field end))

two_fields_written : write_canonical_json quoted two_fields ≡ ok (text "{\"a\":1,\"b\":1}")
unfolding program
two_fields_written = refl

write_canonical_json-reordered_example :
    write_canonical_json quoted two_fields ≡ write_canonical_json quoted turned_fields
unfolding program
write_canonical_json-reordered_example =
    write_canonical_json-reordered quoted {v = two_fields} {w = turned_fields}
      (object_fields (swapped refl))

-- Small letters are alphanumeric.
abbrev is_letter : ℕ → Bool
is_letter x = leb b'a' x && leb x b'z'

abbrev base_text : Text
base_text = text "a b c"

abbrev left_text : Text
left_text = text "x b c"

abbrev right_text : Text
right_text = text "a b y"

both_sides_merged : merge_token_text is_letter base_text left_text right_text ≡ some (text "x b y")
unfolding program
both_sides_merged = refl

conflict_found : merge_token_text is_letter base_text left_text (text "z b c") ≡ none
unfolding program
conflict_found = refl

merge_token_text_comm_example :
    merge_token_text is_letter base_text left_text right_text
    ≡ merge_token_text is_letter base_text right_text left_text
merge_token_text_comm_example = merge_token_text_comm is_letter base_text left_text right_text

abbrev tokens_of : Text → List Text
tokens_of t = t ∷ text "," ∷ text "b" ∷ []

abbrev base_tokens : List Text
base_tokens = text "a" ∷ text "," ∷ text "b" ∷ []

abbrev left_tokens : List Text
left_tokens = text "x" ∷ text "," ∷ text "b" ∷ []

abbrev right_tokens : List Text
right_tokens = text "a" ∷ text "," ∷ text "y" ∷ []

abbrev merged_tokens : List Text
merged_tokens = text "x" ∷ text "," ∷ text "y" ∷ []

tokens_merged :
    merge_token_edits base_tokens
      (token_edits base_tokens left_tokens)
      (token_edits base_tokens right_tokens)
    ≡ some merged_tokens
unfolding program
tokens_merged = refl

merge_token_edits-IsMerge_example :
    IsMerge base_tokens 0
      (token_edits base_tokens left_tokens)
      (token_edits base_tokens right_tokens)
      merged_tokens
    × (apply_edits base_tokens 0 (token_edits base_tokens left_tokens) ≡ left_tokens)
    × (apply_edits base_tokens 0 (token_edits base_tokens right_tokens) ≡ right_tokens)
merge_token_edits-IsMerge_example =
    merge_token_edits-IsMerge base_tokens left_tokens right_tokens merged_tokens tokens_merged

token_edits-AreEdits_example :
    AreEdits (length base_tokens) 0 (token_edits base_tokens left_tokens)
    × (apply_edits base_tokens 0 (token_edits base_tokens left_tokens) ≡ left_tokens)
token_edits-AreEdits_example = token_edits-AreEdits base_tokens left_tokens

abbrev two_atoms : List ChangeAtom
two_atoms = plain_atom 1 ∷ plain_atom 2 ∷ []

one_hard_edge : map (λ e. e.confidence_milli) (infer_dependencies two_atoms) ≡ 1000 ∷ []
unfolding program
one_hard_edge = refl

infer_dependencies-IsJustified_example :
    AllOf (IsJustified two_atoms) (infer_dependencies two_atoms)
infer_dependencies-IsJustified_example = infer_dependencies-IsJustified two_atoms

abbrev plain_branch : SemanticBranch
plain_branch = record {
  id = text "b1";
  state = SemanticNodeState.alive;
  source_hash = text "ab";
  leaves = [];
}

abbrev plain_trunk : SemanticTrunk
plain_trunk = record {
  id = text "t1";
  state = TrunkState.alive;
  paths = text "src/lib.rs" ∷ [];
  branches = plain_branch ∷ [];
}

delete_trunk-IsDeletedTrunk_example :
    IsDeletedTrunk plain_trunk (delete_trunk plain_trunk true) true
delete_trunk-IsDeletedTrunk_example = delete_trunk-IsDeletedTrunk plain_trunk true

abbrev plain_file : ChangedFile
plain_file = record {
  path = text "src/lib.rs";
  content = text "a\nb\n";
  changed_start = 1;
  changed_end = 1;
  source_events = 5 ∷ [];
}

abbrev no_parser : Language → Text → Option SyntaxTree
no_parser language content = none
