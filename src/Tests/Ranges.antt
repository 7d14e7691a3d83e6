-- ===== src/Tests/Ranges.antt =====
-- crates/orkia-semantic/src/lib.rs: the changed ranges of small texts.
use boop_orkia_cli.Prelude.{◌≡◌, refl, ◌<◌, ◌-◌, ◌^◌, max, [], ◌∷◌, length, arith}
use boop_orkia_cli.Prelude.Text.{Text, text}
use boop_orkia_cli.Projection.Alignment.{fill_row, fill_table}
use boop_orkia_cli.Projection.Patches.{split_lines}
use boop_orkia_cli.Semantic.Ranges.{
  skip, range_between, push_range, next_place, next_ranges, ranges_from, line_ranges,
  changed_line_ranges,
}
use boop_orkia_cli.Semantic.Ranges.Separated.{AreSeparated, changed_line_ranges-AreSeparated}

program : Unit {0}
unfolding text split_lines fill_row fill_table skip range_between push_range next_place next_ranges
    ranges_from line_ranges changed_line_ranges
program = tt

abbrev old_text : Text
old_text = text "a\nb\nc\nd\n"

abbrev new_text : Text
new_text = text "x\nb\nc\nd\ny\n"

two_ranges : changed_line_ranges old_text new_text ≡ (1, 1) ∷ (5, 5) ∷ []
unfolding program
two_ranges = refl

one_deleted : changed_line_ranges old_text (text "a\nb\nd\n") ≡ (3, 3) ∷ []
unfolding program
one_deleted = refl

new_text_short : length (split_lines new_text) < 2 ^ 32 - 1
unfolding program
new_text_short = omega arith

changed_line_ranges-AreSeparated_example :
    AreSeparated (max 1 (length (split_lines new_text))) 1 (changed_line_ranges old_text new_text)
changed_line_ranges-AreSeparated_example =
    changed_line_ranges-AreSeparated old_text new_text new_text_short
