-- ===== src/Projection/Patches/Fragments.antt =====
-- crates/orkia-projection/src/lib.rs: what `fragment_for_range` cuts out of the two contents.
use boop_orkia_cli.Prelude.{
  ℕ, suc, ◌+◌, ◌≤◌, ◌<◌, ◌≡◌, refl, subst, sym, ◌∙◌, ap, leb, ltb, ◌||◌, Option, none, some, List,
  [], ◌++◌, arith, length, take, drop, slice, nat_ord, list_ord,
}
use boop_orkia_cli.Prelude.Sets.{BTreeSet}
use boop_orkia_cli.Prelude.Text.{Text}
use boop_orkia_cli.Errors.{ok, >>-eq-ok, reject_if, reject_if-eq-ok, ok_injective}
use boop_orkia_cli.Model.Ids.{AtomId, Bytes}
use boop_orkia_cli.Model.Atoms.{FileChange, PatchFragment}
use boop_orkia_cli.Projection.Alignment.Optimal.{align-IsAlignment}
use boop_orkia_cli.Projection.Patches.{
  split_lines, join_lines, align_lines, previous, following, after_previous, unwrap_or, old_start,
  old_end, before_context, after_context, fragment_for_range, cut_fragment,
}
use boop_orkia_cli.Projection.Patches.Lines.{
  IsSuffix, IsPrefix, join_lines-split_lines, join_lines-append, join_lines-slice, take-suc,
  drop-suc,
}
use boop_orkia_cli.Projection.Patches.Neighbours.{
  IsWithin, IsBefore, previous-IsWithin, following-IsWithin, previous-following,
}

-- What a fragment of the lines `start..end` of the new content says of the two contents: the bounds are
-- those of slices; the old content is the old lines around the replaced ones, and the new content the
-- new lines around the inserted ones; and the contexts stand next to the replaced lines.
pub record IsFragment (change : FileChange) (aligned : List (ℕ × ℕ)) (start end : ℕ)
    (f : PatchFragment) : Type 0 where
  pub old_bounds :
      (old_start aligned start ≤ old_end change aligned end)
      × (old_end change aligned end ≤ length (split_lines change.old_content))
  pub new_bounds : (start < end) × (end ≤ length (split_lines change.new_content))
  pub replaced :
      join_lines (take (old_start aligned start) (split_lines change.old_content))
        ++ (f.before
            ++ join_lines (drop (old_end change aligned end) (split_lines change.old_content)))
      ≡ change.old_content
  pub inserted :
      join_lines (take start (split_lines change.new_content))
        ++ (f.after ++ join_lines (drop end (split_lines change.new_content)))
      ≡ change.new_content
  pub context_before :
      IsSuffix f.before_context
        (join_lines (take (old_start aligned start) (split_lines change.old_content)))
  pub context_after :
      IsPrefix f.after_context
        (join_lines (drop (old_end change aligned end) (split_lines change.old_content)))

before_context-IsSuffix :
    (lines : List Text) (o : Option ℕ)
    → IsSuffix (before_context lines o) (join_lines (take (after_previous o) lines))
unfolding join_lines
before_context-IsSuffix lines none = ([], refl)
before_context-IsSuffix lines (some p) = (
  join_lines (take p lines),
  sym (join_lines-append (take p lines) (slice p (suc p) lines))
      ∙ ap join_lines (sym (take-suc p lines)),
)

after_context-IsPrefix :
    (lines : List Text) (o : Option ℕ) (default : ℕ)
    → IsPrefix (after_context lines o) (join_lines (drop (unwrap_or o default) lines))
after_context-IsPrefix lines none default = (join_lines (drop default lines), refl)
after_context-IsPrefix lines (some q) default = (
  join_lines (drop (suc q) lines),
  sym (join_lines-append (slice q (suc q) lines) (drop (suc q) lines))
      ∙ ap join_lines (drop-suc q lines),
)

bounds-ordered :
    (size : ℕ) (p q : Option ℕ)
    → IsWithin 0 (0 + size) p
    → IsWithin 0 (0 + size) q
    → IsBefore p q
    → (after_previous p ≤ unwrap_or q size) × (unwrap_or q size ≤ size)
bounds-ordered size none none v w b = (omega arith, omega arith)
bounds-ordered size none (some q) v w b = (omega arith, omega arith)
bounds-ordered size (some p) none v w b = (omega arith, omega arith)
bounds-ordered size (some p) (some q) v w b = (omega arith, omega arith)

cut_fragment-IsFragment :
    (hex_sha256 : Bytes → Text) (change : FileChange) (start end : ℕ) (atoms : BTreeSet AtomId)
    → start < end
    → end ≤ length (split_lines change.new_content)
    → IsFragment change (align_lines change.old_content change.new_content) start end (
        cut_fragment hex_sha256 change
          (align_lines change.old_content change.new_content)
          start
          end
          atoms)
unfolding cut_fragment align_lines old_start old_end
cut_fragment-IsFragment hex_sha256 change start end atoms h k =
    let aligned = align_lines change.old_content change.new_content in
    let old_lines = split_lines change.old_content in
    let (a, longest) = align-IsAlignment old_lines (split_lines change.new_content) in
    let ordered =
      bounds-ordered (length old_lines) (previous aligned start) (following aligned end)
        (previous-IsWithin start a) (following-IsWithin end a)
        (previous-following start end (omega arith) a) in
    record {
      old_bounds = ordered;
      new_bounds = (h, k);
      replaced =
          join_lines-slice _ _ old_lines ordered.0 ∙ join_lines-split_lines change.old_content;
      inserted =
          join_lines-slice start end (split_lines change.new_content) (omega arith)
          ∙ join_lines-split_lines change.new_content;
      context_before = before_context-IsSuffix old_lines (previous aligned start);
      context_after = after_context-IsPrefix old_lines (following aligned end) (length old_lines);
    }

-- A fragment that is made of a range of the aligned contents of a change cuts both contents at bounds in
-- range: the old content is the lines in front of the replaced text, this text, and the lines behind it,
-- the new content likewise with the inserted text; and the contexts stand right before and behind the
-- replaced text.
pub fragment_for_range-IsFragment :
    (hex_sha256 : Bytes → Text) (change : FileChange) (start end : ℕ) (atoms : BTreeSet AtomId)
    (f : PatchFragment)
    → fragment_for_range hex_sha256 change
        (align_lines change.old_content change.new_content)
        start
        end
        atoms
      ≡ ok f
    → IsFragment change (align_lines change.old_content change.new_content) start end f
unfolding fragment_for_range
fragment_for_range-IsFragment hex_sha256 change start end atoms f h =
    let aligned = align_lines change.old_content change.new_content in
    let (accepted, last) =
      >>-eq-ok (reject_if _ _) (ok (cut_fragment hex_sha256 change aligned start end atoms)) h in
    let in_range =
      reject_if-eq-ok
        (ltb (length (split_lines change.new_content)) start
          || ltb (length (split_lines change.new_content)) end
          || leb end start)
        _ accepted in
    subst (IsFragment change aligned start end) (ok_injective last)
      (cut_fragment-IsFragment hex_sha256 change start end atoms (ground arith) (ground arith))
