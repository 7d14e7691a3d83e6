-- ===== src/Projection/Patches.antt =====
-- crates/orkia-projection/src/lib.rs: the patches of a pull request. SHA-256 in hexadecimal digits is a
-- parameter, and a line or an offset of Rust's `usize` is a natural number.
pub mod Lines
pub mod Neighbours
pub mod Fragments
use boop_orkia_cli.Prelude.{
  ℕ, zero, suc, ◌+◌, ◌-◌, max, leb, ltb, nat_eq, Bool, true, false, not, ◌&&◌, ◌||◌, Option, none,
  some, List, [], ◌∷◌, ◌++◌, map, if◌then◌else◌, length, filter, flat_map, slice, is_empty, sort_by,
  head?, nat_ord, list_ord, ◌==◌,
}
use boop_orkia_cli.Prelude.Sets.{BTreeSet, insert, collect, set_eq}
use boop_orkia_cli.Prelude.Text.{Text, text, utf8}
use boop_orkia_cli.Errors.{Result, ok, err, invalid, try_map, reject_if, ◌>>=◌, ◌>>◌}
use boop_orkia_cli.Model.Ids.{AtomId, Bytes}
use boop_orkia_cli.Model.Objects.{Hash}
use boop_orkia_cli.Model.Atoms.{ChangeAtom, FileChange, PatchFragment}
use boop_orkia_cli.Model.PullRequests.{StackPullRequest, validate_pull_request}
use boop_orkia_cli.Projection.Alignment.{align}

-- A character in front of the lines of the text behind it, in whose first line it stands.
abbrev pub in_line : ℕ → List Text → List Text
in_line c [] = (c ∷ []) ∷ []
in_line c (line ∷ lines) = (c ∷ line) ∷ lines

-- `split_lines`: each line with its newline
unfoldable pub split_lines : Text → List Text
split_lines [] = []
split_lines (c ∷ cs) =
    let lines = split_lines cs in if nat_eq c 10 then (c ∷ []) ∷ lines else in_line c lines

-- `join_lines`
unfoldable pub join_lines : List Text → Text
join_lines lines = flat_map (λ line. line) lines

unfoldable pub align_lines : Text → Text → List (ℕ × ℕ)
align_lines old new = align (split_lines old) (split_lines new)

abbrev pub last? {ℓ} : {A : Type ℓ} → List A → Option A
last? [] = none
last? (x ∷ []) = some x
last? (x ∷ y ∷ xs) = last? (y ∷ xs)

abbrev pub old_position : Option (ℕ × ℕ) → Option ℕ
old_position none = none
old_position (some (old, new)) = some old

-- The last aligned line in front of a range, and the first behind it, by their old positions.
unfoldable pub previous : List (ℕ × ℕ) → ℕ → Option ℕ
previous aligned start = old_position (last? (filter (λ p. ltb p.1 start) aligned))

unfoldable pub following : List (ℕ × ℕ) → ℕ → Option ℕ
following aligned end = old_position (head? (filter (λ p. leb end p.1) aligned))

abbrev pub after_previous : Option ℕ → ℕ
after_previous none = 0
after_previous (some index) = suc index

abbrev pub unwrap_or : Option ℕ → ℕ → ℕ
unwrap_or none default = default
unwrap_or (some index) default = index

-- The bounds `old_start` and `old_end` of the old lines of a fragment.
unfoldable pub old_start : List (ℕ × ℕ) → ℕ → ℕ
old_start aligned start = after_previous (previous aligned start)

unfoldable pub old_end : FileChange → List (ℕ × ℕ) → ℕ → ℕ
old_end change aligned end =
    unwrap_or (following aligned end) (length (split_lines change.old_content))

-- The context in front of a range of old lines that starts behind the given line, and the context
-- behind one that ends at the given line.
abbrev pub before_context : List Text → Option ℕ → Text
before_context old_lines none = []
before_context old_lines (some index) = join_lines (slice index (suc index) old_lines)

abbrev pub after_context : List Text → Option ℕ → Text
after_context old_lines none = []
after_context old_lines (some index) = join_lines (slice index (suc index) old_lines)

-- A group of ranges: its bounds, and the atoms in it.
abbrev pub Group : Type 0
Group = ℕ × ℕ × BTreeSet AtomId

-- `ranges.sort_by_key(|(start, end, _)| (*start, *end))`, which is stable
abbrev pub range_less : ℕ × ℕ × AtomId → ℕ × ℕ × AtomId → Bool
range_less (s, e, a) (t, f, b) = ltb s t || (nat_eq s t && ltb e f)

-- The loop that groups sorted ranges, with the last group so far.
unfoldable pub group_behind : ℕ → ℕ → BTreeSet AtomId → List (ℕ × ℕ × AtomId) → List Group
group_behind start end ids [] = (start, end, ids) ∷ []
group_behind start end ids ((s, e, atom) ∷ ranges) = elim (leb s end) [
  | true ↦ group_behind start (max end e) (insert atom ids) ranges
  | false ↦ (start, end, ids) ∷ group_behind s e (atom ∷ []) ranges
]

unfoldable pub group_ranges : List (ℕ × ℕ × AtomId) → List Group
group_ranges [] = []
group_ranges ((s, e, atom) ∷ ranges) = group_behind s e (atom ∷ []) ranges

abbrev pub range_of : ChangeAtom → ℕ × ℕ × AtomId
range_of atom = (atom.start_line - 1, atom.end_line, atom.id)

module _ (hex_sha256 : Bytes → Text) where
  unfoldable pub digest : Text → Hash
  digest content = hex_sha256 (utf8 content)

  -- The fragment of a range that is in the new content.
  unfoldable pub cut_fragment : FileChange → List (ℕ × ℕ) → ℕ → ℕ → BTreeSet AtomId → PatchFragment
  cut_fragment change aligned start end atoms =
      let new_lines = split_lines change.new_content in
      let old_lines = split_lines change.old_content in
      record {
        atoms = atoms;
        path = change.path;
        before =
            join_lines (slice (old_start aligned start) (old_end change aligned end) old_lines);
        after = join_lines (slice start end new_lines);
        before_context = before_context old_lines (previous aligned start);
        after_context = after_context old_lines (following aligned end);
        base_content_hash = digest change.old_content;
      }

  unfoldable pub fragment_for_range :
      FileChange → List (ℕ × ℕ) → ℕ → ℕ → BTreeSet AtomId → Result PatchFragment
  fragment_for_range change aligned start end atoms =
      let lines = length (split_lines change.new_content) in
      reject_if (ltb lines start || ltb lines end || leb end start)
        (invalid (text "atom range is outside changed file content"))
      >> ok (cut_fragment change aligned start end atoms)

  -- The body of the loop over the changes. Where no atom is on the path, there is no group.
  unfoldable pub patches_of : List ChangeAtom → FileChange → Result (List PatchFragment)
  patches_of atoms change =
      let aligned = align_lines change.old_content change.new_content in
      let here = filter (λ atom. atom.path == change.path) atoms in
      try_map (λ group. fragment_for_range change aligned group.0 group.1 group.2)
        (group_ranges (sort_by range_less (map range_of here)))

  abbrev pub covers : List ChangeAtom → List PatchFragment → Bool
  covers atoms patches =
      set_eq (collect (flat_map (λ p. p.atoms) patches)) (collect (map (λ a. a.id) atoms))

  -- What the loop has made of the patches, or its error, for the request that is changed.
  abbrev pub bind_made :
      StackPullRequest → Result (List PatchFragment) → Result (Unit {0}) × StackPullRequest
  bind_made request (err failure) = (err failure, request)
  bind_made request (ok patches) =
      let bound = record request { patches = patches } in
      if covers request.atoms patches then (validate_pull_request bound, bound) else (
        err (
            invalid (
              text
                "every stack pull request atom must have a matching changed file for projection")),
        request,
      )

  unfoldable pub bind_patches :
      StackPullRequest → List FileChange → Result (Unit {0}) × StackPullRequest
  bind_patches request changes =
      bind_made request
        (try_map (patches_of request.atoms) changes >>= (λ lists. ok (flat_map (λ l. l) lists)))
