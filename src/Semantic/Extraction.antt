-- ===== src/Semantic/Extraction.antt =====
-- crates/orkia-semantic/src/lib.rs: the atoms of a changed file. The parsers of tree-sitter, SHA-256,
-- hexadecimal digits and `char::is_alphanumeric` are parameters. A row fits 32 bits before it is shifted.
use boop_orkia_cli.Prelude.{
  ℕ, ◌+◌, ◌-◌, ◌%◌, ◌^◌, leb, nat_eq, Bool, true, false, ◌&&◌, ◌||◌, Option, none, some, List, [],
  ◌∷◌, ◌++◌, map, any, filter, head?, take, drop, is_empty, if◌then◌else◌, sort_by, nat_ord,
  list_ord, pair_ord, ◌<?◌,
}
use boop_orkia_cli.Prelude.Sets.{BTreeSet}
use boop_orkia_cli.Prelude.Maps.{BTreeMap, lookup, put}
use boop_orkia_cli.Prelude.Text.{Text, text, utf8}
use boop_orkia_cli.Model.Ids.{AtomId, Bytes, EventId, to_be_bytes, from_stable_parts}
use boop_orkia_cli.Model.Atoms.{AtomKind, ChangeAtom, stable_tag}
use boop_orkia_cli.Projection.Patches.{split_lines}
use boop_orkia_cli.Semantic.Languages.{
  Language, from_path, is_review_boundary, is_block_boundary, holds_part, path_atom_kind,
  symbol_name,
}

pub record ChangedFile : Type 0 where
  pub path : Text
  pub content : Text
  pub changed_start : ℕ
  pub changed_end : ℕ
  pub source_events : BTreeSet EventId

-- A node of a syntax tree: what `kind`, `range` and `utf8_text` give.
pub record SyntaxNode : Type 0 where
  pub kind : Text
  pub start_row : ℕ
  pub end_row : ℕ
  pub source : Text

mutual
  pub data SyntaxTree : Type 0 where
    tree : (is_named : Bool) → SyntaxNode → Siblings → SyntaxTree

  pub data Siblings : Type 0 where
    last_sibling : Siblings
    sibling : SyntaxTree → Siblings → Siblings

-- `collect_named`: each named node in front of its children, these in front of its next sibling
unfoldable mutual
  pub collect_named : SyntaxTree → List SyntaxNode
  collect_named (tree true node children) = node ∷ collect_siblings children
  collect_named (tree false node children) = collect_siblings children

  pub collect_siblings : Siblings → List SyntaxNode
  collect_siblings last_sibling = []
  collect_siblings (sibling t siblings) = collect_named t ++ collect_siblings siblings

-- A line without its ending, `\n` or `\r\n`.
unfoldable pub strip_line : Text → Text
strip_line [] = []
strip_line (x ∷ []) = if nat_eq x 10 then [] else x ∷ []
strip_line (x ∷ y ∷ []) = if nat_eq y 10 then (if nat_eq x 13 then [] else x ∷ []) else x ∷ y ∷ []
strip_line (x ∷ y ∷ z ∷ t) = x ∷ strip_line (y ∷ z ∷ t)

-- `lines()`
abbrev pub lines : Text → List Text
lines t = map strip_line (split_lines t)

-- `join("\n")`
abbrev pub join_newline : List Text → Text
join_newline [] = []
join_newline (line ∷ []) = line
join_newline (line ∷ next ∷ rest) = line ++ 10 ∷ join_newline (next ∷ rest)

-- The lines from `start_line` to `end_line`, joined.
unfoldable pub source_between : Text → ℕ → ℕ → Text
source_between content start_line end_line =
    join_newline
      (take ((end_line - start_line + 1) % 2 ^ 32) (drop (start_line - 1) (lines content)))

abbrev pub unwrap_symbol : Option Text → Text
unwrap_symbol none = []
unwrap_symbol (some symbol) = symbol

abbrev pub row_line : ℕ → ℕ
row_line row = (row + 1) % 2 ^ 32

-- The lines of a node overlap one of the changed ranges.
unfoldable pub overlaps : List (ℕ × ℕ) → SyntaxNode → Bool
overlaps ranges node =
    any (λ range. leb range.0 (row_line node.end_row) && leb (row_line node.start_row) range.1)
      ranges

unfoldable pub node_kind : Text → AtomKind
node_kind kind =
    if holds_part (text "import") kind || holds_part (text "use_") kind
    then AtomKind.import
    else if holds_part (text "test") kind
    then AtomKind.test
    else AtomKind.symbol

-- `(start_line, path, content_hash)`, in this order
abbrev pub atom_less : ChangeAtom → ChangeAtom → Bool
atom_less a b =
    ◌<?◌ {A = (ℕ × Text) × Text} ((a.start_line, a.path), a.content_hash)
      ((b.start_line, b.path), b.content_hash)

-- How many atoms have been seen under each path, tag and symbol.
abbrev pub Occurrences : Type 0
Occurrences = BTreeMap ((Text × Text) × Text) ℕ

abbrev pub counted : Option ℕ → ℕ
counted none = 0
counted (some n) = n

module _ (sha256 : Bytes → Bytes) (hex : Bytes → Text) where
  unfoldable pub atom : ChangedFile → AtomKind → Option Text → ℕ → ℕ → Text → ChangeAtom
  atom file kind name start_line end_line content =
      let symbol = unwrap_symbol name in
      record {
        id = from_stable_parts sha256 (
            text "orkia:atom:v2"
            ∷ utf8 file.path
            ∷ text (stable_tag kind)
            ∷ utf8 symbol
            ∷ to_be_bytes 4 start_line
            ∷ to_be_bytes 4 end_line
            ∷ []);
        kind = kind;
        path = file.path;
        symbol = if is_empty symbol then none else some symbol;
        start_line = start_line;
        end_line = end_line;
        content_hash = hex (sha256 (utf8 content));
        source_events = file.source_events;
      }

  unfoldable pub hunk_atom_kind : ChangedFile → AtomKind → ChangeAtom
  hunk_atom_kind file kind =
      atom file kind none file.changed_start file.changed_end
        (source_between file.content file.changed_start file.changed_end)

  -- The identity of the atom of a symbol, by how many of the same path, tag and symbol come before it.
  unfoldable pub stable_id : ChangeAtom → Text → ℕ → AtomId
  stable_id a symbol ordinal = from_stable_parts sha256 (
      text "orkia:atom:v3"
      ∷ utf8 a.path
      ∷ text (stable_tag a.kind)
      ∷ utf8 symbol
      ∷ to_be_bytes 8 ordinal
      ∷ [])

  abbrev pub symbol_key : ChangeAtom → Text → (Text × Text) × Text
  symbol_key a symbol = ((a.path, text (stable_tag a.kind)), symbol)

  -- One round of `stabilize_symbol_atom_ids`, with what `symbol` of the atom is.
  abbrev pub stabilize_one : Occurrences → ChangeAtom → Option Text → ChangeAtom × Occurrences
  stabilize_one occurrences a none = (a, occurrences)
  stabilize_one occurrences a (some symbol) =
      let ordinal = counted (lookup (symbol_key a symbol) occurrences) in
      (
        record a { id = stable_id a symbol ordinal },
        put (symbol_key a symbol) ((ordinal + 1) % 2 ^ 64) occurrences,
      )

  unfoldable pub stabilize_from : Occurrences → List ChangeAtom → List ChangeAtom
  stabilize_from occurrences [] = []
  stabilize_from occurrences (a ∷ atoms) =
      let (stable, next) = stabilize_one occurrences a a.symbol in
      stable ∷ stabilize_from next atoms

  unfoldable pub stabilize_symbol_atom_ids : List ChangeAtom → List ChangeAtom
  stabilize_symbol_atom_ids atoms = stabilize_from [] atoms

  module _ (is_alphanumeric : ℕ → Bool) (parse : Language → Text → Option SyntaxTree) where
    unfoldable pub node_atom : ChangedFile → AtomKind → SyntaxNode → ChangeAtom
    node_atom file kind node =
        atom file kind (some (symbol_name is_alphanumeric node.source node.kind))
          (row_line node.start_row) (row_line node.end_row) node.source

    -- Where no review boundary changed, the first changed block or the changed lines are the atom.
    abbrev pub or_block : ChangedFile → Option SyntaxNode → List ChangeAtom → List ChangeAtom
    or_block file none [] = hunk_atom_kind file AtomKind.hunk ∷ []
    or_block file (some node) [] = node_atom file AtomKind.block node ∷ []
    or_block file block_node (a ∷ atoms) = a ∷ atoms

    unfoldable pub atoms_of_nodes : ChangedFile → List (ℕ × ℕ) → List SyntaxNode → List ChangeAtom
    atoms_of_nodes file ranges nodes =
        let block_node =
          head? (filter (λ node. is_block_boundary node.kind && overlaps ranges node) nodes) in
        let changed = filter (λ node. overlaps ranges node && is_review_boundary node.kind) nodes in
        stabilize_symbol_atom_ids (
          sort_by atom_less (
            or_block file block_node
              (map (λ node. node_atom file (node_kind node.kind) node) changed)))

    abbrev pub atoms_of_tree : ChangedFile → List (ℕ × ℕ) → Option SyntaxTree → List ChangeAtom
    atoms_of_tree file ranges none = hunk_atom_kind file AtomKind.hunk ∷ []
    atoms_of_tree file ranges (some parsed) = atoms_of_nodes file ranges (collect_named parsed)

    abbrev pub atoms_of_path : ChangedFile → List (ℕ × ℕ) → Option AtomKind → List ChangeAtom
    atoms_of_path file ranges (some kind) = hunk_atom_kind file kind ∷ []
    atoms_of_path file ranges none =
        atoms_of_tree file ranges (parse (from_path file.path) file.content)

    unfoldable pub extract_atoms_in_ranges : ChangedFile → List (ℕ × ℕ) → List ChangeAtom
    extract_atoms_in_ranges file ranges = atoms_of_path file ranges (path_atom_kind file.path)

    unfoldable pub extract_atoms : ChangedFile → List ChangeAtom
    extract_atoms file = extract_atoms_in_ranges file ((file.changed_start, file.changed_end) ∷ [])
