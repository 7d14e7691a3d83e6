-- ===== src/Semantic/Trunks.antt =====
-- crates/orkia-semantic/src/lib.rs: the Trunk, Branch and Leaf overlay of a file. SHA-256, hexadecimal
-- digits, `char::is_alphanumeric` and the parsers are parameters.
pub mod Deleted
pub mod Retained
use boop_orkia_cli.Prelude.{
  ℕ, suc, ◌+◌, ◌%◌, ◌^◌, Bool, true, false, not, Option, none, some, List, [], ◌∷◌, ◌++◌, map,
  filter, head?, is_empty, if◌then◌else◌, sort_by, nat_ord, list_ord, pair_ord, ◌==◌, ◌<?◌,
}
use boop_orkia_cli.Prelude.Sets.{contains, insert, collect}
use boop_orkia_cli.Prelude.Maps.{BTreeMap, lookup, put}
use boop_orkia_cli.Prelude.Text.{Text, text, utf8, is_whitespace}
use boop_orkia_cli.Model.Ids.{Bytes, to_be_bytes, stable_bytes}
use boop_orkia_cli.Model.Objects.{SemanticNodeId}
use boop_orkia_cli.Model.Atoms.{ChangeAtom, stable_tag}
use boop_orkia_cli.Model.Nodes.{
  TrunkState, SemanticNodeState, SemanticLeaf, SemanticBranch, SemanticTrunk,
}
use boop_orkia_cli.Semantic.Languages.{Language, split_where}
use boop_orkia_cli.Semantic.Extraction.{
  ChangedFile, SyntaxTree, extract_atoms, source_between, unwrap_symbol, counted,
}

abbrev pub delete_leaf : SemanticLeaf → SemanticLeaf
delete_leaf leaf = record leaf { state = SemanticNodeState.deleted }

abbrev pub delete_branch : SemanticBranch → SemanticBranch
delete_branch branch = record branch {
  state = SemanticNodeState.deleted;
  leaves = map delete_leaf branch.leaves;
}

unfoldable pub delete_trunk : SemanticTrunk → Bool → SemanticTrunk
delete_trunk trunk still_required = record trunk {
  state = if still_required then TrunkState.zombie else TrunkState.deleted;
  branches = map delete_branch trunk.branches;
}

-- `source_for_atom`
unfoldable pub source_for_atom : ChangedFile → ChangeAtom → Text
source_for_atom file a = source_between file.content a.start_line a.end_line

-- `split_whitespace()`
abbrev pub split_whitespace : Text → List Text
split_whitespace t = filter (λ part. not (is_empty part)) (split_where is_whitespace [] t)

abbrev pub paths_of : Option SemanticTrunk → List Text
paths_of none = []
paths_of (some trunk) = trunk.paths

abbrev pub branches_of : Option SemanticTrunk → List SemanticBranch
branches_of none = []
branches_of (some trunk) = trunk.branches

-- The leaves of a vanished or changed branch that are not current any more.
unfoldable pub retained_leaves : List SemanticLeaf → Option SemanticBranch → List SemanticLeaf
retained_leaves current none = []
retained_leaves current (some old) =
    map delete_leaf
      (filter (λ leaf. not (contains leaf.id (collect (map (λ l. l.id) current)))) old.leaves)

-- The branches of the trunk before that are not current any more.
unfoldable pub retained_branches : List SemanticBranch → Option SemanticTrunk → List SemanticBranch
retained_branches current previous = map delete_branch (
    filter (λ branch. not (contains branch.id (collect (map (λ b. b.id) current))))
      (branches_of previous))

module _ (sha256 : Bytes → Bytes) (hex : Bytes → Text) where
  -- `SemanticNodeId::from_stable_parts`
  unfoldable pub node_id : List Bytes → SemanticNodeId
  node_id parts = hex (sha256 (stable_bytes parts))

  unfoldable pub trunk_id : Text → Text → ChangedFile → Option SemanticTrunk → SemanticNodeId
  trunk_id repository blob file none =
      node_id (text "orkia:trunk:v1" ∷ utf8 repository ∷ utf8 file.path ∷ utf8 blob ∷ [])
  trunk_id repository blob file (some previous) = previous.id

  -- The leaves of a branch, from the given index on.
  unfoldable pub leaves_from : SemanticNodeId → SemanticNodeId → ℕ → List Text → List SemanticLeaf
  leaves_from id branch_id index [] = []
  leaves_from id branch_id index (token ∷ tokens) =
      let text_hash = hex (sha256 (utf8 token)) in
      record {
        id = node_id (
            text "orkia:leaf:v1"
            ∷ utf8 id
            ∷ utf8 branch_id
            ∷ to_be_bytes 8 index
            ∷ utf8 text_hash
            ∷ []);
        state = SemanticNodeState.alive;
        text_hash = text_hash;
      }
      ∷ leaves_from id branch_id (suc index) tokens

  unfoldable pub branch_id : SemanticNodeId → ChangeAtom → ℕ → SemanticNodeId
  branch_id id a ordinal = node_id (
      text "orkia:branch:v1"
      ∷ utf8 id
      ∷ text (stable_tag a.kind)
      ∷ utf8 (unwrap_symbol a.symbol)
      ∷ to_be_bytes 8 ordinal
      ∷ [])

  unfoldable pub branch_of_atom :
      ChangedFile → SemanticNodeId → Option SemanticTrunk → ChangeAtom → ℕ → SemanticBranch
  branch_of_atom file id previous a ordinal =
      let own = branch_id id a ordinal in
      let current = leaves_from id own 0 (split_whitespace (source_for_atom file a)) in
      let old = head? (filter (λ branch. branch.id == own) (branches_of previous)) in
      record {
        id = own;
        state = SemanticNodeState.alive;
        source_hash = a.content_hash;
        leaves = current ++ retained_leaves current old;
      }

  abbrev pub atom_key : ChangeAtom → Text × Text
  atom_key a = (text (stable_tag a.kind), unwrap_symbol a.symbol)

  -- The loop over the atoms, with how many were seen under each tag and symbol.
  unfoldable pub branches_from :
      ChangedFile
      → SemanticNodeId
      → Option SemanticTrunk
      → BTreeMap (Text × Text) ℕ
      → List ChangeAtom
      → List SemanticBranch
  branches_from file id previous occurrences [] = []
  branches_from file id previous occurrences (a ∷ atoms) =
      let ordinal = counted (lookup (atom_key a) occurrences) in
      branch_of_atom file id previous a ordinal
      ∷ branches_from file id previous (put (atom_key a) ((ordinal + 1) % 2 ^ 64) occurrences) atoms

  unfoldable pub extract_trunk :
      (is_alphanumeric : ℕ → Bool) (parse : Language → Text → Option SyntaxTree)
      → Text
      → Text
      → ChangedFile
      → Option SemanticTrunk
      → SemanticTrunk
  extract_trunk is_alphanumeric parse repository blob file previous =
      let id = trunk_id repository blob file previous in
      let branches =
        branches_from file id previous [] (extract_atoms sha256 hex is_alphanumeric parse file) in
      record {
        id = id;
        state = TrunkState.alive;
        paths = insert file.path (paths_of previous);
        branches = sort_by (λ a b. a.id <? b.id) (branches ++ retained_branches branches previous);
      }
