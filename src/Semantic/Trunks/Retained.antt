-- ===== src/Semantic/Trunks/Retained.antt =====
-- crates/orkia-semantic/src/lib.rs: what a new Trunk keeps of the one before.
use boop_orkia_cli.Prelude.{
  ℕ, ◌+◌, ◌%◌, ◌^◌, ◌≡◌, ◌⊎◌, Bool, pair_ord, if◌then◌else◌, AllOf, SomeOf, true, false, ◌||◌, List,
  [], ◌∷◌, Option, map, nat_ord, list_ord, ◌==◌,
}
use boop_orkia_cli.Prelude.Sets.{contains}
use boop_orkia_cli.Prelude.Text.{Text, text}
use boop_orkia_cli.Model.Atoms.{ChangeAtom, stable_tag}
use boop_orkia_cli.Model.Ids.{Bytes}
use boop_orkia_cli.Model.Objects.{SemanticNodeId}
use boop_orkia_cli.Model.Nodes.{TrunkState, SemanticNodeState, SemanticBranch, SemanticTrunk}
use boop_orkia_cli.Semantic.Languages.{Language}
use boop_orkia_cli.Semantic.Extraction.{unwrap_symbol, ChangedFile, SyntaxTree, extract_atoms}
use boop_orkia_cli.Semantic.Trunks.{branch_id}
use boop_orkia_cli.Semantic.Trunks.Deleted.{IsTombstone}

abbrev holds_id : SemanticNodeId → List SemanticBranch → Bool
holds_id id branches = contains id (map (λ b. b.id) branches)

module _ (sha256 : Bytes → Bytes) (hex : Bytes → Text) where
  -- How many atoms of a tag and a symbol are among some atoms, in 64 bits.
  abbrev pub number_of : Text × Text → List ChangeAtom → ℕ
  number_of k [] = 0
  number_of k (a ∷ seen) =
      if k == (text (stable_tag a.kind), unwrap_symbol a.symbol)
      then (number_of k seen + 1) % 2 ^ 64
      else number_of k seen

  -- The identity of an atom's branch: of the Trunk, the atom's tag and symbol, and how many atoms of both
  -- are in front of it.
  abbrev pub extracted_id : SemanticNodeId → List ChangeAtom → ChangeAtom → SemanticNodeId
  extracted_id id seen a =
      branch_id sha256 hex id a (number_of (text (stable_tag a.kind), unwrap_symbol a.symbol) seen)

  abbrev pub extracted_ids :
      SemanticNodeId → List ChangeAtom → List ChangeAtom → List SemanticNodeId
  extracted_ids id seen [] = []
  extracted_ids id seen (a ∷ atoms) = extracted_id id seen a ∷ extracted_ids id (a ∷ seen) atoms

  module _ (ids : List SemanticNodeId) (previous : List SemanticBranch) where
    -- A branch of a new Trunk is alive where its identity is an extracted one, and otherwise the tombstone
    -- of a branch of the Trunk before.
    abbrev pub IsKept : SemanticBranch → Type 0
    IsKept b =
        ((contains b.id ids ≡ true) × (b.state ≡ SemanticNodeState.alive))
        ⊎ ((contains b.id ids ≡ false) × SomeOf (λ old. IsTombstone old b) previous)

  module _ (is_alphanumeric : ℕ → Bool) (parse : Language → Text → Option SyntaxTree) where
    -- What a new Trunk of a file is to the one before.
    pub record IsSuccessor (file : ChangedFile) (previous new : SemanticTrunk) : Type 0 where
      pub same : new.id ≡ previous.id
      pub awake : new.state ≡ TrunkState.alive
      pub paths :
          (path : Text)
          → contains path new.paths ≡ (path == file.path || contains path previous.paths)
      pub kept :
          (id : SemanticNodeId)
          → contains id (map (λ b. b.id) previous.branches) ≡ true
          → contains id (map (λ b. b.id) new.branches) ≡ true
      pub extracted :
          (id : SemanticNodeId)
          → contains id
              (extracted_ids previous.id [] (extract_atoms sha256 hex is_alphanumeric parse file))
            ≡ true
          → contains id (map (λ b. b.id) new.branches) ≡ true
      pub states :
          AllOf
            (IsKept
              (extracted_ids previous.id [] (extract_atoms sha256 hex is_alphanumeric parse file))
              previous.branches)
            new.branches
