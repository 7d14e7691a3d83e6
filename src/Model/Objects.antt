-- ===== src/Model/Objects.antt =====
-- crates/orkia-model/src/lib.rs: the kinds of signed objects, references to them, and the checks that
-- every document shares.
use boop_orkia_cli.Prelude.{
  ℕ, zero, suc, ◌≡◌, refl, sym, ◌∙◌, Bool, true, not, List, [], ◌∷◌, ◌++◌, arith, is_empty, nat_eq,
  nat_eq_iff, not-false, false-not, false, ◌↔◌, Ord, by_key, ap, nat_ord, list_ord, pair_ord,
  String,
}
use boop_orkia_cli.Prelude.Text.{Text, text, decimal}
use boop_orkia_cli.Errors.{
  Result, ok, invalid, reject_if, reject_if-eq-ok, reject_if-ok, reject_if_iff,
}

abbrev pub Hash : Type 0
Hash = Text

abbrev pub semantic_schema_version : ℕ
semantic_schema_version = 1

pub data SemanticObjectKind : Type 0 where
  operation state view plan resolution attestation signature vault grant : SemanticObjectKind
  organization team intent memory key_rotation grant_revocation : SemanticObjectKind
  stack_pull_request change_set stack projection : SemanticObjectKind

unfoldable pub ref_segment : SemanticObjectKind → String
ref_segment operation = "operation"
ref_segment state = "state"
ref_segment view = "view"
ref_segment plan = "plan"
ref_segment resolution = "resolution"
ref_segment attestation = "attestation"
ref_segment signature = "signature"
ref_segment vault = "vault"
ref_segment grant = "grant"
ref_segment organization = "organization"
ref_segment team = "team"
ref_segment intent = "intent"
ref_segment memory = "memory"
ref_segment key_rotation = "key_rotation"
ref_segment grant_revocation = "grant_revocation"
ref_segment stack_pull_request = "stack-pr"
ref_segment change_set = "changeset"
ref_segment stack = "stack"
ref_segment projection = "projection"

-- A derived order follows the order of the constructors.
abbrev pub kind_rank : SemanticObjectKind → ℕ
kind_rank operation = 0
kind_rank state = 1
kind_rank view = 2
kind_rank plan = 3
kind_rank resolution = 4
kind_rank attestation = 5
kind_rank signature = 6
kind_rank vault = 7
kind_rank grant = 8
kind_rank organization = 9
kind_rank team = 10
kind_rank intent = 11
kind_rank memory = 12
kind_rank key_rotation = 13
kind_rank grant_revocation = 14
kind_rank stack_pull_request = 15
kind_rank change_set = 16
kind_rank stack = 17
kind_rank projection = 18

abbrev kinds : List SemanticObjectKind
kinds =
    operation ∷ state ∷ view ∷ plan ∷ resolution ∷ attestation ∷ signature ∷ vault ∷ grant
    ∷ organization ∷ team ∷ intent ∷ memory ∷ key_rotation ∷ grant_revocation ∷ stack_pull_request
    ∷ change_set ∷ stack ∷ projection ∷ []

abbrev kind_at : List SemanticObjectKind → ℕ → SemanticObjectKind
kind_at [] n = operation
kind_at (k ∷ ks) zero = k
kind_at (k ∷ ks) (suc n) = kind_at ks n

kind_at-kind_rank : (k : SemanticObjectKind) → kind_at kinds (kind_rank k) ≡ k
kind_at-kind_rank operation = refl
kind_at-kind_rank state = refl
kind_at-kind_rank view = refl
kind_at-kind_rank plan = refl
kind_at-kind_rank resolution = refl
kind_at-kind_rank attestation = refl
kind_at-kind_rank signature = refl
kind_at-kind_rank vault = refl
kind_at-kind_rank grant = refl
kind_at-kind_rank organization = refl
kind_at-kind_rank team = refl
kind_at-kind_rank intent = refl
kind_at-kind_rank memory = refl
kind_at-kind_rank key_rotation = refl
kind_at-kind_rank grant_revocation = refl
kind_at-kind_rank stack_pull_request = refl
kind_at-kind_rank change_set = refl
kind_at-kind_rank stack = refl
kind_at-kind_rank projection = refl

pub kind_rank_injective : (j k : SemanticObjectKind) → kind_rank j ≡ kind_rank k → j ≡ k
kind_rank_injective j k e = sym (kind_at-kind_rank j) ∙ ap (kind_at kinds) e ∙ kind_at-kind_rank k

abbrev pub kind_eq : SemanticObjectKind → SemanticObjectKind → Bool
kind_eq j k = nat_eq (kind_rank j) (kind_rank k)

pub kind_eq→≡ : (j k : SemanticObjectKind) → kind_eq j k ≡ true → j ≡ k
kind_eq→≡ j k h = kind_rank_injective j k (ground arith)

pub record SemanticObjectRef : Type 0 where
  pub kind : SemanticObjectKind
  pub hash : Hash

abbrev pub object_ref_key : SemanticObjectRef → ℕ × Text
object_ref_key r = (kind_rank r.kind, r.hash)

pub object_ref_key_injective :
    (a b : SemanticObjectRef) → object_ref_key a ≡ object_ref_key b → a ≡ b
object_ref_key_injective a b e =
    let same_kind = kind_rank_injective a.kind b.kind (ap (λ (t : ℕ × Text). t.0) e) in
    let same_hash = ap (λ (t : ℕ × Text). t.1) e in
    λ i. record { kind = same_kind i; hash = same_hash i }

instance abbrev pub object_ref_ord : Ord SemanticObjectRef
object_ref_ord = by_key object_ref_key object_ref_key_injective pair_ord

-- `validate_schema_version`
unfoldable pub validate_schema_version : ℕ → Result (Unit {0})
validate_schema_version version = reject_if (not (nat_eq version semantic_schema_version)) (
    invalid (
      text "unsupported semantic schema version "
      ++ (decimal version ++ (text "; expected " ++ decimal semantic_schema_version))))

-- `validate_hash`
unfoldable pub validate_hash : Hash → String → Result (Unit {0})
validate_hash hash field =
    reject_if (is_empty hash) (invalid (text field ++ text " cannot be empty"))

-- `validate_object_ref`
unfoldable pub validate_object_ref : SemanticObjectRef → String → Result (Unit {0})
validate_object_ref object field = validate_hash object.hash field

abbrev pub SemanticNodeId : Type 0
SemanticNodeId = Text

-- `SemanticNodeId::validate`
unfoldable pub validate_node_id : SemanticNodeId → String → Result (Unit {0})
validate_node_id id field =
    reject_if (is_empty id) (invalid (text field ++ text " cannot be empty"))

pub validate_schema_version_iff :
    (version : ℕ) → (validate_schema_version version ≡ ok tt) ↔ (version ≡ 1)
unfolding validate_schema_version
validate_schema_version_iff version = (
  λ h. (nat_eq_iff version 1).0 (not-false _ (reject_if-eq-ok _ _ h)),
  λ e. reject_if-ok _ _ (false-not _ ((nat_eq_iff version 1).1 e)),
)

pub validate_hash_iff :
    (hash : Hash) (field : String) → (validate_hash hash field ≡ ok tt) ↔ (is_empty hash ≡ false)
unfolding validate_hash
validate_hash_iff hash field = reject_if_iff _ _

pub validate_object_ref_iff :
    (object : SemanticObjectRef) (field : String)
    → (validate_object_ref object field ≡ ok tt) ↔ (is_empty object.hash ≡ false)
unfolding validate_object_ref
validate_object_ref_iff object field = validate_hash_iff object.hash field

pub validate_node_id_iff :
    (id : SemanticNodeId) (field : String)
    → (validate_node_id id field ≡ ok tt) ↔ (is_empty id ≡ false)
unfolding validate_node_id
validate_node_id_iff id field = reject_if_iff _ _
