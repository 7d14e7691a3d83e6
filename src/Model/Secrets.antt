-- ===== src/Model/Secrets.antt =====
-- crates/orkia-model/src/lib.rs: vault entries, attestations and detached signatures.
use boop_orkia_cli.Prelude.{
  ℕ, Bool, false, not, ◌&&◌, ◌||◌, Option, none, some, is_empty, all, nat_eq, ◌==◌, nat_ord,
  list_ord, ◌++◌,
}
use boop_orkia_cli.Prelude.Sets.{BTreeSet}
use boop_orkia_cli.Prelude.Text.{Text, text, is_ascii_alphanumeric}
use boop_orkia_cli.Errors.{Result, invalid, reject_if, for_each, if_some, ◌>>◌}
use boop_orkia_cli.Model.Ids.{ActorId, SessionId}
use boop_orkia_cli.Model.Objects.{
  Hash, SemanticObjectRef, validate_schema_version, validate_hash, validate_object_ref,
}

-- `valid_vault_name`
unfoldable pub valid_vault_name : Text → Bool
valid_vault_name name =
    not (is_empty name)
    && all
        (λ byte.
          is_ascii_alphanumeric byte || nat_eq byte b'.' || nat_eq byte b'_' || nat_eq byte b'-')
        name

pub record VaultEntry : Type 0 where
  pub schema_version : ℕ
  pub name : Text
  pub algorithm : Text
  pub salt : Text
  pub nonce : Text
  pub ciphertext : Text

-- `VaultEntry::validate`
unfoldable pub validate_vault_entry : VaultEntry → Result (Unit {0})
validate_vault_entry entry = do
  validate_schema_version entry.schema_version
  reject_if (not (valid_vault_name entry.name))
      (invalid (text "vault entry name must contain only ASCII letters, digits, '.', '_' or '-'"))
  reject_if (not (entry.algorithm == text "argon2id+xchacha20poly1305"))
      (invalid (text "unsupported vault encryption algorithm " ++ entry.algorithm))
  reject_if (is_empty entry.salt || is_empty entry.nonce || is_empty entry.ciphertext)
      (invalid (text "vault salt, nonce and ciphertext cannot be empty"))

pub record Attestation : Type 0 where
  pub schema_version : ℕ
  pub actor : ActorId
  pub actor_public_key : Option Text
  pub session : SessionId
  pub base_commit : Hash
  pub result_commit : Option Hash
  pub evidence : BTreeSet SemanticObjectRef
  pub signature : Text

-- `option.is_some_and(str::is_empty)`
abbrev pub is_some_empty : Option Text → Bool
is_some_empty none = false
is_some_empty (some t) = is_empty t

-- `Attestation::validate`
unfoldable pub validate_attestation : Attestation → Result (Unit {0})
validate_attestation attestation = do
  validate_schema_version attestation.schema_version
  reject_if (is_some_empty attestation.actor_public_key)
      (invalid (text "attestation actor public key cannot be empty"))
  validate_hash attestation.base_commit "attestation base commit"
  if_some attestation.result_commit (λ result. validate_hash result "attestation result commit")
  reject_if (is_empty attestation.signature)
      (invalid (text "attestation signature cannot be empty"))
  for_each (λ evidence. validate_object_ref evidence "attestation evidence") attestation.evidence

pub record Actor : Type 0 where
  pub id : ActorId
  pub display_name : Text
  pub public_key : Text

pub record SemanticSignature : Type 0 where
  pub schema_version : ℕ
  pub subject : SemanticObjectRef
  pub signer : Actor
  pub signature : Text

-- `SemanticSignature::validate`
unfoldable pub validate_signature : SemanticSignature → Result (Unit {0})
validate_signature proof = do
  validate_schema_version proof.schema_version
  validate_object_ref proof.subject "signature subject"
  reject_if (is_empty (proof.signer).public_key || is_empty proof.signature)
      (invalid (text "a semantic signature needs a public key and a signature"))
