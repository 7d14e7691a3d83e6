-- ===== src/Model/Knowledge.antt =====
-- crates/orkia-model/src/lib.rs: intents, memories and key rotations.
use boop_orkia_cli.Prelude.{ℕ, ◌||◌, Option, is_empty, ◌==◌, nat_ord, list_ord}
use boop_orkia_cli.Prelude.Sets.{BTreeSet}
use boop_orkia_cli.Prelude.Text.{Text, text, is_blank}
use boop_orkia_cli.Errors.{Result, invalid, reject_if, for_each, ◌>>◌}
use boop_orkia_cli.Model.Ids.{ActorId, SessionId}
use boop_orkia_cli.Model.Objects.{SemanticObjectRef, validate_schema_version, validate_object_ref}

pub record Intent : Type 0 where
  pub schema_version : ℕ
  pub title : Text
  pub body : Text
  pub session : Option SessionId
  pub evidence : BTreeSet SemanticObjectRef

-- `Intent::validate`
unfoldable pub validate_intent : Intent → Result (Unit {0})
validate_intent intent = do
  validate_schema_version intent.schema_version
  reject_if (is_blank intent.title || is_blank intent.body)
      (invalid (text "intent title and body cannot be empty"))
  for_each (λ evidence. validate_object_ref evidence "intent evidence") intent.evidence

pub record Memory : Type 0 where
  pub schema_version : ℕ
  pub topic : Text
  pub content : Text
  pub evidence : BTreeSet SemanticObjectRef

-- `Memory::validate`
unfoldable pub validate_memory : Memory → Result (Unit {0})
validate_memory memory = do
  validate_schema_version memory.schema_version
  reject_if (is_blank memory.topic || is_blank memory.content)
      (invalid (text "memory topic and content cannot be empty"))
  for_each (λ evidence. validate_object_ref evidence "memory evidence") memory.evidence

pub record KeyRotation : Type 0 where
  pub schema_version : ℕ
  pub actor : ActorId
  pub previous_public_key : Text
  pub next_public_key : Text

-- `KeyRotation::validate`
unfoldable pub validate_key_rotation : KeyRotation → Result (Unit {0})
validate_key_rotation rotation = do
  validate_schema_version rotation.schema_version
  reject_if
      (is_empty rotation.previous_public_key
        || is_empty rotation.next_public_key
        || rotation.previous_public_key == rotation.next_public_key)
      (invalid (text "key rotation must contain two distinct public keys"))
