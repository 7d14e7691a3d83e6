-- ===== src/Model/Access.antt =====
-- crates/orkia-model/src/lib.rs: grants and their revocation, organizations and teams. Parsing a
-- time stamp is the `time` crate's: a parameter that gives the error of a text that is no RFC 3339
-- time, if any.
use boop_orkia_cli.Prelude.{
  ℕ, Bool, true, false, not, ◌&&◌, ◌||◌, Option, none, some, is_empty, any, ◌++◌,
}
use boop_orkia_cli.Prelude.Sets.{BTreeSet}
use boop_orkia_cli.Prelude.Text.{Text, text, is_blank}
use boop_orkia_cli.Errors.{Result, err, invalid, reject_if, for_each, if_some, ◌>>◌}
use boop_orkia_cli.Model.Ids.{ActorId}
use boop_orkia_cli.Model.Objects.{
  SemanticObjectRef, SemanticObjectKind, kind_eq, validate_schema_version, validate_object_ref,
}
use boop_orkia_cli.Model.Secrets.{valid_vault_name}

pub data GrantRole : Type 0 where
  administrator shared_view_maintainer reviewer : GrantRole

pub record AccessGrant : Type 0 where
  pub schema_version : ℕ
  pub issuer : ActorId
  pub actor : Option ActorId
  pub role : GrantRole
  pub repositories : BTreeSet Text
  pub teams : BTreeSet SemanticObjectRef
  pub expires_at : Option Text

pub record GrantRevocation : Type 0 where
  pub schema_version : ℕ
  pub grant : SemanticObjectRef
  pub issuer : ActorId
  pub reason : Text

-- `GrantRevocation::validate`
unfoldable pub validate_revocation : GrantRevocation → Result (Unit {0})
validate_revocation revocation = do
  validate_schema_version revocation.schema_version
  reject_if
      (not (kind_eq (revocation.grant).kind SemanticObjectKind.grant) || is_blank revocation.reason)
      (invalid (text "revocation needs a grant and a reason"))
  validate_object_ref revocation.grant "revoked grant"

abbrev pub is_none {ℓ} : {A : Type ℓ} → Option A → Bool
is_none none = true
is_none (some a) = false

module _ (rfc3339_error : Text → Option Text) where
  -- `AccessGrant::validate`
  unfoldable pub validate_grant : AccessGrant → Result (Unit {0})
  validate_grant grant = do
    validate_schema_version grant.schema_version
    reject_if (any is_empty grant.repositories)
        (invalid (text "grant repository names cannot be empty"))
    if_some grant.expires_at (λ expires_at.
        if_some (rfc3339_error expires_at)
          (λ error. err (invalid (text "grant expiration must be RFC 3339: " ++ error))))
    for_each
        (λ team. do
          reject_if (not (kind_eq team.kind SemanticObjectKind.team))
              (invalid (text "grant teams must reference team objects"))
          validate_object_ref team "grant team")
        grant.teams
    reject_if (is_none grant.actor && is_empty grant.teams)
        (invalid (text "grant must target an actor, a team, or both"))

pub record Organization : Type 0 where
  pub schema_version : ℕ
  pub slug : Text
  pub issuer : ActorId

-- `Organization::validate`
unfoldable pub validate_organization : Organization → Result (Unit {0})
validate_organization organization = do
  validate_schema_version organization.schema_version
  reject_if (not (valid_vault_name organization.slug))
      (invalid (text "organization slug must contain only ASCII letters, digits, '.', '_' or '-'"))

pub record Team : Type 0 where
  pub schema_version : ℕ
  pub organization : SemanticObjectRef
  pub name : Text
  pub issuer : ActorId
  pub members : BTreeSet ActorId

-- `Team::validate`
unfoldable pub validate_team : Team → Result (Unit {0})
validate_team team = do
  validate_schema_version team.schema_version
  reject_if (not (kind_eq (team.organization).kind SemanticObjectKind.organization))
      (invalid (text "team organization must reference an organization object"))
  validate_object_ref team.organization "team organization"
  reject_if (not (valid_vault_name team.name) || is_empty team.members)
      (invalid (text "team name must be safe and team membership cannot be empty"))
