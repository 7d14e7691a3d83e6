-- ===== src/Model/Policies.antt =====
-- crates/orkia-model/src/lib.rs: the versioned policy of a repository.
use boop_orkia_cli.Prelude.{ℕ, List, [], ◌∷◌}
use boop_orkia_cli.Prelude.Sets.{BTreeSet}
use boop_orkia_cli.Prelude.Text.{Text, text}
use boop_orkia_cli.Model.Ids.{ActorId}
use boop_orkia_cli.Model.Objects.{Hash}

pub record RepositoryPolicy : Type 0 where
  pub protected_branches : BTreeSet Text
  pub validation_commands : List Text
  pub minimum_coverage_milli : ℕ
  pub minimum_confidence_milli : ℕ
  pub required_approvals : ℕ
  pub required_checks : BTreeSet Text
  pub minimum_semantic_signatures : ℕ
  pub authorized_grant_issuers : BTreeSet ActorId
  pub revoked_grants : BTreeSet Hash

-- `RepositoryPolicy::default`
unfoldable pub default_policy : RepositoryPolicy
default_policy = record {
  protected_branches = text "main" ∷ [];
  validation_commands = [];
  minimum_coverage_milli = 950;
  minimum_confidence_milli = 800;
  required_approvals = 1;
  required_checks = text "orkia/integrate" ∷ [];
  minimum_semantic_signatures = 1;
  authorized_grant_issuers = [];
  revoked_grants = [];
}
