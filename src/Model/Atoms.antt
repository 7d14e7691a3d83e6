-- ===== src/Model/Atoms.antt =====
-- crates/orkia-model/src/lib.rs: change atoms, their dependencies, and patches.
use boop_orkia_cli.Prelude.{ℕ, Bool, Option, String}
use boop_orkia_cli.Prelude.Sets.{BTreeSet}
use boop_orkia_cli.Prelude.Text.{Text}
use boop_orkia_cli.Model.Ids.{AtomId, EventId}
use boop_orkia_cli.Model.Objects.{Hash}

pub data AtomKind : Type 0 where
  symbol block hunk import test configuration migration : AtomKind

-- `AtomKind::stable_tag`
unfoldable pub stable_tag : AtomKind → String
stable_tag symbol = "symbol"
stable_tag block = "block"
stable_tag hunk = "hunk"
stable_tag import = "import"
stable_tag test = "test"
stable_tag configuration = "configuration"
stable_tag migration = "migration"

pub record ChangeAtom : Type 0 where
  pub id : AtomId
  pub kind : AtomKind
  pub path : Text
  pub symbol : Option Text
  pub start_line : ℕ
  pub end_line : ℕ
  pub content_hash : Hash
  pub source_events : BTreeSet EventId

pub record FileChange : Type 0 where
  pub path : Text
  pub old_content : Text
  pub new_content : Text
  pub changed_start : ℕ
  pub changed_end : ℕ

pub record PatchFragment : Type 0 where
  pub atoms : BTreeSet AtomId
  pub path : Text
  pub before : Text
  pub after : Text
  pub before_context : Text
  pub after_context : Text
  pub base_content_hash : Hash

pub data DependencyKind : Type 0 where
  hard causal import test configuration : DependencyKind

pub record AtomDependency : Type 0 where
  pub from : AtomId
  pub to : AtomId
  pub kind : DependencyKind
  pub confidence_milli : ℕ

pub record ValidationResult : Type 0 where
  pub command : Text
  pub passed : Bool
  pub output : Text
