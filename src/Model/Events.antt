-- ===== src/Model/Events.antt =====
-- crates/orkia-model/src/lib.rs: the events of a ledger.
use boop_orkia_cli.Prelude.{ℕ, Bool, Option}
use boop_orkia_cli.Prelude.Integers.{ℤ}
use boop_orkia_cli.Prelude.Sets.{BTreeSet}
use boop_orkia_cli.Prelude.Text.{Text, text}
use boop_orkia_cli.Model.Ids.{
  ActorId, SessionId, EventId, PlanId, RepositoryId, StackPullRequestId, ChangeSetId, ProjectionId,
}
use boop_orkia_cli.Model.Json.{Json}
use boop_orkia_cli.Model.Objects.{Hash, SemanticObjectRef}

-- `OffsetDateTime`: an instant, in nanoseconds since the epoch, and the seconds of its offset.
pub record Timestamp : Type 0 where
  pub nanoseconds : ℤ
  pub offset_seconds : ℤ

pub data CaptureOrigin : Type 0 where
  human codex claude gemini kimi open_code cursor droid qwen unknown : CaptureOrigin

pub data AgentActionKind : Type 0 where
  prompted : (content : Text) → AgentActionKind
  tool :
      (name : Text) (id : Option Text) (arguments : Json) (result : Option Json)
      (duration_millis : Option ℕ)
      → AgentActionKind
  file_read : (path : Text) (content_hash : Option Hash) → AgentActionKind
  file_write :
      (path : Text) (before_hash after_hash : Option Hash) (added_lines removed_lines : Option ℕ)
      → AgentActionKind
  ran :
      (program : Text) (exit_code : Option ℤ) (stdout stderr : Option Text)
      (duration_millis : Option ℕ)
      → AgentActionKind
  turn :
      (model : Option Text)
      (input_tokens output_tokens cache_read_tokens cache_write_tokens cost_micros : Option ℕ)
      (spoken thinking : Option Text)
      → AgentActionKind

pub data AgentSnapshotPhase : Type 0 where
  started at_checkpoint stopped : AgentSnapshotPhase

pub data CaptureEvent : Type 0 where
  session_started :
      (session : SessionId) (origin : CaptureOrigin) (base_commit objective : Text) → CaptureEvent
  prompt transcript : (provider content : Text) → CaptureEvent
  tool_call : (name : Text) (arguments result : Json) → CaptureEvent
  agent_hook :
      (agent : Text) (external_session : Option Text) (hook_event : Text) (cwd : Option Text)
      (payload : Json)
      → CaptureEvent
  agent_transcript : (agent path encoding content : Text) → CaptureEvent
  agent_session_linked : (agent external_session : Text) (session : SessionId) → CaptureEvent
  agent_session_snapshot :
      (agent external_session : Text) (session : SessionId) (phase : AgentSnapshotPhase)
      (head_commit : Text) (changed_paths observed_paths : BTreeSet Text) (unknown_write : Bool)
      → CaptureEvent
  agent_action :
      (agent : Text) (external_session : Option Text) (session : Option SessionId)
      (action : AgentActionKind)
      → CaptureEvent
  forge_webhook : (forge event_name delivery_id : Text) (payload : Json) → CaptureEvent
  files_observed : (read modified : BTreeSet Text) (unknown_write : Bool) → CaptureEvent
  command : (program : Text) (exit_code : Option ℤ) (stdout stderr : Text) → CaptureEvent
  validation : (program : Text) (passed : Bool) (output : Text) → CaptureEvent
  checkpoint : (commit : Text) → CaptureEvent
  review_plan_created : (plan : PlanId) (at : Text) (atom_count coverage_milli : ℕ) → CaptureEvent
  review_plan_revised : (plan : PlanId) (revision : ℕ) (reason : Text) → CaptureEvent
  review_plan_approved : (plan : PlanId) (revision : ℕ) → CaptureEvent
  review_plan_changes_requested : (plan : PlanId) (revision : ℕ) (reason : Text) → CaptureEvent
  stack_pull_request_published :
      (pull_request : StackPullRequestId) (revision : ℕ) (signed : SemanticObjectRef) → CaptureEvent
  changeset_published :
      (changeset : ChangeSetId) (revision : ℕ) (signed : SemanticObjectRef) → CaptureEvent
  changeset_integrated : (changeset : ChangeSetId) (revision : ℕ) → CaptureEvent
  projection_updated :
      (projection : ProjectionId) (pull_request : StackPullRequestId) (revision : ℕ)
      (commit : Option Text)
      → CaptureEvent
  integration_evaluated :
      (plan : Option PlanId) (changeset : Option ChangeSetId) (branch : Text) (approvals : ℕ)
      (passed : Bool) (reason : Text)
      → CaptureEvent
  session_closed : (session : SessionId) → CaptureEvent

pub record UnsignedEvent : Type 0 where
  pub id : EventId
  pub repository : RepositoryId
  pub actor : ActorId
  pub occurred_at : Timestamp
  pub previous_hash : Option Hash
  pub event : CaptureEvent

pub record LedgerEvent : Type 0 where
  pub unsigned : UnsignedEvent
  pub hash : Hash
  pub signature : Text

unfoldable pub event_kind : CaptureEvent → Text
event_kind (session_started session origin base_commit objective) = text "session_started"
event_kind (prompt provider content) = text "prompt"
event_kind (transcript provider content) = text "transcript"
event_kind (agent_action agent external_session session action) = text "agent_action"
event_kind (forge_webhook forge event_name delivery_id payload) = text "forge_webhook"
event_kind (tool_call name arguments result) = text "tool_call"
event_kind (agent_hook agent external_session hook_event cwd payload) = text "agent_hook"
event_kind (agent_transcript agent path encoding content) = text "agent_transcript"
event_kind (agent_session_linked agent external_session session) = text "agent_session_linked"
event_kind (agent_session_snapshot agent e session phase h changed observed unknown_write) =
    text "agent_session_snapshot"
event_kind (files_observed read modified unknown_write) = text "files_observed"
event_kind (command program exit_code stdout stderr) = text "command"
event_kind (validation program passed output) = text "validation"
event_kind (checkpoint commit) = text "checkpoint"
event_kind (review_plan_created plan commit atom_count coverage_milli) = text "review_plan_created"
event_kind (review_plan_revised plan revision reason) = text "review_plan_revised"
event_kind (review_plan_approved plan revision) = text "review_plan_approved"
event_kind (review_plan_changes_requested plan revision reason) =
    text "review_plan_changes_requested"
event_kind (stack_pull_request_published request revision signed) =
    text "stack_pull_request_published"
event_kind (changeset_published changeset revision signed) = text "changeset_published"
event_kind (changeset_integrated changeset revision) = text "changeset_integrated"
event_kind (projection_updated projection request revision commit) = text "projection_updated"
event_kind (integration_evaluated plan changeset branch approvals passed reason) =
    text "integration_evaluated"
event_kind (session_closed session) = text "session_closed"
