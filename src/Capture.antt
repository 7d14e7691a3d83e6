-- ===== src/Capture.antt =====
-- crates/orkia-capture/src/lib.rs: transcripts, and the session that records what an agent does. The JSON
-- parser, the execution of a command and the sink of the events are parameters.
pub mod Honest
use boop_orkia_cli.Prelude.{
  ℕ, Bool, true, false, not, ◌||◌, Option, none, some, List, [], ◌∷◌, ◌++◌, filter, map,
  if◌then◌else◌, nat_ord, list_ord, ◌==◌,
}
use boop_orkia_cli.Prelude.Integers.{ℤ, pos}
use boop_orkia_cli.Prelude.Sets.{BTreeSet, extend}
use boop_orkia_cli.Prelude.Text.{Text, text, is_blank}
use boop_orkia_cli.Errors.{Result, ok, err, ◌>>=◌}
use boop_orkia_cli.Model.Ids.{SessionId, Bytes}
use boop_orkia_cli.Model.Json.{
  Json, Fields, null, boolean, number, string, array, object, end, field,
}
use boop_orkia_cli.Model.Events.{
  CaptureOrigin, CaptureEvent, tool_call, transcript, session_started, files_observed, command,
  checkpoint, session_closed,
}
use boop_orkia_cli.Semantic.Extraction.{lines}

-- `value.get(key)`
unfoldable pub field_of : Text → Fields → Option Json
field_of key end = none
field_of key (field k v fs) = let rest = field_of key fs in if key == k then some v else rest

abbrev pub get : Text → Json → Option Json
get key (object fs) = field_of key fs
get key _ = none

-- `and_then(|v| v.as_str()).unwrap_or("unknown")`
abbrev pub string_or_unknown : Option Json → Text
string_or_unknown (some (string s)) = s
string_or_unknown _ = text "unknown"

-- `cloned().unwrap_or(Value::Null)`
abbrev pub or_null : Option Json → Json
or_null none = null
or_null (some v) = v

module _ (from_str : Text → Option Json) (to_string : Json → Text) where
  -- The event of one document, with what it holds under the key of a tool.
  abbrev pub tool_or_transcript : Text → Json → Option Json → CaptureEvent
  tool_or_transcript provider value none = transcript provider (to_string value)
  tool_or_transcript provider value (some tool) =
      tool_call (string_or_unknown (some tool)) (or_null (get (text "arguments") value))
        (or_null (get (text "result") value))

  abbrev pub event_of : Text → Text → Option Json → CaptureEvent
  event_of provider line none = transcript provider line
  event_of provider line (some value) = tool_or_transcript provider value (get (text "tool") value)

  unfoldable pub parse_jsonl_provider : Text → Text → List CaptureEvent
  parse_jsonl_provider provider captured =
      map (λ line. event_of provider line (from_str line))
        (filter (λ line. not (is_blank line)) (lines captured))

  -- `CodexAdapter` and `ClaudeAdapter`
  unfoldable pub capture_codex : Text → List CaptureEvent
  capture_codex captured = parse_jsonl_provider (text "codex") captured

  unfoldable pub capture_claude : Text → List CaptureEvent
  capture_claude captured = parse_jsonl_provider (text "claude-code") captured

pub record Coverage : Type 0 where
  pub read : BTreeSet Text
  pub modified : BTreeSet Text
  pub unknown_write : Bool

unfoldable pub default_coverage : Coverage
default_coverage = record { read = []; modified = []; unknown_write = false }

-- `Coverage::milli`
unfoldable pub milli : Coverage → ℕ
milli coverage = if coverage.unknown_write then 0 else 1000

-- What `Command::output` gives: the exit code, and the two streams as bytes.
pub record Output : Type 0 where
  pub code : Option ℤ
  pub stdout : Bytes
  pub stderr : Bytes

abbrev pub join_space : List Text → Text
join_space [] = []
join_space (word ∷ []) = word
join_space (word ∷ next ∷ rest) = word ++ b' ' ∷ join_space (next ∷ rest)

abbrev pub code_or_one : Option ℤ → ℤ
code_or_one none = pos 1
code_or_one (some code) = code

-- An `EventSink`: its state, how an event is appended to it, and what was appended.
pub record EventSink (S : Type 0) : Type 0 where
  pub append : S → CaptureEvent → Result S
  pub recorded : S → List CaptureEvent

pub record Session (S : Type 0) : Type 0 where
  pub id : SessionId
  pub ledger : S
  pub coverage : Coverage

module _ {S : Type 0} (sink : EventSink S) where
  -- The outcome of an append, and the session behind it.
  abbrev pub appended : Session S → Result S → Result (Unit {0}) × Session S
  appended session (err failure) = (err failure, session)
  appended session (ok ledger) = (ok tt, record session { ledger = ledger })

  unfoldable pub start : S → Result Text → SessionId → CaptureOrigin → Text → Result (Session S)
  start ledger head_commit fresh origin objective = do
    base_commit ← head_commit
    next ← sink.append ledger (session_started fresh origin base_commit objective)
    ok (record { id = fresh; ledger = next; coverage = default_coverage })

  unfoldable pub record_events : Session S → List CaptureEvent → Result (Unit {0}) × Session S
  record_events session [] = (ok tt, session)
  record_events session (event ∷ events) = elim (sink.append session.ledger event) [
    | err failure ↦ (err failure, session)
    | ok ledger ↦ record_events (record session { ledger = ledger }) events
  ]

  -- `record_provider`, with what the adapter captures.
  unfoldable pub record_provider :
      Session S → (Text → List CaptureEvent) → Text → Result (Unit {0}) × Session S
  record_provider session capture captured = record_events session (capture captured)

  -- The coverage is extended in front of the append, and stays so where the append fails.
  unfoldable pub observe :
      Session S → BTreeSet Text → BTreeSet Text → Bool → Result (Unit {0}) × Session S
  observe session read modified unknown_write =
      let extended = record session {
        coverage = record {
          read = extend session.coverage.read read;
          modified = extend session.coverage.modified modified;
          unknown_write = session.coverage.unknown_write || unknown_write;
        };
      } in
      appended extended (sink.append session.ledger (files_observed read modified unknown_write))

  module _ (from_utf8_lossy : Bytes → Text) where
    abbrev pub run_recorded : Session S → Text → List Text → Result Output → Result ℤ × Session S
    run_recorded session program args (err failure) = (err failure, session)
    run_recorded session program args (ok output) =
        let (outcome, next) = appended session (
          sink.append session.ledger (
            command (join_space (program ∷ args)) output.code (from_utf8_lossy output.stdout)
              (from_utf8_lossy output.stderr))) in
        (outcome >>= (λ u. ok (code_or_one output.code)), next)

    unfoldable pub run :
        Session S → (Text → List Text → Result Output) → Text → List Text → Result ℤ × Session S
    run session execute program args = run_recorded session program args (execute program args)

  unfoldable pub record_checkpoint : Session S → Text → Result (Unit {0}) × Session S
  record_checkpoint session commit =
      appended session (sink.append session.ledger (checkpoint commit))

  unfoldable pub close : Session S → Result S
  close session = sink.append session.ledger (session_closed session.id)
