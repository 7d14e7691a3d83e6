-- ===== src/Tests/Sessions.antt =====
-- crates/orkia-capture/src/lib.rs at a session that observes two files.
use boop_orkia_cli.Prelude.{◌≡◌, refl, true, Option, none, List, [], ◌∷◌, ◌++◌}
use boop_orkia_cli.Prelude.Text.{Text, text}
use boop_orkia_cli.Errors.{ok}
use boop_orkia_cli.Model.Ids.{Bytes}
use boop_orkia_cli.Model.Json.{Json}
use boop_orkia_cli.Model.Events.{CaptureEvent, CaptureOrigin, session_started}
use boop_orkia_cli.Capture.{default_coverage, EventSink, Session, start, observe}
use boop_orkia_cli.Capture.Honest.{HasDone, IsHonest, KeepsEvents, start-IsHonest}

program : Unit {0}
unfolding text default_coverage start observe
program = tt

-- A sink that is the sequence of its events.
abbrev list_sink : EventSink (List CaptureEvent)
list_sink = record {
  append = λ events event. ok (events ++ event ∷ []);
  recorded = λ events. events;
}

abbrev no_json : Text → Option Json
no_json line = none

abbrev no_text : Json → Text
no_text value = []

abbrev lossy : Bytes → Text
lossy bytes = bytes

abbrev begun : Session (List CaptureEvent)
begun = record {
  id = 9;
  ledger = session_started 9 CaptureOrigin.human (text "c") (text "o") ∷ [];
  coverage = default_coverage;
}

session_begun : start list_sink [] (ok (text "c")) 9 CaptureOrigin.human (text "o") ≡ ok begun
unfolding program
session_begun = refl

list_sink-keeps : KeepsEvents list_sink no_json no_text lossy
list_sink-keeps s t event h = cc

abbrev two_read : List Text
two_read = text "a" ∷ text "b" ∷ []

start-IsHonest_example :
    IsHonest list_sink no_json no_text lossy [] (observe list_sink begun two_read [] true).1
start-IsHonest_example =
    start-IsHonest list_sink no_json no_text lossy list_sink-keeps [] (ok (text "c")) 9
      CaptureOrigin.human (text "o") begun (observe list_sink begun two_read [] true).1
      session_begun (HasDone.then_observed two_read [] true HasDone.nothing)
