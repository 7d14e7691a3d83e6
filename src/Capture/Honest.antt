-- ===== src/Capture/Honest.antt =====
-- crates/orkia-capture/src/lib.rs: the coverage of a session against the events that it recorded.
use boop_orkia_cli.Prelude.{
  ◌≡◌, refl, ◌∙◌, ap, subst, Bool, true, not, ◌||◌, Option, none, some, List, [], ◌∷◌, ◌++◌, arith,
  all, filter, map, AllOf, append-AllOf, AllOf-weaken, append_assoc, inl, inr, nat_ord, list_ord,
}
use boop_orkia_cli.Prelude.Sets.{
  BTreeSet, contains, extend, contains-extend, all→contains, contains→all,
}
use boop_orkia_cli.Prelude.Text.{Text, text, is_blank}
use boop_orkia_cli.Errors.{Result, Result-cases, ok, err, >>=-eq-ok, ok_injective}
use boop_orkia_cli.Model.Ids.{SessionId, Bytes}
use boop_orkia_cli.Model.Json.{Json}
use boop_orkia_cli.Model.Events.{
  CaptureOrigin, CaptureEvent, files_observed, session_started, command, checkpoint,
}
use boop_orkia_cli.Semantic.Extraction.{lines}
use boop_orkia_cli.Capture.{
  get, event_of, tool_or_transcript, parse_jsonl_provider, Coverage, Output, join_space, EventSink,
  Session, appended, start, record_events, record_provider, observe, run, run_recorded,
  record_checkpoint,
}

-- What an event observed is in a coverage.
abbrev pub IsCovered : Coverage → CaptureEvent → Type 0
IsCovered coverage (files_observed read modified unknown_write) =
    (all (λ p. contains p coverage.read) read ≡ true)
    × (all (λ p. contains p coverage.modified) modified ≡ true)
    × (unknown_write ≡ true → coverage.unknown_write ≡ true)
IsCovered coverage _ = Unit

all-extend :
    (s ys xs : List Text)
    → all (λ p. contains p s) xs ≡ true
    → all (λ p. contains p (extend s ys)) xs ≡ true
all-extend s ys xs h =
    contains→all (λ p. contains p (extend s ys)) xs
      (λ p m.
        let there = all→contains (λ q. contains q s) xs h p m in
        ground (arith, contains-extend p s ys))

all-extended : (s ys : List Text) → all (λ p. contains p (extend s ys)) ys ≡ true
all-extended s ys =
    contains→all (λ p. contains p (extend s ys)) ys (λ p m. ground (arith, contains-extend p s ys))

module _ {S : Type 0} (sink : EventSink S) (from_str : Text → Option Json) (to_string : Json → Text)
    (from_utf8_lossy : Bytes → Text) where
  -- What a session does, as its caller chooses: the provider's transcripts are JSON lines.
  pub data HasDone (s : Session S) : Session S → Type 0 where
    nothing : HasDone s s
    then_observed :
        {t : Session S} (read modified : BTreeSet Text) (unknown_write : Bool)
        → HasDone s t
        → HasDone s (observe sink t read modified unknown_write).1
    then_recorded :
        {t : Session S} (provider captured : Text)
        → HasDone s t
        → HasDone s
            (record_provider sink t (parse_jsonl_provider from_str to_string provider) captured).1
    then_ran :
        {t : Session S} (execute : Text → List Text → Result Output) (program : Text)
        (args : List Text)
        → HasDone s t
        → HasDone s (run sink from_utf8_lossy t execute program args).1
    then_checkpointed :
        {t : Session S} (commit : Text)
        → HasDone s t
        → HasDone s (record_checkpoint sink t commit).1

  -- A sink keeps the events that are appended, in order.
  abbrev pub KeepsEvents : Type 0
  KeepsEvents =
      (s t : S) (event : CaptureEvent)
      → sink.append s event ≡ ok t
      → sink.recorded t ≡ sink.recorded s ++ event ∷ []

  -- The coverage of a session covers what was recorded behind the earlier events.
  abbrev pub IsHonest : List CaptureEvent → Session S → Type 0
  IsHonest earlier session =
      (own : List CaptureEvent) × (sink.recorded session.ledger ≡ earlier ++ own)
      × AllOf (IsCovered session.coverage) own

  module _ (keeps : KeepsEvents) (earlier : List CaptureEvent) where
    -- One appended event, with the coverage that there is at its append.
    appended-IsHonest :
        (session : Session S) (event : CaptureEvent) (outcome : Result S)
        → sink.append session.ledger event ≡ outcome
        → IsHonest earlier session
        → IsCovered session.coverage event
        → IsHonest earlier (appended sink session outcome).1
    appended-IsHonest session event (err failure) e h c = h
    appended-IsHonest session event (ok ledger) e (own, r, covered) c = (
      own ++ event ∷ [],
      keeps session.ledger ledger event e
          ∙ (ap (λ l. l ++ event ∷ []) r ∙ append_assoc earlier own (event ∷ [])),
      append-AllOf (IsCovered session.coverage) own (event ∷ []) covered (c, tt),
    )

    record_events-IsHonest :
        (session : Session S) (events : List CaptureEvent)
        → AllOf (IsCovered session.coverage) events
        → IsHonest earlier session
        → IsHonest earlier (record_events sink session events).1
    unfolding record_events
    record_events-IsHonest session [] c h = h
    record_events-IsHonest session (event ∷ events) c h =
        elim (Result-cases (sink.append session.ledger event)) [
          | inl (failure, e) ↦ rw (record_events, e) h
          | inr (ledger, e) ↦
              rw (record_events, e)
                (record_events-IsHonest (record session { ledger = ledger }) events c.1
                  (appended-IsHonest session event (ok ledger) e h c.0))
        ]

    extended-IsCovered :
        (coverage : Coverage) (read modified : BTreeSet Text) (unknown_write : Bool)
        (event : CaptureEvent)
        → IsCovered coverage event
        → IsCovered
            (record {
              read = extend coverage.read read;
              modified = extend coverage.modified modified;
              unknown_write = coverage.unknown_write || unknown_write;
            })
            event
    extended-IsCovered coverage read modified u (files_observed r m w) c = (
      all-extend coverage.read read r c.0,
      all-extend coverage.modified modified m c.1,
      λ e. ground (arith, c.2 e),
    )
    extended-IsCovered coverage read modified u _ c = tt

    observe-IsHonest :
        (session : Session S) (read modified : BTreeSet Text) (unknown_write : Bool)
        → IsHonest earlier session
        → IsHonest earlier (observe sink session read modified unknown_write).1
    unfolding observe
    observe-IsHonest session read modified u (own, r, covered) =
        let coverage : Coverage = record {
          read = extend session.coverage.read read;
          modified = extend session.coverage.modified modified;
          unknown_write = session.coverage.unknown_write || u;
        } in
        appended-IsHonest (record session { coverage = coverage }) (files_observed read modified u)
          (sink.append session.ledger (files_observed read modified u)) refl
          (
            own,
            r,
            AllOf-weaken (IsCovered session.coverage) (IsCovered coverage) own
                (extended-IsCovered session.coverage read modified u) covered,
          )
          (
            all-extended session.coverage.read read,
            all-extended session.coverage.modified modified,
            λ e. ground arith,
          )

    event_of-IsCovered :
        (coverage : Coverage) (provider line : Text) (o : Option Json)
        → IsCovered coverage (event_of from_str to_string provider line o)
    event_of-IsCovered coverage provider line none = tt
    event_of-IsCovered coverage provider line (some value) = shown (get (text "tool") value)
      where
        shown :
            (o : Option Json)
            → IsCovered coverage (tool_or_transcript from_str to_string provider value o)
        shown none = tt
        shown (some tool) = tt

    parse-IsCovered :
        (coverage : Coverage) (provider captured : Text)
        → AllOf (IsCovered coverage) (parse_jsonl_provider from_str to_string provider captured)
    unfolding parse_jsonl_provider
    parse-IsCovered coverage provider captured =
        shown (filter (λ line. not (is_blank line)) (lines captured))
      where
        shown :
            (ls : List Text)
            → AllOf
                (IsCovered coverage)
                (map (λ line. event_of from_str to_string provider line (from_str line)) ls)
        shown [] = tt
        shown (line ∷ ls) = (event_of-IsCovered coverage provider line (from_str line), shown ls)

    run_recorded-IsHonest :
        (session : Session S) (program : Text) (args : List Text) (outcome : Result Output)
        → IsHonest earlier session
        → IsHonest earlier (run_recorded sink from_utf8_lossy session program args outcome).1
    run_recorded-IsHonest session program args (err failure) h = h
    run_recorded-IsHonest session program args (ok output) h =
        appended-IsHonest session
          (command (join_space (program ∷ args)) output.code (from_utf8_lossy output.stdout)
            (from_utf8_lossy output.stderr))
          _ refl h tt

    HasDone-IsHonest : (s t : Session S) → IsHonest earlier s → HasDone s t → IsHonest earlier t
    unfolding record_provider run record_checkpoint
    HasDone-IsHonest s t h nothing = h
    HasDone-IsHonest s t h (then_observed {t = u} read modified unknown_write d) =
        observe-IsHonest u read modified unknown_write (HasDone-IsHonest s u h d)
    HasDone-IsHonest s t h (then_recorded {t = u} provider captured d) =
        record_events-IsHonest u (parse_jsonl_provider from_str to_string provider captured)
          (parse-IsCovered u.coverage provider captured) (HasDone-IsHonest s u h d)
    HasDone-IsHonest s t h (then_ran {t = u} execute program args d) =
        run_recorded-IsHonest u program args (execute program args) (HasDone-IsHonest s u h d)
    HasDone-IsHonest s t h (then_checkpointed {t = u} commit d) =
        appended-IsHonest u (checkpoint commit) (sink.append u.ledger (checkpoint commit)) refl
          (HasDone-IsHonest s u h d) tt

  -- Whatever a session does, also where an append fails, its coverage holds every path that it recorded
  -- as read or modified since its start, and where it recorded a write of unknown origin the coverage
  -- says so; where the sink keeps the events that are appended to it.
  pub start-IsHonest :
      KeepsEvents
      → (ledger : S) (head_commit : Result Text) (fresh : SessionId) (origin : CaptureOrigin)
        (objective : Text) (s t : Session S)
      → start sink ledger head_commit fresh origin objective ≡ ok s
      → HasDone s t
      → IsHonest (sink.recorded ledger) t
  unfolding start
  start-IsHonest keeps ledger head_commit fresh origin objective s t h d =
      let (base_commit, c, rest) = >>=-eq-ok head_commit _ h in
      let (next, a, last) =
        >>=-eq-ok (sink.append ledger (session_started fresh origin base_commit objective)) _
          rest in
      let begun = subst (IsHonest (sink.recorded ledger)) (ok_injective last) (
        session_started fresh origin base_commit objective ∷ [],
        keeps ledger next _ a,
        (tt, tt),
      ) in
      HasDone-IsHonest keeps (sink.recorded ledger) s t begun d
