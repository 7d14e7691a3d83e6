-- ===== src/Ledger.antt =====
-- crates/orkia-ledger/src/lib.rs: the signed, hash-chained ledger. SHA-256, hexadecimal digits and
-- what Serde writes of an event are parameters, as are an event's identifier and the time.
pub mod Chain
pub mod Growth
pub mod Tampering
use boop_orkia_cli.Prelude.{
  ℕ, Bool, true, false, not, List, [], ◌∷◌, ◌++◌, Option, none, some, if◌then◌else◌, nat_ord,
  list_ord, ◌==◌,
}
use boop_orkia_cli.Prelude.Maps.{BTreeMap, lookup}
use boop_orkia_cli.Prelude.Text.{Text, text}
use boop_orkia_cli.Errors.{Result, ok, err, integrity, reject_if, ok_or, ◌>>=◌, ◌>>◌}
use boop_orkia_cli.Model.Ids.{ActorId, EventId, RepositoryId, Bytes}
use boop_orkia_cli.Model.Json.{Json, canonical_json}
use boop_orkia_cli.Model.Objects.{Hash}
use boop_orkia_cli.Model.Secrets.{Actor}
use boop_orkia_cli.Model.Events.{Timestamp, CaptureEvent, UnsignedEvent, LedgerEvent}
use boop_orkia_cli.Identity.{SigningLibrary, Identity, sign, verify}

pub record LedgerLibrary (SigningKey : Type 0) : Type 0 where
  pub sha256 : Bytes → Bytes
  pub hex : Bytes → Text
  pub to_value : UnsignedEvent → Result Json
  pub to_vec : UnsignedEvent → Result Bytes
  pub encode_string : Text → Result Bytes
  pub signing : SigningLibrary SigningKey

pub record Ledger (SigningKey : Type 0) : Type 0 where
  pub store : List LedgerEvent
  pub repository : RepositoryId
  pub identity : Identity SigningKey

-- `events.last().map(|e| e.hash.clone())`, behind a ledger whose head is `previous`.
unfoldable pub head_hash : Option Hash → List LedgerEvent → Option Hash
head_hash previous [] = previous
head_hash previous (event ∷ events) = head_hash (some event.hash) events

-- `Eq` of `Option<Hash>`
abbrev pub same_hash : Option Hash → Option Hash → Bool
same_hash none none = true
same_hash none (some b) = false
same_hash (some a) none = false
same_hash (some a) (some b) = a == b

module _ {SigningKey : Type 0} (library : LedgerLibrary SigningKey) where
  unfoldable pub hash : Bytes → Hash
  hash bytes = library.hex (library.sha256 bytes)

  -- `canonical_json` and `legacy_json` of an event
  unfoldable pub canonical_event : UnsignedEvent → Result Bytes
  canonical_event unsigned = canonical_json library.encode_string (library.to_value unsigned)

  unfoldable pub legacy_json : UnsignedEvent → Result Bytes
  legacy_json unsigned = library.to_vec unsigned

  unfoldable pub unsigned_hash : UnsignedEvent → Result Hash
  unsigned_hash unsigned = do bytes ← canonical_event unsigned; ok (hash bytes)

  -- The event that `Ledger::append` makes.
  unfoldable pub next_event : EventId → Timestamp → CaptureEvent → Ledger SigningKey → UnsignedEvent
  next_event fresh now event ledger = record {
    id = fresh;
    repository = ledger.repository;
    actor = ledger.identity.actor.id;
    occurred_at = now;
    previous_hash = head_hash none ledger.store;
    event = event;
  }

  unfoldable pub seal : Identity SigningKey → UnsignedEvent → Bytes → LedgerEvent
  seal identity unsigned bytes = record {
    unsigned = unsigned;
    hash = hash bytes;
    signature = sign library.signing identity bytes;
  }

  -- `Ledger::append`, over a store that is the sequence of its events, as `MemoryLedgerStore` is.
  unfoldable pub append :
      EventId
      → Timestamp
      → CaptureEvent
      → Ledger SigningKey
      → Result (LedgerEvent × Ledger SigningKey)
  append fresh now event ledger = do
    bytes ← canonical_event (next_event fresh now event ledger)
    let signed = seal ledger.identity (next_event fresh now event ledger) bytes in
        ok (signed, record ledger { store = ledger.store ++ signed ∷ [] })

  -- The bytes that an event was hashed and signed as.
  unfoldable pub signed_bytes : LedgerEvent → Result Bytes
  signed_bytes event = do
    canonical ← canonical_event event.unsigned
    if hash canonical == event.hash then ok canonical else do
      legacy ← legacy_json event.unsigned
      reject_if (not (hash legacy == event.hash))
          (integrity (text "event hash does not match payload"))
      ok legacy

  -- One round of `verify_chain`.
  unfoldable pub verify_event :
      BTreeMap ActorId Actor → Option Hash → LedgerEvent → Result (Unit {0})
  verify_event actors previous event = do
    reject_if (not (same_hash event.unsigned.previous_hash previous))
        (integrity (text "ledger chain is discontinuous"))
    bytes ← signed_bytes event
    reject_if (not (hash bytes == event.hash))
        (integrity (text "event hash does not match payload"))
    actor ← ok_or (lookup event.unsigned.actor actors) (integrity (text "unknown ledger actor"))
    verify library.signing actor.public_key bytes event.signature

  -- The loop of `verify_chain`, with the hash of the event before.
  unfoldable pub verify_from :
      BTreeMap ActorId Actor → Option Hash → List LedgerEvent → Result (Unit {0})
  verify_from actors previous [] = ok tt
  verify_from actors previous (event ∷ events) = do
    verify_event actors previous event
    verify_from actors (some event.hash) events

  unfoldable pub verify_chain : List LedgerEvent → BTreeMap ActorId Actor → Result (Unit {0})
  verify_chain events actors = verify_from actors none events
