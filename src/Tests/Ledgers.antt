-- ===== src/Tests/Ledgers.antt =====
-- crates/orkia-ledger/src/lib.rs and crates/orkia-identity/src/lib.rs at a ledger of one event, with a
-- signing library of one key and a serialization that accepts this event only.
use boop_orkia_cli.Prelude.{
  ℕ, zero, suc, ◌≡◌, refl, ◌↔◌, inr, Bool, ◌&&◌, Option, none, some, List, [], ◌∷◌, ◌++◌, map,
  nat_eq, if◌then◌else◌, nat_ord, list_ord,
}
use boop_orkia_cli.Prelude.Integers.{ℤ, pos}
use boop_orkia_cli.Prelude.Maps.{BTreeMap, lookup}
use boop_orkia_cli.Prelude.Text.{text}
use boop_orkia_cli.Errors.{Result, ok, err, invalid}
use boop_orkia_cli.Model.Ids.{ActorId, Bytes}
use boop_orkia_cli.Model.Secrets.{Actor}
use boop_orkia_cli.Model.Objects.{Hash}
use boop_orkia_cli.Model.Json.{Json, null, write_canonical_json, canonical_json}
use boop_orkia_cli.Model.Events.{
  Timestamp, CaptureEvent, UnsignedEvent, LedgerEvent, session_closed,
}
use boop_orkia_cli.Identity.{SigningLibrary, Identity, IsLawful, sign, saved_bytes, load, verify}
use boop_orkia_cli.Identity.Signing.{verify-sign, load-saved_bytes}
use boop_orkia_cli.Ledger.{
  LedgerLibrary, Ledger, head_hash, hash, canonical_event, legacy_json, next_event, seal, append,
  signed_bytes, verify_event, verify_from, verify_chain,
}
use boop_orkia_cli.Ledger.Chain.{IsChain, verify_chain_iff}
use boop_orkia_cli.Ledger.Growth.{HasGrown, IsSigner, HasGrown-verify_chain}
use boop_orkia_cli.Ledger.Tampering.{IsWithoutCollision, verify_chain-tamper}

program : Unit {0}
unfolding text lookup write_canonical_json canonical_json sign saved_bytes load verify head_hash
    hash canonical_event legacy_json next_event seal append signed_bytes verify_event verify_from
    verify_chain
program = tt

abbrev zero_bytes : ℕ → Bytes
zero_bytes zero = []
zero_bytes (suc n) = 0 ∷ zero_bytes n

abbrev Key : Type 0
Key = Unit {0}

abbrev small_library : SigningLibrary Key
small_library = record {
  encode = λ bytes. bytes;
  decode = λ t. inr t;
  from_bytes = λ bytes. tt;
  to_bytes = λ key. zero_bytes 32;
  verifying_key = λ key. zero_bytes 32;
  sign_bytes = λ key bytes. zero_bytes 64;
  check_key = λ key. inr tt;
  check_signature = λ key bytes signature. inr tt;
}

small_library-IsLawful : IsLawful small_library tt
small_library-IsLawful = record {
  decode-encode = λ bytes. refl;
  from_bytes-to_bytes = refl;
  key_length = refl;
  secret_length = refl;
  signature_length = λ bytes. refl;
  key_accepted = refl;
  signature_accepted = λ bytes. refl;
}

abbrev small_actor : Actor
small_actor = record { id = 3; display_name = text "a"; public_key = zero_bytes 32 }

abbrev small_identity : Identity Key
small_identity = record { actor = small_actor; signing = tt }

verify-sign_example :
    verify small_library small_actor.public_key
      (text "x")
      (sign small_library small_identity (text "x"))
    ≡ ok tt
verify-sign_example =
    verify-sign small_library small_identity (text "x") small_library-IsLawful refl

load-saved_bytes_example :
    load small_library (some (saved_bytes small_library small_identity)) small_actor
    ≡ ok (some small_identity)
load-saved_bytes_example = load-saved_bytes small_library small_identity small_library-IsLawful refl

abbrev epoch : Timestamp
epoch = record { nanoseconds = pos 0; offset_seconds = pos 0 }

abbrev small_unsigned : UnsignedEvent
small_unsigned = record {
  id = 1;
  repository = 2;
  actor = 3;
  occurred_at = epoch;
  previous_hash = none;
  event = session_closed 5;
}

-- The serialization of the one event, field by field.
abbrev is_small : ℕ → ℕ → ℕ → ℕ → ℕ → ℕ → Bool
is_small id repository actor seconds offset session =
    nat_eq id 1
    && nat_eq repository 2
    && nat_eq actor 3
    && nat_eq seconds 0
    && nat_eq offset 0
    && nat_eq session 5

abbrev small_value : ℕ → ℕ → ℕ → ℤ → ℤ → Option Hash → CaptureEvent → Result Json
small_value id repository actor (pos seconds) (pos offset) none (session_closed session) =
    if is_small id repository actor seconds offset session then ok null else err (invalid [])
small_value id repository actor _ _ _ _ = err (invalid [])

abbrev ledger_library : LedgerLibrary Key
ledger_library = record {
  sha256 = λ bytes. bytes;
  hex = λ bytes. bytes;
  to_value = λ u.
      small_value u.id u.repository u.actor u.occurred_at.nanoseconds u.occurred_at.offset_seconds
        u.previous_hash u.event;
  to_vec = λ u. err (invalid []);
  encode_string = λ t. ok t;
  signing = small_library;
}

abbrev small_event : LedgerEvent
small_event = record { unsigned = small_unsigned; hash = text "null"; signature = zero_bytes 64 }

abbrev small_actors : BTreeMap ActorId Actor
small_actors = (3, small_actor) ∷ []

small_verified : verify_chain ledger_library (small_event ∷ []) small_actors ≡ ok tt
unfolding program
small_verified = refl

verify_chain_iff_example :
    (verify_chain ledger_library (small_event ∷ []) small_actors ≡ ok tt)
    ↔ IsChain ledger_library small_actors none (small_event ∷ [])
verify_chain_iff_example = verify_chain_iff ledger_library small_actors (small_event ∷ [])

abbrev empty_ledger : Ledger Key
empty_ledger = record { store = []; repository = 2; identity = small_identity }

abbrev small_ledger : Ledger Key
small_ledger = record { store = small_event ∷ []; repository = 2; identity = small_identity }

small_appended :
    append ledger_library 1 epoch (session_closed 5) empty_ledger ≡ ok (small_event, small_ledger)
unfolding program
small_appended = refl

small-IsSigner : IsSigner ledger_library small_actors empty_ledger
unfolding program
small-IsSigner = (small_library-IsLawful, refl, refl)

empty_verified : verify_chain ledger_library [] small_actors ≡ ok tt
unfolding program
empty_verified = refl

HasGrown-verify_chain_example :
    (verify_chain ledger_library (small_event ∷ []) small_actors ≡ ok tt)
    × ((later : List LedgerEvent) × (small_event ∷ [] ≡ [] ++ later))
HasGrown-verify_chain_example =
    HasGrown-verify_chain ledger_library small_actors empty_ledger small_ledger small-IsSigner
      empty_verified
      (HasGrown.appended 1 epoch (session_closed 5) small_event HasGrown.unchanged small_appended)

-- The same event under another signature, which the small library accepts too.
abbrev other_event : LedgerEvent
other_event = record {
  unsigned = small_unsigned;
  hash = text "null";
  signature = 1 ∷ zero_bytes 63;
}

other_verified : verify_chain ledger_library (other_event ∷ []) small_actors ≡ ok tt
unfolding program
other_verified = refl

small-IsWithoutCollision : IsWithoutCollision ledger_library (small_event ∷ []) (other_event ∷ [])
small-IsWithoutCollision = ((λ a b s t h. refl, tt), tt)

same_head : head_hash none (small_event ∷ []) ≡ head_hash none (other_event ∷ [])
unfolding program
same_head = refl

verify_chain-tamper_example :
    map (λ e. e.unsigned) (small_event ∷ []) ≡ map (λ e. e.unsigned) (other_event ∷ [])
verify_chain-tamper_example =
    verify_chain-tamper ledger_library small_actors (small_event ∷ []) (other_event ∷ [])
      small-IsWithoutCollision small_verified other_verified same_head
