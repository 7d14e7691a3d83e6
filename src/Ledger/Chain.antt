-- ===== src/Ledger/Chain.antt =====
-- crates/orkia-ledger/src/lib.rs: what `verify_chain` accepts.
use boop_orkia_cli.Prelude.{
  ◌≡◌, ◌≢◌, refl, ap, sym, ◌↔◌, ◌⊎◌, inl, inr, true, List, [], ◌∷◌, Option, none, some, nat_ord,
  list_ord, ◌==◌, ==→≡, ==-refl, ==-false, ==-false→≢, Bool-cases, not-false,
}
use boop_orkia_cli.Prelude.Maps.{BTreeMap, lookup}
use boop_orkia_cli.Errors.{ok, >>-eq-ok, >>=-eq-ok, reject_if-eq-ok, ok_or-eq-ok, ok_injective}
use boop_orkia_cli.Model.Ids.{ActorId, Bytes}
use boop_orkia_cli.Model.Objects.{Hash}
use boop_orkia_cli.Model.Secrets.{Actor}
use boop_orkia_cli.Model.Events.{LedgerEvent}
use boop_orkia_cli.Identity.{verify}
use boop_orkia_cli.Ledger.{
  LedgerLibrary, same_hash, hash, canonical_event, legacy_json, signed_bytes, verify_event,
  verify_from, verify_chain,
}

pub same_hash-≡ : (a b : Option Hash) → same_hash a b ≡ true → a ≡ b
same_hash-≡ none none h = refl
same_hash-≡ none (some b) h = cc
same_hash-≡ (some a) none h = cc
same_hash-≡ (some a) (some b) h = ap some (==→≡ a b h)

pub same_hash_refl : (a : Option Hash) → same_hash a a ≡ true
same_hash_refl none = refl
same_hash_refl (some a) = ==-refl a

same_hash-true : (a b : Option Hash) → a ≡ b → same_hash a b ≡ true
same_hash-true a b e = rw e (same_hash_refl b)

module _ {SigningKey : Type 0} (library : LedgerLibrary SigningKey) where
  -- The bytes that an event is hashed as: canonical JSON, or in an old event what Serde writes.
  abbrev pub IsHashedAs : LedgerEvent → Bytes → Type 0
  IsHashedAs event bytes =
      (canonical : Bytes) × (canonical_event library event.unsigned ≡ ok canonical)
      × (((hash library canonical ≡ event.hash) × (bytes ≡ canonical))
          ⊎ ((hash library canonical ≢ event.hash)
              × (legacy_json library event.unsigned ≡ ok bytes)
              × (hash library bytes ≡ event.hash)))

  -- An event whose bytes a known actor signed.
  abbrev pub IsSealed : BTreeMap ActorId Actor → LedgerEvent → Type 0
  IsSealed actors event =
      (bytes : Bytes) × IsHashedAs event bytes
      × ((actor : Actor) × (lookup event.unsigned.actor actors ≡ some actor)
          × (verify library.signing actor.public_key bytes event.signature ≡ ok tt))

  -- Each event is sealed and names the hash of the event before.
  abbrev pub IsChain : BTreeMap ActorId Actor → Option Hash → List LedgerEvent → Type 0
  IsChain actors previous [] = Unit
  IsChain actors previous (event ∷ events) =
      (event.unsigned.previous_hash ≡ previous)
      × IsSealed actors event
      × IsChain actors (some event.hash) events

  pub IsHashedAs-hash :
      (event : LedgerEvent) (bytes : Bytes)
      → IsHashedAs event bytes
      → hash library bytes ≡ event.hash
  IsHashedAs-hash event bytes (canonical, c, inl (h, e)) = rw e h
  IsHashedAs-hash event bytes (canonical, c, inr (n, l, h)) = h

  pub signed_bytes_iff :
      (event : LedgerEvent) (bytes : Bytes)
      → (signed_bytes library event ≡ ok bytes) ↔ IsHashedAs event bytes
  unfolding signed_bytes
  signed_bytes_iff event bytes = (
    λ h.
        let (canonical, c, rest) = >>=-eq-ok _ _ h in
        elim (Bool-cases (hash library canonical == event.hash)) [
          | inl e ↦ (canonical, c, inl (==→≡ _ _ e, sym (ok_injective (rw e at rest))))
          | inr n ↦
              let (legacy, l, more) =
                >>=-eq-ok (legacy_json library event.unsigned) _ (rw n at rest) in
              let (r, last) = >>-eq-ok _ _ more in
              let same = ok_injective last in
              (
                canonical,
                c,
                inr (
                  ==-false→≢ _ _ n,
                  rw l (ap ok same),
                  rw (sym same) (==→≡ _ _ (not-false _ (reject_if-eq-ok _ _ r))),
                ),
              )
        ],
    λ (canonical, c, cases). rw c (elim cases [
      | inl (h, e) ↦ rw (h, ==-refl event.hash) (ap ok (sym e))
      | inr (n, l, h) ↦ rw (==-false _ _ n, l, h, ==-refl event.hash) refl
    ]),
  )

  pub verify_event_iff :
      (actors : BTreeMap ActorId Actor) (previous : Option Hash) (event : LedgerEvent)
      → (verify_event library actors previous event ≡ ok tt)
        ↔ ((event.unsigned.previous_hash ≡ previous) × IsSealed actors event)
  unfolding verify_event
  verify_event_iff actors previous event = (
    λ h.
        let (linked, rest) = >>-eq-ok _ _ h in
        let (bytes, s, more) = >>=-eq-ok _ _ rest in
        let (r, last) = >>-eq-ok _ _ more in
        let (actor, known, signed) = >>=-eq-ok _ _ last in
        (
          same_hash-≡ _ _ (not-false _ (reject_if-eq-ok _ _ linked)),
          (bytes, (signed_bytes_iff event bytes).0 s, (actor, ok_or-eq-ok _ _ known, signed)),
        ),
    λ (linked, (bytes, s, (actor, known, signed))).
        rw
          (
            same_hash-true _ _ linked,
            (signed_bytes_iff event bytes).1 s,
            IsHashedAs-hash event bytes s,
            ==-refl event.hash,
            known,
          )
          signed,
  )

  verify_from_iff :
      (actors : BTreeMap ActorId Actor) (previous : Option Hash) (events : List LedgerEvent)
      → (verify_from library actors previous events ≡ ok tt) ↔ IsChain actors previous events
  unfolding verify_from
  verify_from_iff actors previous [] = (λ h. tt, λ h. refl)
  verify_from_iff actors previous (event ∷ events) = (
    λ h.
        let (first, rest) = >>-eq-ok _ _ h in
        let (linked, s) = (verify_event_iff actors previous event).0 first in
        (linked, s, (verify_from_iff actors (some event.hash) events).0 rest),
    λ (linked, s, rest).
        rw ((verify_event_iff actors previous event).1 (linked, s))
          ((verify_from_iff actors (some event.hash) events).1 rest),
  )

  -- A sequence of events is verified exactly when each event names the hash of the event before it, the
  -- first none, is hashed as its canonical JSON or, where this has another hash, as what Serde writes
  -- of it, and a known actor signed these bytes.
  pub verify_chain_iff :
      (actors : BTreeMap ActorId Actor) (events : List LedgerEvent)
      → (verify_chain library events actors ≡ ok tt) ↔ IsChain actors none events
  unfolding verify_chain
  verify_chain_iff actors events = verify_from_iff actors none events
