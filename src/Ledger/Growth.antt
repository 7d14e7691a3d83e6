-- ===== src/Ledger/Growth.antt =====
-- crates/orkia-ledger/src/lib.rs: ledgers that `append` makes.
use boop_orkia_cli.Prelude.{
  ◌≡◌, refl, ap, sym, ◌∙◌, inl, List, [], ◌∷◌, ◌++◌, Option, none, some, nat_ord, subst, append-nil,
  append_assoc,
}
use boop_orkia_cli.Prelude.Maps.{BTreeMap, lookup}
use boop_orkia_cli.Errors.{ok, >>=-eq-ok, ok_injective}
use boop_orkia_cli.Model.Ids.{ActorId, EventId, Bytes}
use boop_orkia_cli.Model.Secrets.{Actor}
use boop_orkia_cli.Model.Events.{Timestamp, CaptureEvent, LedgerEvent}
use boop_orkia_cli.Identity.{IsLawful}
use boop_orkia_cli.Identity.Signing.{IsOwn, verify-sign}
use boop_orkia_cli.Ledger.{
  LedgerLibrary, Ledger, head_hash, seal, next_event, append, canonical_event, verify_chain,
}
use boop_orkia_cli.Ledger.Chain.{IsChain, IsSealed, verify_chain_iff}

module _ {SigningKey : Type 0} (library : LedgerLibrary SigningKey) where
  -- What appending makes of a ledger, in any number of steps.
  pub data HasGrown (start : Ledger SigningKey) : Ledger SigningKey → Type 0 where
    unchanged : HasGrown start start
    appended :
        {l m : Ledger SigningKey} (fresh : EventId) (now : Timestamp) (event : CaptureEvent)
        (signed : LedgerEvent)
        → HasGrown start l
        → append library fresh now event l ≡ ok (signed, m)
        → HasGrown start m

  -- The signer of a ledger is one of the known actors, with the key that it publishes.
  abbrev pub IsSigner : BTreeMap ActorId Actor → Ledger SigningKey → Type 0
  IsSigner actors l =
      IsLawful library.signing l.identity.signing
      × IsOwn library.signing l.identity
      × (lookup l.identity.actor.id actors ≡ some l.identity.actor)

  IsChain-append :
      (actors : BTreeMap ActorId Actor) (previous : Option _) (xs ys : List LedgerEvent)
      → IsChain library actors previous xs
      → IsChain library actors (head_hash previous xs) ys
      → IsChain library actors previous (xs ++ ys)
  unfolding head_hash
  IsChain-append actors previous [] ys c d = d
  IsChain-append actors previous (x ∷ xs) ys c d =
      (c.0, c.1, IsChain-append actors (some x.hash) xs ys c.2 d)

  -- What one append does: the event is sealed, behind all that were there.
  append-cases :
      (fresh : EventId) (now : Timestamp) (event : CaptureEvent) (l m : Ledger SigningKey)
      (signed : LedgerEvent)
      → append library fresh now event l ≡ ok (signed, m)
      → (bytes : Bytes) × (canonical_event library (next_event library fresh now event l)
          ≡ ok bytes)
        × (signed ≡ seal library l.identity (next_event library fresh now event l) bytes)
        × (m ≡ record l { store = l.store ++ signed ∷ [] })
  unfolding append
  append-cases fresh now event l m signed h =
      let (bytes, c, last) = >>=-eq-ok _ _ h in
      let e = ok_injective last in
      let s = ap (λ (t : LedgerEvent × Ledger SigningKey). t.0) e in
      (bytes, c, sym s, rw (sym s) (sym (ap (λ (t : LedgerEvent × Ledger SigningKey). t.1) e)))

  seal-IsSealed :
      (actors : BTreeMap ActorId Actor) (fresh : EventId) (now : Timestamp) (event : CaptureEvent)
      (l : Ledger SigningKey) (bytes : Bytes)
      → IsSigner actors l
      → canonical_event library (next_event library fresh now event l) ≡ ok bytes
      → IsSealed library actors
          (seal library l.identity (next_event library fresh now event l) bytes)
  unfolding seal next_event
  seal-IsSealed actors fresh now event l bytes (lawful, own, known) c = (
    bytes,
    (bytes, c, inl (refl, refl)),
    (l.identity.actor, known, verify-sign library.signing l.identity bytes lawful own),
  )

  append-IsChain :
      (actors : BTreeMap ActorId Actor) (fresh : EventId) (now : Timestamp) (event : CaptureEvent)
      (l m : Ledger SigningKey) (signed : LedgerEvent)
      → IsSigner actors l
      → IsChain library actors none l.store
      → append library fresh now event l ≡ ok (signed, m)
      → IsChain library actors none m.store
        × (m.identity ≡ l.identity)
        × (m.store ≡ l.store ++ signed ∷ [])
  unfolding seal next_event
  append-IsChain actors fresh now event l m signed h c a =
      let (bytes, canonical, s, e) = append-cases fresh now event l m signed a in
      rw e (
        IsChain-append actors none l.store (signed ∷ []) c
            (rw s (refl, seal-IsSealed actors fresh now event l bytes h canonical, tt)),
        refl,
        refl,
      )

  HasGrown-IsChain :
      (actors : BTreeMap ActorId Actor) (start l : Ledger SigningKey)
      → IsSigner actors start
      → IsChain library actors none start.store
      → HasGrown start l
      → IsChain library actors none l.store
        × IsSigner actors l
        × ((later : List LedgerEvent) × (l.store ≡ start.store ++ later))
  HasGrown-IsChain actors start l h c unchanged = (c, h, ([], sym (append-nil start.store)))
  HasGrown-IsChain actors start l h c (appended {l = k} fresh now event signed g a) =
      let (chain, signer, (later, e)) = HasGrown-IsChain actors start k h c g in
      let (longer, kept, added) = append-IsChain actors fresh now event k l signed signer chain a in
      (
        longer,
        subst
            (λ i.
              IsLawful library.signing i.signing
              × IsOwn library.signing i
              × (lookup i.actor.id actors ≡ some i.actor))
            (sym kept) signer,
        (later ++ signed ∷ [], added ∙ rw e (append_assoc start.store later (signed ∷ []))),
      )

  -- A ledger that verifies, and whose signer is a known actor with lawful keys, still verifies after any
  -- number of appends, and all that was in it is still in front, unchanged.
  pub HasGrown-verify_chain :
      (actors : BTreeMap ActorId Actor) (start l : Ledger SigningKey)
      → IsSigner actors start
      → verify_chain library start.store actors ≡ ok tt
      → HasGrown start l
      → (verify_chain library l.store actors ≡ ok tt)
        × ((later : List LedgerEvent) × (l.store ≡ start.store ++ later))
  HasGrown-verify_chain actors start l h v g =
      let (chain, signer, kept) =
        HasGrown-IsChain actors start l h ((verify_chain_iff library actors start.store).0 v) g in
      ((verify_chain_iff library actors l.store).1 chain, kept)
