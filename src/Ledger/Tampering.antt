-- ===== src/Ledger/Tampering.antt =====
-- crates/orkia-ledger/src/lib.rs: what the hash of the last event fixes.
use boop_orkia_cli.Prelude.{
  AllOf, AllOf-weaken, ◌≡◌, refl, ap, ap₂, sym, ◌∙◌, List, [], ◌∷◌, ◌++◌, map, Option, none, some,
  nat_ord, list_ord, append-nil,
}
use boop_orkia_cli.Prelude.Maps.{BTreeMap, some_injective}
use boop_orkia_cli.Errors.{ok}
use boop_orkia_cli.Model.Ids.{ActorId, Bytes}
use boop_orkia_cli.Model.Objects.{Hash}
use boop_orkia_cli.Model.Secrets.{Actor}
use boop_orkia_cli.Model.Events.{UnsignedEvent, LedgerEvent}
use boop_orkia_cli.Ledger.{LedgerLibrary, head_hash, hash, verify_chain}
use boop_orkia_cli.Ledger.Chain.{IsHashedAs, IsSealed, IsChain, IsHashedAs-hash, verify_chain_iff}

-- The hash of the first event of a list that holds the newest first.
newest : List LedgerEvent → Option Hash
newest [] = none
newest (event ∷ older) = some event.hash

-- The events, the newest first, in front of older ones.
turned : List LedgerEvent → List LedgerEvent → List LedgerEvent
turned [] older = older
turned (event ∷ events) older = turned events (event ∷ older)

straightened : List UnsignedEvent → List UnsignedEvent → List UnsignedEvent
straightened [] later = later
straightened (event ∷ older) later = straightened older (event ∷ later)

straightened-turned :
    (events older : List LedgerEvent) (later : List UnsignedEvent)
    → straightened (map (λ e. e.unsigned) (turned events older)) later
      ≡ straightened (map (λ e. e.unsigned) older) (map (λ e. e.unsigned) events ++ later)
unfolding straightened turned
straightened-turned [] older later = refl
straightened-turned (event ∷ events) older later = straightened-turned events (event ∷ older) later

newest-turned :
    (events older : List LedgerEvent)
    → newest (turned events older) ≡ head_hash (newest older) events
unfolding newest turned head_hash
newest-turned [] older = refl
newest-turned (event ∷ events) older = newest-turned events (event ∷ older)

turned-AllOf :
    (P : LedgerEvent → Type 0) (events older : List LedgerEvent)
    → AllOf P events
    → AllOf P older
    → AllOf P (turned events older)
unfolding turned
turned-AllOf P [] older h k = k
turned-AllOf P (event ∷ events) older h k = turned-AllOf P events (event ∷ older) h.1 (h.0, k)

module _ {SigningKey : Type 0} (library : LedgerLibrary SigningKey) where
  -- Two events are the same where the bytes that they are hashed as have the same hash.
  abbrev pub AreHashedApart : LedgerEvent → LedgerEvent → Type 0
  AreHashedApart d e =
      (a b : Bytes)
      → IsHashedAs library d a
      → IsHashedAs library e b
      → hash library a ≡ hash library b
      → d.unsigned ≡ e.unsigned

  -- No two different events, one of each ledger, are hashed to one value.
  abbrev pub IsWithoutCollision : List LedgerEvent → List LedgerEvent → Type 0
  IsWithoutCollision xs ys = AllOf (λ d. AllOf (AreHashedApart d) ys) xs

  module _ (actors : BTreeMap ActorId Actor) where
    -- A chain read backwards.
    abbrev IsBacked : List LedgerEvent → Type 0
    IsBacked [] = Unit
    IsBacked (event ∷ older) =
        (event.unsigned.previous_hash ≡ newest older)
        × IsSealed library actors event
        × IsBacked older

    turned-IsBacked :
        (events older : List LedgerEvent)
        → IsBacked older
        → IsChain library actors (newest older) events
        → IsBacked (turned events older)
    unfolding turned newest
    turned-IsBacked [] older b c = b
    turned-IsBacked (event ∷ events) older b (linked, s, c) =
        turned-IsBacked events (event ∷ older) (linked, s, b) c

    same_history :
        (xs ys : List LedgerEvent)
        → IsWithoutCollision xs ys
        → IsBacked xs
        → IsBacked ys
        → newest xs ≡ newest ys
        → map (λ e. e.unsigned) xs ≡ map (λ e. e.unsigned) ys
    unfolding newest
    same_history [] [] u b c h = refl
    same_history [] (y ∷ ys) u b c h = cc
    same_history (x ∷ xs) [] u b c h = cc
    same_history (x ∷ xs) (y ∷ ys) u (p, (a, s, o), b) (q, (d, t, r), c) h =
        let same : x.unsigned ≡ y.unsigned = u.0.0 a d s t (
          IsHashedAs-hash library x a s ∙ some_injective h ∙ sym (IsHashedAs-hash library y d t)) in
        let rest : IsWithoutCollision xs ys =
          AllOf-weaken (λ e. AllOf (AreHashedApart e) (y ∷ ys)) (λ e. AllOf (AreHashedApart e) ys)
            xs (λ e v. v.1) u.1 in
        ap₂ ◌∷◌ same (same_history xs ys rest b c (sym p ∙ ap (λ e. e.previous_hash) same ∙ q))

    turned-IsWithoutCollision :
        (xs ys : List LedgerEvent)
        → IsWithoutCollision xs ys
        → IsWithoutCollision (turned xs []) (turned ys [])
    turned-IsWithoutCollision xs ys u =
        turned-AllOf (λ d. AllOf (AreHashedApart d) (turned ys [])) xs []
          (AllOf-weaken (λ d. AllOf (AreHashedApart d) ys)
            (λ d. AllOf (AreHashedApart d) (turned ys [])) xs
            (λ d v. turned-AllOf (AreHashedApart d) ys [] v tt) u)
          tt

    -- Two verified ledgers whose last events have the same hash hold the same events in the same order,
    -- hashes and signatures aside; where no event of the one and different event of the other are hashed
    -- to one value.
    pub verify_chain-tamper :
        (xs ys : List LedgerEvent)
        → IsWithoutCollision xs ys
        → verify_chain library xs actors ≡ ok tt
        → verify_chain library ys actors ≡ ok tt
        → head_hash none xs ≡ head_hash none ys
        → map (λ e. e.unsigned) xs ≡ map (λ e. e.unsigned) ys
    unfolding newest straightened
    verify_chain-tamper xs ys u v w h =
        let b = turned-IsBacked xs [] tt ((verify_chain_iff library actors xs).0 v) in
        let c = turned-IsBacked ys [] tt ((verify_chain_iff library actors ys).0 w) in
        let same =
          same_history (turned xs []) (turned ys []) (turned-IsWithoutCollision xs ys u) b c
            (newest-turned xs [] ∙ h ∙ sym (newest-turned ys [])) in
        sym (append-nil (map (λ e. e.unsigned) xs))
        ∙ (sym (straightened-turned xs [] [])
            ∙ (ap (λ l. straightened l []) same
                ∙ (straightened-turned ys [] [] ∙ append-nil (map (λ e. e.unsigned) ys))))
