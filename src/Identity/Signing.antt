-- ===== src/Identity/Signing.antt =====
-- crates/orkia-identity/src/lib.rs: what an identity signs, and what it loads again.
use boop_orkia_cli.Prelude.{◌≡◌, refl, some, nat_ord, list_ord, ==-refl}
use boop_orkia_cli.Errors.{ok}
use boop_orkia_cli.Model.Ids.{Bytes}
use boop_orkia_cli.Identity.{SigningLibrary, Identity, IsLawful, sign, saved_bytes, load, verify}

module _ {SigningKey : Type 0} (library : SigningLibrary SigningKey) where
  -- The actor of an identity publishes the key that it signs with.
  abbrev pub IsOwn : Identity SigningKey → Type 0
  IsOwn identity =
      identity.actor.public_key ≡ library.encode (library.verifying_key identity.signing)

  -- What an identity signs is verified under the key that its actor publishes, where the signing library
  -- is lawful for its key.
  pub verify-sign :
      (identity : Identity SigningKey) (bytes : Bytes)
      → IsLawful library identity.signing
      → IsOwn identity
      → verify library identity.actor.public_key bytes (sign library identity bytes) ≡ ok tt
  unfolding verify sign
  verify-sign identity bytes l own =
      rw
        (
          own,
          l.decode-encode (library.verifying_key identity.signing),
          l.decode-encode (library.sign_bytes identity.signing bytes),
          l.key_length,
          l.signature_length bytes,
          l.key_accepted,
          l.signature_accepted bytes,
        )
        refl

  -- An identity is loaded again from the bytes that it saves, for its own actor, where the signing library
  -- is lawful for its key.
  pub load-saved_bytes :
      (identity : Identity SigningKey)
      → IsLawful library identity.signing
      → IsOwn identity
      → load library (some (saved_bytes library identity)) identity.actor ≡ ok (some identity)
  unfolding load saved_bytes
  load-saved_bytes identity l own =
      rw
        (
          l.secret_length,
          l.from_bytes-to_bytes,
          own,
          ==-refl (library.encode (library.verifying_key identity.signing)),
        )
        refl
