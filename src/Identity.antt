-- ===== src/Identity.antt =====
-- crates/orkia-identity/src/lib.rs: signing identities. The functions of ed25519_dalek and base64 that
-- the code calls are the fields of a record; a random key or identifier is an argument.
pub mod Signing
use boop_orkia_cli.Prelude.{
  ℕ, Bool, true, false, not, List, [], ◌∷◌, ◌++◌, Option, none, some, ◌⊎◌, inl, inr, length, nat_eq,
  nat_ord, list_ord, ◌==◌, ◌≡◌,
}
use boop_orkia_cli.Prelude.Text.{Text, text}
use boop_orkia_cli.Errors.{OrkiaError, Result, ok, err, integrity, reject_if, ◌>>=◌, ◌>>◌}
use boop_orkia_cli.Model.Ids.{ActorId, Bytes}
use boop_orkia_cli.Model.Secrets.{Actor}

-- A failure of a library is the text it formats as.
pub record SigningLibrary (SigningKey : Type 0) : Type 0 where
  pub encode : Bytes → Text
  pub decode : Text → Text ⊎ Bytes
  pub from_bytes : Bytes → SigningKey
  pub to_bytes : SigningKey → Bytes
  pub verifying_key : SigningKey → Bytes
  pub sign_bytes : SigningKey → Bytes → Bytes
  pub check_key : Bytes → Text ⊎ Unit {0}
  pub check_signature : Bytes → Bytes → Bytes → Text ⊎ Unit {0}

pub record Identity (SigningKey : Type 0) : Type 0 where
  pub actor : Actor
  pub signing : SigningKey

-- `result.map_err(f)`
abbrev pub map_err : {A : Type 0} → (Text → OrkiaError) → Text ⊎ A → Result A
map_err f (inl failure) = err (f failure)
map_err f (inr value) = ok value

-- `try_into` of an array of `size` bytes, with the error for another length.
abbrev pub of_length : ℕ → Text → Bytes → Result (Unit {0})
of_length size message bytes = reject_if (not (nat_eq (length bytes) size)) (integrity message)

module _ {SigningKey : Type 0} (library : SigningLibrary SigningKey) where
  -- `Identity::generate`
  unfoldable pub generate : ActorId → SigningKey → Text → Identity SigningKey
  generate fresh signing display_name = record {
    actor = record {
      id = fresh;
      display_name = display_name;
      public_key = library.encode (library.verifying_key signing);
    };
    signing = signing;
  }

  -- `Identity::successor`
  unfoldable pub successor : SigningKey → Identity SigningKey → Identity SigningKey
  successor signing identity = record {
    actor = record {
      id = identity.actor.id;
      display_name = identity.actor.display_name;
      public_key = library.encode (library.verifying_key signing);
    };
    signing = signing;
  }

  -- `Identity::sign`
  unfoldable pub sign : Identity SigningKey → Bytes → Text
  sign identity bytes = library.encode (library.sign_bytes identity.signing bytes)

  -- `Identity::save`: the bytes that are put under the name of the key.
  unfoldable pub saved_bytes : Identity SigningKey → Bytes
  saved_bytes identity = library.to_bytes identity.signing

  -- `Identity::load`, of what the store holds under the name of the key.
  unfoldable pub load : Option Bytes → Actor → Result (Option (Identity SigningKey))
  load none actor = ok none
  load (some bytes) actor = do
    of_length 32 (text "invalid Ed25519 private key length") bytes
    reject_if
        (not
          (library.encode (library.verifying_key (library.from_bytes bytes)) == actor.public_key))
        (integrity (text "stored key does not match actor public key"))
    ok (some (record { actor = actor; signing = library.from_bytes bytes }))

  -- `verify`
  unfoldable pub verify : Text → Bytes → Text → Result (Unit {0})
  verify public_key bytes signature = do
    key ← map_err (λ e. integrity (text "invalid public key: " ++ e)) (library.decode public_key)
    sig ← map_err (λ e. integrity (text "invalid signature: " ++ e)) (library.decode signature)
    of_length 32 (text "invalid public key length") key
    of_length 64 (text "invalid signature length") sig
    map_err integrity (library.check_key key)
    map_err integrity (library.check_signature key bytes sig)

  -- What base64 and Ed25519 promise of a signing key, whose identity signs what its key verifies.
  pub record IsLawful (signing : SigningKey) : Type 0 where
    pub decode-encode : (bytes : Bytes) → library.decode (library.encode bytes) ≡ inr bytes
    pub from_bytes-to_bytes : library.from_bytes (library.to_bytes signing) ≡ signing
    pub key_length : length (library.verifying_key signing) ≡ 32
    pub secret_length : length (library.to_bytes signing) ≡ 32
    pub signature_length : (bytes : Bytes) → length (library.sign_bytes signing bytes) ≡ 64
    pub key_accepted : library.check_key (library.verifying_key signing) ≡ inr tt
    pub signature_accepted :
        (bytes : Bytes)
        → library.check_signature
            (library.verifying_key signing)
            bytes
            (library.sign_bytes signing bytes)
          ≡ inr tt
