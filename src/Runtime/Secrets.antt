-- ===== src/Runtime/Secrets.antt =====
-- packages/runtime/src/secrets: the store of secret keys, the check of a manifest's ciphertexts at an
-- upload, and their decryption when a sandbox is built. The keys are parsed already; an error that is
-- thrown is a value.
pub mod Rotation
pub mod Verified
mod Tests
use workflow_engine.Prelude.{
  ℕ, Bool, String, true, false, Option, none, some, List, [], ◌∷◌, snoc, ◌==◌, string_eq,
  if◌then◌else◌, head?,
}
use workflow_engine.Prelude.Maps.{get, set, has}

-- The cryptography of packages/core/src/secrets and of Node, with its byte arrays.
pub record Crypto (B : Type 0) : Type 0 where
  pub derive_public_key : B → B
  pub fingerprint : B → String
  pub from_base64 : String → B
  pub unseal_ciphertext : B → B → B → Option B
  pub decode_text : B → String

pub record ParsedKey (B : Type 0) : Type 0 where
  pub label : String
  pub secret_key : B

pub record ResolvedKey (B : Type 0) : Type 0 where
  pub key_id : String
  pub public_key : B
  pub secret_key : B

pub record SecretsKeyStore (B : Type 0) : Type 0 where
  pub resolved_keys : List (String × ResolvedKey B)
  pub order : List String
  pub primary_key_id : String

pub data KeyStoreResult (B : Type 0) : Type 0 where
  key_store : SecretsKeyStore B → KeyStoreResult B
  duplicate_fingerprint : String → KeyStoreResult B
  no_keys : KeyStoreResult B

pub data Decrypted (A : Type 0) : Type 0 where
  decrypted : A → Decrypted A
  unknown_key_id : String → Decrypted A
  decrypt_failed : Decrypted A

-- The fields of a workflow's manifest that concern secrets.
pub record SealedWorkflow : Type 0 where
  pub name : String
  pub secrets : Option (List (String × String))
  pub secrets_key_id : Option String

pub data SecretsVerifyFailure : Type 0 where
  unknown_secret_key_id secret_decrypt_failed : String → String → SecretsVerifyFailure

module _ {B : Type 0} (crypto : Crypto B) where
  open crypto use {derive_public_key, fingerprint, from_base64, unseal_ciphertext, decode_text}

  pub resolve_key : ParsedKey B → ResolvedKey B
  resolve_key k = record {
    key_id = fingerprint (derive_public_key k.secret_key);
    public_key = derive_public_key k.secret_key;
    secret_key = k.secret_key;
  }

  -- The end of `createKeyStore`, where the keys are resolved.
  finish_store : List (String × ResolvedKey B) → List String → KeyStoreResult B
  finish_store resolved [] = no_keys
  finish_store resolved (id ∷ ids) =
      key_store (record { resolved_keys = resolved; order = id ∷ ids; primary_key_id = id })

  -- The loop of `createKeyStore`.
  pub resolve_keys :
      List (ParsedKey B) → List (String × ResolvedKey B) → List String → KeyStoreResult B
  resolve_keys [] resolved order = finish_store resolved order
  resolve_keys (k ∷ ks) resolved order =
      let key = resolve_key k in
      let rest = resolve_keys ks (set key.key_id key resolved) (snoc order key.key_id) in
      if has key.key_id resolved then duplicate_fingerprint key.key_id else rest

  pub create_key_store : List (ParsedKey B) → KeyStoreResult B
  create_key_store parsed = resolve_keys parsed [] []

  pub get_primary : SecretsKeyStore B → Option (ResolvedKey B)
  get_primary store = get store.primary_key_id store.resolved_keys

  pub lookup : String → SecretsKeyStore B → Option (ResolvedKey B)
  lookup key_id store = get key_id store.resolved_keys

  unseal_with : String → ResolvedKey B → Decrypted B
  unseal_with ciphertext key =
      elim (unseal_ciphertext (from_base64 ciphertext) key.public_key key.secret_key) [
        | none ↦ decrypt_failed
        | some plaintext ↦ decrypted plaintext
      ]

  decrypt_with : String → String → Option (ResolvedKey B) → Decrypted B
  decrypt_with ciphertext key_id none = unknown_key_id key_id
  decrypt_with ciphertext key_id (some key) = unseal_with ciphertext key

  pub decrypt_sealed : String → String → SecretsKeyStore B → Decrypted B
  decrypt_sealed ciphertext key_id store = decrypt_with ciphertext key_id (lookup key_id store)

  failure_of : String → String → Decrypted B → Option SecretsVerifyFailure
  failure_of workflow env_name (decrypted plaintext) = none
  failure_of workflow env_name (unknown_key_id key_id) =
      some (unknown_secret_key_id workflow key_id)
  failure_of workflow env_name decrypt_failed = some (secret_decrypt_failed workflow env_name)

  or_else : Option SecretsVerifyFailure → Option SecretsVerifyFailure → Option SecretsVerifyFailure
  or_else (some f) rest = some f
  or_else none rest = rest

  -- The inner loop of `verifyManifestSecrets`.
  pub verify_entries :
      String → String → SecretsKeyStore B → List (String × String) → Option SecretsVerifyFailure
  verify_entries workflow key_id store [] = none
  verify_entries workflow key_id store ((env_name, ciphertext) ∷ entries) =
      or_else (failure_of workflow env_name (decrypt_sealed ciphertext key_id store))
        (verify_entries workflow key_id store entries)

  verify_known :
      String
      → String
      → SecretsKeyStore B
      → List (String × String)
      → Option (ResolvedKey B)
      → Option SecretsVerifyFailure
  verify_known workflow key_id store entries none = some (unknown_secret_key_id workflow key_id)
  verify_known workflow key_id store entries (some key) =
      verify_entries workflow key_id store entries

  verify_fields :
      String
      → SecretsKeyStore B
      → Option (List (String × String))
      → Option String
      → Option SecretsVerifyFailure
  verify_fields workflow store none key_id = none
  verify_fields workflow store (some entries) none = none
  verify_fields workflow store (some entries) (some key_id) =
      verify_known workflow key_id store entries (lookup key_id store)

  pub verify_manifest_secrets :
      List SealedWorkflow → SecretsKeyStore B → Option SecretsVerifyFailure
  verify_manifest_secrets [] store = none
  verify_manifest_secrets (w ∷ ws) store =
      or_else (verify_fields w.name store w.secrets w.secrets_key_id)
        (verify_manifest_secrets ws store)

  -- One entry of `decryptWorkflowSecrets`: an error ends the loop.
  decrypt_next :
      Decrypted B
      → String
      → (List (String × String) → Decrypted (List (String × String)))
      → List (String × String)
      → Decrypted (List (String × String))
  decrypt_next (decrypted bytes) env_name rest out = rest (set env_name (decode_text bytes) out)
  decrypt_next (unknown_key_id id) env_name rest out = unknown_key_id id
  decrypt_next decrypt_failed env_name rest out = decrypt_failed

  pub decrypt_entries :
      String
      → SecretsKeyStore B
      → List (String × String)
      → List (String × String)
      → Decrypted (List (String × String))
  decrypt_entries key_id store [] out = decrypted out
  decrypt_entries key_id store ((env_name, ciphertext) ∷ entries) out =
      decrypt_next (decrypt_sealed ciphertext key_id store) env_name
        (decrypt_entries key_id store entries) out

  decrypt_fields :
      SecretsKeyStore B
      → Option (List (String × String))
      → Option String
      → Decrypted (List (String × String))
  decrypt_fields store none key_id = decrypted []
  decrypt_fields store (some entries) none = decrypted []
  decrypt_fields store (some entries) (some key_id) = decrypt_entries key_id store entries []

  pub decrypt_workflow_secrets :
      SealedWorkflow → SecretsKeyStore B → Decrypted (List (String × String))
  decrypt_workflow_secrets w store = decrypt_fields store w.secrets w.secrets_key_id
