-- ===== src/Runtime/Secrets/Tests.antt =====
-- A store of two keys over a toy cryptography.
use workflow_engine.Prelude.{
  ◌≡◌, refl, ℕ, zero, suc, String, false, Option, none, some, List, [], ◌∷◌, map, head?, All,
  string_eq, nat_eq, ◌==◌, if◌then◌else◌,
}
use workflow_engine.Runtime.Secrets.{
  Crypto, ParsedKey, SecretsKeyStore, key_store, decrypted, resolve_key, create_key_store,
  get_primary, lookup, decrypt_sealed, SealedWorkflow, verify_manifest_secrets,
  decrypt_workflow_secrets, unknown_secret_key_id, finish_store, resolve_keys, decrypt_with,
  unseal_with, verify_entries, verify_known, verify_fields, or_else, failure_of, decrypt_fields,
  decrypt_entries, decrypt_next,
}
use workflow_engine.Runtime.Secrets.Rotation.{Sealing, sealed_reads_back}
use workflow_engine.Runtime.Secrets.Verified.{is_verified, verified_iff_decrypted}

-- Bytes are a key or a text sealed to one; opening compares the keys.
data Bytes : Type 0 where
  key : ℕ → Bytes
  plain : String → Bytes
  box : ℕ → String → Bytes

abbrev opens : Bytes → Bytes → Bytes → Option Bytes
opens (box n text) pk (key m) = if n == m then some (plain text) else none
opens (box n text) pk (plain t) = none
opens (box n text) pk (box m t) = none
opens (key n) pk sk = none
opens (plain t) pk sk = none

abbrev named : Bytes → String
named (key zero) = "zero"
named (key (suc n)) = "more"
named (plain t) = t
named (box n t) = t

-- The ciphertexts of key 0 and of the others are told apart by their first letters.
abbrev toy : Crypto Bytes
toy = record {
  derive_public_key = λ k. k;
  fingerprint = named;
  from_base64 = λ s. if s == "old" then box 1 s else box 0 s;
  unseal_ciphertext = opens;
  decode_text = named;
}

abbrev keys : List (ParsedKey Bytes)
keys =
    record { label = "k1"; secret_key = key 0 } ∷ record { label = "k0"; secret_key = key 1 } ∷ []

abbrev store : SecretsKeyStore Bytes
store = record {
  resolved_keys =
      ("zero", record { key_id = "zero"; public_key = key 0; secret_key = key 0 })
      ∷ ("more", record { key_id = "more"; public_key = key 1; secret_key = key 1 })
      ∷ [];
  order = "zero" ∷ "more" ∷ [];
  primary_key_id = "zero";
}

create_key_store_test : create_key_store toy keys ≡ key_store store
unfolding create_key_store resolve_keys finish_store resolve_key
create_key_store_test = refl

abbrev flow : String → String → SealedWorkflow
flow id ciphertext = record {
  name = "w";
  secrets = some (("TOKEN", ciphertext) ∷ []);
  secrets_key_id = some id;
}

verified_iff_decrypted_example :
    is_verified (verify_manifest_secrets toy (flow "more" "old" ∷ flow "zero" "old" ∷ []) store)
    ≡ false
unfolding decrypt_workflow_secrets decrypt_fields decrypt_entries decrypt_next decrypt_sealed
    decrypt_with unseal_with lookup
verified_iff_decrypted_example =
    verified_iff_decrypted toy store (flow "more" "old" ∷ flow "zero" "old" ∷ []) (refl, (refl, tt))

verify_test :
    verify_manifest_secrets toy (flow "more" "old" ∷ flow "gone" "old" ∷ []) store
    ≡ some (unknown_secret_key_id "w" "gone")
unfolding verify_manifest_secrets verify_fields verify_known verify_entries or_else failure_of
    decrypt_sealed decrypt_with unseal_with lookup
verify_test = refl

-- Sealing that keeps the key and the text side by side: a byte array is a text or a key.
abbrev pair_crypto : Crypto (String × ℕ)
pair_crypto = record {
  derive_public_key = λ k. k;
  fingerprint = λ k. k.0;
  from_base64 = λ s. (s, 0);
  unseal_ciphertext = λ c p s. some (c.0, 0);
  decode_text = λ b. b.0;
}

abbrev pair_sealing : Sealing pair_crypto
pair_sealing = record {
  seal = λ text p. text;
  encode_text = λ text. (text, 0);
  unseal-seal = λ text k. refl;
}

abbrev two_keys : List (ParsedKey (String × ℕ))
two_keys =
    record { label = "k1"; secret_key = ("new", 1) }
    ∷ record { label = "k0"; secret_key = ("old", 2) }
    ∷ []

abbrev two_store : SecretsKeyStore (String × ℕ)
two_store = record {
  resolved_keys =
      ("new", record { key_id = "new"; public_key = ("new", 1); secret_key = ("new", 1) })
      ∷ ("old", record { key_id = "old"; public_key = ("old", 2); secret_key = ("old", 2) })
      ∷ [];
  order = "new" ∷ "old" ∷ [];
  primary_key_id = "new";
}

two_store_made : create_key_store pair_crypto two_keys ≡ key_store two_store
unfolding create_key_store resolve_keys finish_store resolve_key
two_store_made = refl

sealed_reads_back_example :
    All
      (λ k.
        let key = resolve_key pair_crypto k in
        decrypt_sealed pair_crypto "secret" key.key_id two_store ≡ decrypted ("secret", 0))
      two_keys
    × (two_store.order ≡ map (λ k. (resolve_key pair_crypto k).key_id) two_keys)
    × (get_primary pair_crypto two_store ≡ head? (map (resolve_key pair_crypto) two_keys))
sealed_reads_back_example =
    sealed_reads_back pair_crypto pair_sealing two_keys two_store "secret" two_store_made
