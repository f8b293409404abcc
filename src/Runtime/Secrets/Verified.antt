-- ===== src/Runtime/Secrets/Verified.antt =====
-- verify-manifest.ts and decrypt-workflow.ts: what an upload has checked can be decrypted.
use workflow_engine.Prelude.{
  ◌≡◌, refl, ap, ◌∙◌, Bool, String, true, false, ◌&&◌, Option, none, some, List, [], ◌∷◌, all, All,
}
use workflow_engine.Runtime.Secrets.{
  Crypto, ResolvedKey, SecretsKeyStore, Decrypted, decrypted, unknown_key_id, decrypt_failed,
  SealedWorkflow, SecretsVerifyFailure, lookup, decrypt_with, decrypt_sealed, failure_of, or_else,
  verify_entries, verify_known, verify_fields, verify_manifest_secrets, decrypt_next,
  decrypt_entries, decrypt_fields, decrypt_workflow_secrets,
}

abbrev pub is_decrypted : {A : Type 0} → Decrypted A → Bool
is_decrypted (decrypted a) = true
is_decrypted (unknown_key_id id) = false
is_decrypted decrypt_failed = false

abbrev pub is_verified : Option SecretsVerifyFailure → Bool
is_verified none = true
is_verified (some f) = false

-- The manifest of a workflow with secrets names one at least.
abbrev pub has_entries : Option (List (String × String)) → Bool
has_entries none = true
has_entries (some []) = false
has_entries (some (e ∷ es)) = true

module _ {B : Type 0} (crypto : Crypto B) (store : SecretsKeyStore B) where
  entry_verified :
      (d : Decrypted B) (workflow env_name : String) (f : Option SecretsVerifyFailure)
      (rest : List (String × String) → Decrypted (List (String × String)))
      (out : List (String × String))
      → ((o : List (String × String)) → is_verified f ≡ is_decrypted (rest o))
      → is_verified (or_else crypto (failure_of crypto workflow env_name d) f)
        ≡ is_decrypted (decrypt_next crypto d env_name rest out)
  unfolding or_else failure_of decrypt_next
  entry_verified (decrypted a) workflow env_name f rest out h = h _
  entry_verified (unknown_key_id id) workflow env_name f rest out h = refl
  entry_verified decrypt_failed workflow env_name f rest out h = refl

  entries_verified :
      (workflow key_id : String) (es out : List (String × String))
      → is_verified (verify_entries crypto workflow key_id store es)
        ≡ is_decrypted (decrypt_entries crypto key_id store es out)
  unfolding verify_entries decrypt_entries
  entries_verified workflow key_id [] out = refl
  entries_verified workflow key_id ((env_name, ciphertext) ∷ es) out =
      entry_verified (decrypt_sealed crypto ciphertext key_id store) workflow env_name _ _ out
        (λ o. entries_verified workflow key_id es o)

  known_verified :
      (workflow key_id : String) (e : String × String) (es : List (String × String))
      (o : Option (ResolvedKey B))
      → lookup crypto key_id store ≡ o
      → is_verified (verify_known crypto workflow key_id store (e ∷ es) o)
        ≡ is_decrypted (decrypt_entries crypto key_id store (e ∷ es) [])
  unfolding verify_known decrypt_entries decrypt_sealed decrypt_with decrypt_next
  known_verified workflow key_id e es none h = rw h refl
  known_verified workflow key_id e es (some key) h = entries_verified workflow key_id (e ∷ es) []

  fields_verified :
      (workflow : String) (secrets : Option (List (String × String))) (key_id : Option String)
      → has_entries secrets ≡ true
      → is_verified (verify_fields crypto workflow store secrets key_id)
        ≡ is_decrypted (decrypt_fields crypto store secrets key_id)
  unfolding verify_fields decrypt_fields
  fields_verified workflow none key_id h = refl
  fields_verified workflow (some es) none h = refl
  fields_verified workflow (some []) (some key_id) h = absurd (cc h)
  fields_verified workflow (some (e ∷ es)) (some key_id) h =
      known_verified workflow key_id e es (lookup crypto key_id store) refl

  or_else_verified :
      (f g : Option SecretsVerifyFailure)
      → is_verified (or_else crypto f g) ≡ (is_verified f && is_verified g)
  unfolding or_else
  or_else_verified none g = refl
  or_else_verified (some f) g = refl

-- Where no workflow has an empty record of secrets, the check of an upload finds no failure exactly if
-- the secrets of each workflow can be decrypted with the same keys, as they are when its sandbox is
-- built.
pub verified_iff_decrypted :
    {B : Type 0} (crypto : Crypto B) (store : SecretsKeyStore B) (ws : List SealedWorkflow)
    → All (λ w. has_entries w.secrets ≡ true) ws
    → is_verified (verify_manifest_secrets crypto ws store)
      ≡ all (λ w. is_decrypted (decrypt_workflow_secrets crypto w store)) ws
unfolding verify_manifest_secrets decrypt_workflow_secrets
verified_iff_decrypted crypto store [] h = refl
verified_iff_decrypted crypto store (w ∷ ws) (e, h) =
    or_else_verified crypto store _ _
    ∙ ap (λ b. b && is_verified (verify_manifest_secrets crypto ws store))
        (fields_verified crypto store w.name w.secrets w.secrets_key_id e)
    ∙ ap (λ b. is_decrypted (decrypt_workflow_secrets crypto w store) && b)
        (verified_iff_decrypted crypto store ws h)
