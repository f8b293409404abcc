-- ===== src/Runtime/Secrets/Rotation.antt =====
-- key-store.ts: every key of the list opens what was sealed to it, whichever is the first.
use workflow_engine.Prelude.{
  ◌≡◌, ◌≢◌, refl, sym, ap, ◌∙◌, subst, String, false, none, some, List, [], ◌∷◌, ◌++◌, map, snoc,
  append_assoc, append-nil, ◌==◌, string_eq, Bool-cases, inl, inr, head?, All, All-mono,
}
use workflow_engine.Prelude.Maps.{get, set, has, get-set_self, get-set_ne}
use workflow_engine.Runtime.Secrets.{
  Crypto, ParsedKey, ResolvedKey, SecretsKeyStore, key_store, decrypted, resolve_key, finish_store,
  resolve_keys, create_key_store, get_primary, lookup, unseal_with, decrypt_with, decrypt_sealed,
}

-- Sealing by a public key, which the secret key of that public key undoes.
pub record Sealing {B : Type 0} (crypto : Crypto B) : Type 0 where
  pub seal : String → B → String
  pub encode_text : String → B
  pub unseal-seal :
      (text : String) (secret_key : B)
      → crypto.unseal_ciphertext
          (crypto.from_base64 (seal text (crypto.derive_public_key secret_key)))
          (crypto.derive_public_key secret_key)
          secret_key
        ≡ some (encode_text text)

has-get : {A : Type 0} (k : String) (m : List (String × A)) → has k m ≡ false → get k m ≡ none
has-get k [] h = refl
has-get k ((j, a) ∷ m) h = elim (Bool-cases (j == k)) [
  | inl t ↦ absurd (cc (rw t at h))
  | inr f ↦ rw f (has-get k m (rw f at h))
]

module _ {B : Type 0} (crypto : Crypto B) where
  id_of : ParsedKey B → String
  id_of k = crypto.fingerprint (crypto.derive_public_key k.secret_key)

  record IsResolved (parsed : List (ParsedKey B)) (resolved : List (String × ResolvedKey B))
      (order : List String) (s : SecretsKeyStore B) : Type 0 where
    kept :
        (id : String) (key : ResolvedKey B)
        → get id resolved ≡ some key
        → lookup crypto id s ≡ some key
    found : All (λ k. lookup crypto (id_of k) s ≡ some (resolve_key crypto k)) parsed
    ordered : s.order ≡ order ++ map id_of parsed
    primary : head? s.order ≡ some s.primary_key_id

  finish_store-IsResolved :
      (resolved : List (String × ResolvedKey B)) (order : List String) (s : SecretsKeyStore B)
      → finish_store crypto resolved order ≡ key_store s
      → IsResolved [] resolved order s
  unfolding finish_store lookup
  finish_store-IsResolved resolved [] s e = absurd (cc e)
  finish_store-IsResolved resolved (id ∷ ids) s e =
      let same : record { resolved_keys = resolved; order = id ∷ ids; primary_key_id = id } ≡ s =
        cc e in
      subst (IsResolved [] resolved (id ∷ ids)) same (record {
        kept = λ j key h. h;
        found = tt;
        ordered = sym (append-nil (id ∷ ids));
        primary = refl;
      })

  resolve_keys-IsResolved :
      (ks : List (ParsedKey B)) (resolved : List (String × ResolvedKey B)) (order : List String)
      (s : SecretsKeyStore B)
      → resolve_keys crypto ks resolved order ≡ key_store s
      → IsResolved ks resolved order s
  unfolding resolve_keys resolve_key id_of
  resolve_keys-IsResolved [] resolved order s e = finish_store-IsResolved resolved order s e
  resolve_keys-IsResolved (k ∷ ks) resolved order s e = elim (Bool-cases (has (id_of k) resolved)) [
    | inl t ↦ absurd (cc (rw t at e))
    | inr f ↦
        (let rest =
            resolve_keys-IsResolved ks (set (id_of k) (resolve_key crypto k) resolved)
              (snoc order (id_of k)) s (rw f at e) in
          record {
            kept = λ id key h.
                rest.kept id key
                  (get-set_ne (id_of k) id (resolve_key crypto k) resolved (other id key h f) ∙ h);
            found = (
              rest.kept (id_of k) (resolve_key crypto k)
                  (get-set_self (id_of k) (resolve_key crypto k) resolved),
              rest.found,
            );
            ordered = rest.ordered ∙ append_assoc order (id_of k ∷ []) (map id_of ks);
            primary = rest.primary;
          })
  ]
    where
      other :
          (id : String) (key : ResolvedKey B)
          → get id resolved ≡ some key
          → has (id_of k) resolved ≡ false
          → id_of k ≢ id
      other id key h f p =
          let fresh = subst (λ j. get j resolved ≡ none) p (has-get (id_of k) resolved f) in
          absurd (cc (h, fresh))

  opened :
      (sealing : Sealing crypto) (s : SecretsKeyStore B) (text : String) (k : ParsedKey B)
      → lookup crypto (id_of k) s ≡ some (resolve_key crypto k)
      → decrypt_sealed crypto
          (sealing.seal text (resolve_key crypto k).public_key)
          (resolve_key crypto k).key_id
          s
        ≡ decrypted (sealing.encode_text text)
  unfolding decrypt_sealed decrypt_with unseal_with resolve_key id_of
  opened sealing s text k h =
      let reads = sealing.unseal-seal text k.secret_key in rw h (rw (reads, unseal_with) refl)

-- Where a store of keys is made, a text that is sealed to the public key of any of its keys, the first
-- or an older one, is read back under the fingerprint of that public key; the keys are known by
-- their fingerprints in the order of the list, and the primary one is the first.
pub sealed_reads_back :
    {B : Type 0} (crypto : Crypto B) (sealing : Sealing crypto) (parsed : List (ParsedKey B))
    (s : SecretsKeyStore B) (text : String)
    → create_key_store crypto parsed ≡ key_store s
    → All
        (λ k.
          let key = resolve_key crypto k in
          decrypt_sealed crypto (sealing.seal text key.public_key) key.key_id s
          ≡ decrypted (sealing.encode_text text))
        parsed
      × (s.order ≡ map (λ k. (resolve_key crypto k).key_id) parsed)
      × (get_primary crypto s ≡ head? (map (resolve_key crypto) parsed))
unfolding create_key_store get_primary resolve_key lookup id_of
sealed_reads_back {B = B} crypto sealing parsed s text e =
    let made = resolve_keys-IsResolved crypto parsed [] [] s e in
    (All-mono (opened crypto sealing s text) parsed made.found, made.ordered, first parsed made)
  where
    first :
        (ks : List (ParsedKey B))
        → IsResolved crypto ks [] [] s
        → get s.primary_key_id s.resolved_keys ≡ head? (map (resolve_key crypto) ks)
    first [] m = absurd (let empty = ap head? m.ordered in cc (m.primary, empty))
    first (k ∷ ks) m =
        let id : id_of crypto k ≡ s.primary_key_id =
          (let named = ap head? m.ordered in cc (m.primary, named)) in
        subst (λ j. get j s.resolved_keys ≡ some (resolve_key crypto k)) id m.found.0
