-- ===== src/Vault/Contents/Body.antt =====
-- The body of the request that updates a secret.
use nox_vault.Common.{
  subst, lit, arith, List, ◌≢◌, Text, ◌∷◌, ℤ, some, inr, inl, ◌≡◌, Bytes, Option, [], none,
}
use nox_vault.Vault.Secrets.{update_body}
use nox_vault.Models.{
  validate_format, pack_encrypted_name, base64_encode, EncryptedValue, SecretRecord,
}
use nox_vault.Models.Wire.{serialize_secret, value_fields}
use nox_vault.Libraries.Json.{JsonLib, assign, at-assign}
use nox_vault.Libraries.Sodium.{Random, Sodium}
use nox_vault.Effects.{Api}
use nox_vault.Errors.{ok, Result-cases}

module _ ⦃S : Sodium⦄ ⦃J : JsonLib⦄ where
  abbrev pub hash_member : Option Bytes → Option J.Json
  hash_member none = none
  hash_member (some h) = some (J.text (base64_encode h))

  -- The members that name the secret, public or encrypted.
  abbrev pub NamedAs : Option Text → Option EncryptedValue → Option Bytes → J.Json → Type 0
  NamedAs (some name) e h body =
      (J.at body (lit "name") ≡ some (J.text name))
      × (J.at body (lit "encrypted_name") ≡ some J.null)
  NamedAs none (some e) h body =
      (packed : Bytes) × (pack_encrypted_name e ≡ ok packed)
      × (J.at body (lit "name") ≡ some J.null)
      × (J.at body (lit "encrypted_name") ≡ some (J.text (base64_encode packed)))
      × (J.at body (lit "name_hash") ≡ hash_member h)
  NamedAs none none h body = ⊥

  -- The body carries the encrypted value `e`, the record version `v`, which the server compares, the
  -- name, the encrypted name or the hash, and no id.
  pub record Carries (name : Option Text) (encrypted_name : Option EncryptedValue)
      (hash : Option Bytes) (v : ℤ) (e : EncryptedValue) (body : J.Json) : Type 0 where
    pub ciphertext_at : J.at body (lit "ciphertext") ≡ some (J.text (base64_encode e.ciphertext))
    pub nonce_at : J.at body (lit "nonce") ≡ some (J.text (base64_encode e.nonce))
    pub algorithm_at : J.at body (lit "algorithm") ≡ some (J.text e.algorithm)
    pub version_at : J.at body (lit "version") ≡ some (J.int e.version)
    pub record_version_at : J.at body (lit "record_version") ≡ some (J.int v)
    pub no_id : J.at body (lit "id") ≡ none
    pub named_as : NamedAs name encrypted_name hash body

  abbrev numbered : ℤ → List (Text × J.Json) → List (Text × J.Json)
  numbered v l = (lit "record_version", J.int v) ∷ l

  abbrev public_puts : Text → List (Text × J.Json)
  public_puts name = (lit "encrypted_name", J.null) ∷ (lit "name", J.text name) ∷ []

  abbrev private_puts : Bytes → List (Text × J.Json)
  private_puts packed =
      (lit "encrypted_name", J.text (base64_encode packed)) ∷ (lit "name", J.null) ∷ []

  abbrev hashed_puts : Bytes → Bytes → List (Text × J.Json)
  hashed_puts packed hash = (lit "name_hash", J.text (base64_encode hash)) ∷ private_puts packed

  serialize_secret-unnamed :
      (e : EncryptedValue) (h : Option Bytes) (j : J.Json)
      → serialize_secret [] none none e h ≢ ok j
  unfolding serialize_secret validate_format
  serialize_secret-unnamed e h j s = ground arith

  serialize_secret-public :
      (name : Text) (p : Option EncryptedValue) (h : Option Bytes) (e : EncryptedValue) (j : J.Json)
      → serialize_secret [] (some name) p e h ≡ ok j
      → j ≡ assign (public_puts name) (value_fields e)
  unfolding serialize_secret validate_format
  serialize_secret-public name p h e j s = ground arith

  serialize_secret-hashed :
      (q e : EncryptedValue) (h : Bytes) (j : J.Json)
      → serialize_secret [] none (some q) e (some h) ≡ ok j
      → (packed : Bytes) × (pack_encrypted_name q ≡ ok packed)
        × (j ≡ assign (hashed_puts packed h) (value_fields e))
  unfolding serialize_secret validate_format
  serialize_secret-hashed q e h j s = elim (Result-cases (pack_encrypted_name q)) [
    | inl (packed, y) ↦ (packed, y, ground (arith, y, s))
    | inr (x, y) ↦ absurd (ground (arith, y, s))
  ]

  serialize_secret-private :
      (q e : EncryptedValue) (j : J.Json)
      → serialize_secret [] none (some q) e none ≡ ok j
      → (packed : Bytes) × (pack_encrypted_name q ≡ ok packed)
        × (j ≡ assign (private_puts packed) (value_fields e))
  unfolding serialize_secret validate_format
  serialize_secret-private q e j s = elim (Result-cases (pack_encrypted_name q)) [
    | inl (packed, y) ↦ (packed, y, ground (arith, y, s))
    | inr (x, y) ↦ absurd (ground (arith, y, s))
  ]

  carries :
      (n : Option Text) (p : Option EncryptedValue) (h : Option Bytes) (v : ℤ) (e : EncryptedValue)
      (j : J.Json)
      → serialize_secret [] n p e h ≡ ok j
      → Carries n p h v e (J.put j (lit "record_version") (J.int v))
  carries (some name) p h v e j s =
      let l = numbered v (public_puts name) in
      let m = value_fields e in
      rw (serialize_secret-public name p h e j s) (record {
        ciphertext_at = at-assign l m _;
        nonce_at = at-assign l m _;
        algorithm_at = at-assign l m _;
        version_at = at-assign l m _;
        record_version_at = at-assign l m _;
        no_id = at-assign l m _;
        named_as = (at-assign l m _, at-assign l m _);
      })
  carries none (some q) (some h) v e j s =
      let (packed, y, same) = serialize_secret-hashed q e h j s in
      let l = numbered v (hashed_puts packed h) in
      let m = value_fields e in
      rw same (record {
        ciphertext_at = at-assign l m _;
        nonce_at = at-assign l m _;
        algorithm_at = at-assign l m _;
        version_at = at-assign l m _;
        record_version_at = at-assign l m _;
        no_id = at-assign l m _;
        named_as = (packed, y, at-assign l m _, at-assign l m _, at-assign l m _);
      })
  carries none (some q) none v e j s =
      let (packed, y, same) = serialize_secret-private q e j s in
      let l = numbered v (private_puts packed) in
      let m = value_fields e in
      rw same (record {
        ciphertext_at = at-assign l m _;
        nonce_at = at-assign l m _;
        algorithm_at = at-assign l m _;
        version_at = at-assign l m _;
        record_version_at = at-assign l m _;
        no_id = at-assign l m _;
        named_as = (packed, y, at-assign l m _, at-assign l m _, at-assign l m _);
      })
  carries none none h v e j s = absurd (serialize_secret-unnamed e h j s)

module _ ⦃S : Sodium⦄ ⦃J : JsonLib⦄ ⦃R : Random⦄ ⦃A : Api⦄ where
  pub update_body-Carries :
      (r : SecretRecord) (e : EncryptedValue) (body : J.Json)
      → update_body r e ≡ ok body
      → Carries r.name r.encrypted_name r.name_hash r.record_version e body
  unfolding update_body
  update_body-Carries r e body h =
      elim (Result-cases (serialize_secret [] r.name r.encrypted_name e r.name_hash)) [
        | inl (j, s) ↦
            subst (Carries r.name r.encrypted_name r.name_hash r.record_version e)
              (ground (arith, s, h)) (carries _ _ _ r.record_version e j s)
        | inr (x, s) ↦ absurd (ground (arith, s, h))
      ]
