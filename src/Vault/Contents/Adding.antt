-- ===== src/Vault/Contents/Adding.antt =====
-- Adding a secret adds an entry to the contents.
pub mod Posting
use nox_vault.Models.Names.{pack-ok}
use nox_vault.Models.Wire.SecretRoundtrip.{
  parse_secret-serialize_secret_public, parse_secret-serialize_secret_private, IsSendable,
}
use nox_vault.Crypto.Sealing.{decrypt-encrypt, encrypt-IsSealed, IsSealed}
use nox_vault.Models.Wire.{serialize_secret, parse_secret}
use nox_vault.Errors.{ok}
use nox_vault.Models.{magic, SecretRecord, EncryptedValue, VaultMetadata}
use nox_vault.Crypto.{
  private_secret_aad, private_name_aad, secret_aad, decrypt, encrypt, private_name_hash,
}
use nox_vault.Models.Uuid.{length-uuid_text, random_uuid}
use nox_vault.Common.{
  lit, arith, Option-cases, ℕ, length, List, Text, none, inl, ◌≡◌, [], refl, ◌^◌, some, ◌++◌, ◌<◌,
  false, Bytes, inr, pos, ◌∷◌, true,
}
use nox_vault.Vault.{record_aad}
use nox_vault.Vault.Contents.{Holds}
use nox_vault.Vault.Unlocked.{name_in}
use nox_vault.Libraries.Json.{JsonLib}
use nox_vault.Libraries.Sodium.{Random, Sodium}

module _ ⦃S : Sodium⦄ ⦃J : JsonLib⦄ where
  Holds-append :
      (vault : VaultMetadata) (key : Bytes) (rs : List SecretRecord) (m : List (Text × Bytes))
      (r : SecretRecord) (name : Text) (plain : Bytes)
      → Holds vault key rs m
      → name_in vault.id key r ≡ ok name
      → decrypt r.value key (record_aad vault r.id name) ≡ ok plain
      → Holds vault key (rs ++ (r ∷ [])) (m ++ ((name, plain) ∷ []))
  unfolding Holds
  Holds-append vault key [] [] r name plain h a b = (a, b, tt)
  Holds-append vault key (q ∷ rs) ((n, p) ∷ m) r name plain (x, y, h) a b =
      (x, y, Holds-append vault key rs m r name plain h a b)
  Holds-append vault key [] (e ∷ m) r name plain h a b = elim h [ ]
  Holds-append vault key (q ∷ rs) [] r name plain h a b = elim h [ ]

  -- What the server sends back for a body that was posted, with a record version: the new record,
  -- which adds an entry.
  unfoldable pub AddsEntry :
      VaultMetadata
      → Bytes
      → List SecretRecord
      → List (Text × Bytes)
      → Text
      → Bytes
      → ℕ
      → J.Json
      → Type 0
  AddsEntry vault key rs m name plain version body =
      (r : SecretRecord) × (parse_secret (J.put body (lit "record_version") (J.int (pos version)))
        ≡ ok r)
      × Holds vault key (rs ++ (r ∷ [])) (m ++ ((name, plain) ∷ []))

  sealed-IsSendable :
      (plain : Bytes) (e : EncryptedValue) (version : ℕ)
      → IsSealed plain e
      → version < 2 ^ 31
      → IsSendable e version
  sealed-IsSendable plain e version s h = record {
    ciphertext = omega (arith, s.ciphertext);
    nonce = omega (arith, s.nonce);
    format = s.version;
    algorithm = s.algorithm;
    in_range = h;
  }

module _ ⦃S : Sodium⦄ where
  length-private_name_hash :
      (name : Text) (key hash : Bytes) → private_name_hash name key ≡ ok hash → 0 < length hash
  unfolding private_name_hash
  length-private_name_hash name key hash g = elim (Option-cases (S.generichash name key)) [
    | inl q ↦ absurd (ground (arith, q))
    | inr (k, q) ↦ ground (arith, q, S.length-generichash name key k q)
  ]

module _ ⦃S : Sodium⦄ ⦃J : JsonLib⦄ ⦃R : Random⦄ where
  length-random_uuid : (s : R.State) → 0 < length (random_uuid s).0
  unfolding random_uuid
  length-random_uuid s = length-uuid_text (R.buffer 16 s).0 (R.length-buffer 16 s)

  public-AddsEntry :
      (vault : VaultMetadata) (key : Bytes) (rs : List SecretRecord) (m : List (Text × Bytes))
      (name id : Text) (plain : Bytes) (s s' : R.State) (e : EncryptedValue) (body : J.Json)
      (version : ℕ)
      → version < 2 ^ 31
      → vault.private_metadata ≡ false
      → Holds vault key rs m
      → 0 < length id
      → encrypt plain key (secret_aad vault.id name) s ≡ (ok e, s')
      → serialize_secret id (some name) none e none ≡ ok body
      → AddsEntry vault key rs m name plain version body
  unfolding AddsEntry name_in
  public-AddsEntry vault key rs m name id plain s s' e body version v pm h i c b =
      let r : SecretRecord = record {
        id = id;
        name = some name;
        encrypted_name = none;
        name_hash = none;
        value = e;
        record_version = pos version;
        created_at = none;
        updated_at = none;
      } in
      let sealed = encrypt-IsSealed plain key (secret_aad vault.id name) s s' e c in
      (
        r,
        parse_secret-serialize_secret_public id name e version body i
            (sealed-IsSendable plain e version sealed v) b,
        Holds-append vault key rs m r name plain h refl
            (rw pm (decrypt-encrypt plain key (secret_aad vault.id name) s s' e c)),
      )

  private-AddsEntry :
      (vault : VaultMetadata) (key : Bytes) (rs : List SecretRecord) (m : List (Text × Bytes))
      (name id : Text) (plain hash : Bytes) (z z' s s' : R.State) (n e : EncryptedValue)
      (body : J.Json) (version : ℕ)
      → version < 2 ^ 31
      → vault.private_metadata ≡ true
      → Holds vault key rs m
      → 0 < length id
      → encrypt name key (private_name_aad vault.id id) z ≡ (ok n, z')
      → private_name_hash name key ≡ ok hash
      → encrypt plain key (private_secret_aad vault.id id) s ≡ (ok e, s')
      → serialize_secret id none (some n) e (some hash) ≡ ok body
      → AddsEntry vault key rs m name plain version body
  unfolding AddsEntry name_in
  private-AddsEntry vault key rs m name id plain hash z z' s s' n e body version v pm h i d g c b =
      let r : SecretRecord = record {
        id = id;
        name = none;
        encrypted_name = some n;
        name_hash = some hash;
        value = e;
        record_version = pos version;
        created_at = none;
        updated_at = none;
      } in
      let named = encrypt-IsSealed name key (private_name_aad vault.id id) z z' n d in
      let sealed = encrypt-IsSealed plain key (private_secret_aad vault.id id) s s' e c in
      (
        r,
        parse_secret-serialize_secret_private id n (magic ++ (n.nonce ++ n.ciphertext)) hash e
            version body i (sealed-IsSendable plain e version sealed v)
            (omega (arith, named.ciphertext)) (length-private_name_hash name key hash g)
            (pack-ok n named.version named.algorithm named.nonce) b,
        Holds-append vault key rs m r name plain h
            (decrypt-encrypt name key (private_name_aad vault.id id) z z' n d)
            (rw pm (decrypt-encrypt plain key (private_secret_aad vault.id id) s s' e c)),
      )
