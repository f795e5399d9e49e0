-- ===== src/Models/Wire.antt =====
-- The JSON wire forms of client/src/models.cpp: reading a vault or a secret out of a response of
-- the server, and the bodies that the client posts.
pub mod Roundtrip
pub mod SecretRoundtrip
pub mod Rejects
use nox_vault.Common.{
  ◌||◌, same_bool, ℕ, ℤ, pos, ◌<◌, ◌^◌, ◌≡◌, refl, Text, Bytes, lit, message, eq_text, Bool, true,
  false, not, ◌&&◌, Option, none, some, List, [], ◌∷◌, ◌++◌, arith, is_some, lookup, if◌then◌else◌,
}
use nox_vault.Errors.{
  Error, crypto_error, api_compatibility_error, server_error, json_exception, is_json, is_crypto,
  Result, ok, err, guard, or_throw, rethrow, ◌>>=◌, ◌>>◌,
}
use nox_vault.Libraries.Sodium.{Sodium}
use nox_vault.Libraries.Json.{JsonLib}
use nox_vault.Models.{
  KdfParameters, EncryptedValue, VaultMetadata, SecretRecord, crypto_format_version,
  crypto_algorithm, base64_encode, base64_decode, validate_format, pack_encrypted_name,
  unpack_encrypted_name,
}

-- The catch clauses of both parsers: a JSON or a crypto exception becomes a server error.
abbrev pub invalid_response : Text → Error → Error
invalid_response m e =
    if is_json e || is_crypto e then server_error 0 (lit "invalid_response") m else e

module _ ⦃J : JsonLib⦄ where
  -- j.at(key).get<T>()
  abbrev pub read {ℓ} : {A : Type ℓ} → (J.Json → Option A) → J.Json → Text → Result A
  read get j key = do v ← or_throw json_exception (J.at j key); or_throw json_exception (get v)

  -- The value of `j.value(key, fallback)` for the member that was found.
  abbrev pub member_or {ℓ} : {A : Type ℓ} → (J.Json → Option A) → A → Option J.Json → Result A
  member_or get fallback none = ok fallback
  member_or get fallback (some v) = or_throw json_exception (get v)

  -- The test `!j.at(key).is_null()` on the member that was found.
  abbrev pub not_null : Option J.Json → Option J.Json
  not_null none = none
  not_null (some v) = if J.is_null v then none else some v

  -- j.contains(key) && !j.at(key).is_null()
  abbrev pub present : J.Json → Text → Option J.Json
  present j key = not_null (J.at j key)

  -- if (present) field = read(value);
  abbrev pub if_present {ℓ} : {A : Type ℓ} → (J.Json → Result A) → Option J.Json → Result (Option A)
  if_present get none = ok none
  if_present get (some v) = do a ← get v; ok (some a)

  abbrev pub text_of : J.Json → Result Text
  text_of v = or_throw json_exception (J.as_text v)

  abbrev pub optional_text : J.Json → Text → Result (Option Text)
  optional_text j key = if_present text_of (present j key)

module _ ⦃S : Sodium⦄ ⦃J : JsonLib⦄ where
  -- base64_decode(j.at(key).get<std::string>())
  unfoldable pub read_bytes : J.Json → Text → Result Bytes
  read_bytes j key = do t ← read J.as_text j key; base64_decode t

  unfoldable pub read_vault : J.Json → Result VaultMetadata
  read_vault j = do
    id ← read J.as_text j (lit "id")
    key ← read_bytes j (lit "encrypted_vault_key")
    nonce ← read_bytes j (lit "vault_key_nonce")
    algorithm ← read J.as_text j (lit "kdf_algorithm")
    salt ← read_bytes j (lit "kdf_salt")
    ops ← read J.as_u64 j (lit "kdf_ops_limit")
    mem ← read J.as_u64 j (lit "kdf_mem_limit")
    private_metadata ← member_or J.as_bool false (J.at j (lit "private_metadata"))
    guard (eq_text algorithm (lit "argon2id"))
        (api_compatibility_error (message "Unsupported KDF algorithm"))
    ok (record {
      id = id;
      wrapped_key = record {
        version = crypto_format_version;
        algorithm = crypto_algorithm;
        ciphertext = key;
        nonce = nonce;
      };
      kdf = record { algorithm = algorithm; salt = salt; ops_limit = ops; mem_limit = mem };
      private_metadata = private_metadata;
    })

  unfoldable pub parse_vault : J.Json → Result VaultMetadata
  unfolding read_vault
  parse_vault j =
      rethrow (invalid_response (message "Server returned invalid vault metadata")) (read_vault j)

  bytes_of : J.Json → Result Bytes
  bytes_of v = do t ← text_of v; base64_decode t

  name_of : J.Json → Result EncryptedValue
  unfolding bytes_of
  name_of v = do b ← bytes_of v; unpack_encrypted_name b

  read_secret : J.Json → Result SecretRecord
  unfolding name_of
  read_secret j = do
    id ← read J.as_text j (lit "id")
    name ← optional_text j (lit "name")
    encrypted_name ← if_present name_of (present j (lit "encrypted_name"))
    name_hash ← if_present bytes_of (present j (lit "name_hash"))
    guard (not (same_bool (is_some name) (is_some encrypted_name)))
        (crypto_error (message "Invalid secret metadata mode"))
    version ← read J.as_int j (lit "version")
    algorithm ← read J.as_text j (lit "algorithm")
    ciphertext ← read_bytes j (lit "ciphertext")
    nonce ← read_bytes j (lit "nonce")
    record_version ← read J.as_int j (lit "record_version")
    created_at ← optional_text j (lit "created_at")
    updated_at ← optional_text j (lit "updated_at")
    validate_format version algorithm
    ok (record {
      id = id;
      name = name;
      encrypted_name = encrypted_name;
      name_hash = name_hash;
      value = record {
        version = version;
        algorithm = algorithm;
        ciphertext = ciphertext;
        nonce = nonce;
      };
      record_version = record_version;
      created_at = created_at;
      updated_at = updated_at;
    })

  unfoldable pub parse_secret : J.Json → Result SecretRecord
  unfolding read_secret
  parse_secret j =
      rethrow (invalid_response (message "Server returned an invalid secret record"))
        (read_secret j)

  -- The members of the body of `serialize_vault_create`.
  abbrev pub vault_fields : EncryptedValue → KdfParameters → Bool → List (Text × J.Json)
  vault_fields key kdf private_metadata =
      (lit "encrypted_vault_key", J.text (base64_encode key.ciphertext))
      ∷ (lit "vault_key_nonce", J.text (base64_encode key.nonce))
      ∷ (lit "kdf_salt", J.text (base64_encode kdf.salt))
      ∷ (lit "kdf_algorithm", J.text kdf.algorithm)
      ∷ (lit "kdf_ops_limit", J.number kdf.ops_limit)
      ∷ (lit "kdf_mem_limit", J.number kdf.mem_limit)
      ∷ (lit "private_metadata", J.bool private_metadata)
      ∷ []

  unfoldable pub serialize_vault_create : EncryptedValue → KdfParameters → Bool → Result J.Json
  serialize_vault_create key kdf private_metadata = do
    validate_format key.version key.algorithm
    ok (J.object (vault_fields key kdf private_metadata))

  abbrev pub value_fields : EncryptedValue → List (Text × J.Json)
  value_fields value =
      (lit "ciphertext", J.text (base64_encode value.ciphertext))
      ∷ (lit "nonce", J.text (base64_encode value.nonce))
      ∷ (lit "algorithm", J.text value.algorithm)
      ∷ (lit "version", J.int value.version)
      ∷ []

  -- if (!id.empty()) result["id"] = id;
  abbrev with_id : Text → J.Json → J.Json
  with_id [] j = j
  with_id (c ∷ id) j = J.put j (lit "id") (J.text (c ∷ id))

  with_hash : Option Bytes → J.Json → J.Json
  with_hash none j = j
  with_hash (some h) j = J.put j (lit "name_hash") (J.text (base64_encode h))

  with_name : Option Text → Option EncryptedValue → Option Bytes → J.Json → Result J.Json
  unfolding with_hash
  with_name (some name) encrypted_name name_hash j =
      ok (J.put (J.put j (lit "name") (J.text name)) (lit "encrypted_name") J.null)
  with_name none (some e) name_hash j = do
    packed ← pack_encrypted_name e
    ok (
        with_hash name_hash (
          J.put (J.put j (lit "name") J.null) (lit "encrypted_name")
            (J.text (base64_encode packed))))
  with_name none none name_hash j = err (crypto_error (message "Secret name is missing"))

  unfoldable pub serialize_secret :
      Text → Option Text → Option EncryptedValue → EncryptedValue → Option Bytes → Result J.Json
  unfolding with_name
  serialize_secret id name encrypted_name value name_hash = do
    validate_format value.version value.algorithm
    with_name name encrypted_name name_hash (with_id id (J.object (value_fields value)))
