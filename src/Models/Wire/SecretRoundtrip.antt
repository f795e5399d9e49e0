-- ===== src/Models/Wire/SecretRoundtrip.antt =====
-- Reading back a secret record that the client wrote, in both modes of the metadata.
use nox_vault.Models.Base64.{base64_decode-encode}
use nox_vault.Models.Names.{length-pack_encrypted_name, unpack_encrypted_name-pack_encrypted_name}
use nox_vault.Models.Wire.Roundtrip.{read_bytes-base64}
use nox_vault.Models.{
  base64_encode, crypto_algorithm, pack_encrypted_name, validate_format, EncryptedValue,
}
use nox_vault.Models.Wire.{value_fields, serialize_secret, parse_secret}
use nox_vault.Libraries.Json.{at-assign, assign, JsonLib}
use nox_vault.Libraries.Sodium.{Sodium}
use nox_vault.Errors.{ok}
use nox_vault.Common.{
  List, Option, ◌∷◌, [], arith, eq_text_iff, Bytes, lit, length, ℕ, Text, pos, ◌≤◌, ◌≡◌, some, none,
  ◌<◌, ◌^◌,
}

module _ ⦃S : Sodium⦄ ⦃J : JsonLib⦄ where
  -- The members of a secret in a response of the server that do not depend on the mode.
  record IsStored (j : J.Json) (id : Text) (value : EncryptedValue) (version : ℕ) : Type 0 where
    id_at : J.at j (lit "id") ≡ some (J.text id)
    ciphertext_at : J.at j (lit "ciphertext") ≡ some (J.text (base64_encode value.ciphertext))
    nonce_at : J.at j (lit "nonce") ≡ some (J.text (base64_encode value.nonce))
    algorithm_at : J.at j (lit "algorithm") ≡ some (J.text value.algorithm)
    version_at : J.at j (lit "version") ≡ some (J.int value.version)
    record_version_at : J.at j (lit "record_version") ≡ some (J.int (pos version))
    created_at : J.at j (lit "created_at") ≡ none
    updated_at : J.at j (lit "updated_at") ≡ none

  -- The values that the wire form carries back: buffers that are not empty, versions in range.
  pub record IsSendable (value : EncryptedValue) (version : ℕ) : Type 0 where
    pub ciphertext : 0 < length value.ciphertext
    pub nonce : 0 < length value.nonce
    pub format : value.version ≡ pos 1
    pub algorithm : value.algorithm ≡ crypto_algorithm
    pub in_range : version < 2 ^ 31

  parse_secret-public :
      (j : J.Json) (id name : Text) (value : EncryptedValue) (version : ℕ)
      → IsSendable value version
      → IsStored j id value version
      → J.at j (lit "name") ≡ some (J.text name)
      → J.at j (lit "encrypted_name") ≡ some J.null
      → J.at j (lit "name_hash") ≡ none
      → parse_secret j
        ≡ ok (record {
          id = id;
          name = some name;
          encrypted_name = none;
          name_hash = none;
          value = value;
          record_version = pos version;
          created_at = none;
          updated_at = none;
        })
  unfolding parse_secret validate_format
  parse_secret-public j id name value version w at n e h =
      simp
        (
          read_bytes-base64 j (lit "ciphertext") value.ciphertext at.ciphertext_at w.ciphertext,
          read_bytes-base64 j (lit "nonce") value.nonce at.nonce_at w.nonce,
          at.id_at,
          at.algorithm_at,
          at.version_at,
          at.record_version_at,
          at.created_at,
          at.updated_at,
          n,
          e,
          h,
          J.is_null-null,
          J.is_null-text,
          w.format,
          (eq_text_iff _ _).1 w.algorithm,
          J.as_text-text,
          J.as_int-int _ w.in_range,
          J.as_int-int 1 (omega arith),
        )
        (cc w.format)

  parse_secret-private :
      (j : J.Json) (id : Text) (name : EncryptedValue) (packed hash : Bytes)
      (value : EncryptedValue) (version : ℕ)
      → IsSendable value version
      → IsStored j id value version
      → 16 ≤ length name.ciphertext
      → 0 < length hash
      → pack_encrypted_name name ≡ ok packed
      → J.at j (lit "name") ≡ some J.null
      → J.at j (lit "encrypted_name") ≡ some (J.text (base64_encode packed))
      → J.at j (lit "name_hash") ≡ some (J.text (base64_encode hash))
      → parse_secret j
        ≡ ok (record {
          id = id;
          name = none;
          encrypted_name = some name;
          name_hash = some hash;
          value = value;
          record_version = pos version;
          created_at = none;
          updated_at = none;
        })
  unfolding parse_secret validate_format
  parse_secret-private j id name packed hash value version w at tag hashed p n e h =
      simp
        (
          read_bytes-base64 j (lit "ciphertext") value.ciphertext at.ciphertext_at w.ciphertext,
          read_bytes-base64 j (lit "nonce") value.nonce at.nonce_at w.nonce,
          base64_decode-encode packed (length-pack_encrypted_name name packed p),
          unpack_encrypted_name-pack_encrypted_name name packed tag p,
          base64_decode-encode hash hashed,
          at.id_at,
          at.algorithm_at,
          at.version_at,
          at.record_version_at,
          at.created_at,
          at.updated_at,
          n,
          e,
          h,
          J.is_null-null,
          J.is_null-text,
          w.format,
          (eq_text_iff _ _).1 w.algorithm,
          J.as_text-text,
          J.as_int-int _ w.in_range,
          J.as_int-int 1 (omega arith),
        )
        (cc w.format)

  serialize_secret-public :
      (id name : Text) (value : EncryptedValue) (hash : Option Bytes) (body : J.Json)
      → 0 < length id
      → serialize_secret id (some name) none value hash ≡ ok body
      → body
        ≡ J.put
            (J.put
              (J.put (J.object (value_fields value)) (lit "id") (J.text id))
              (lit "name")
              (J.text name))
            (lit "encrypted_name")
            J.null
  unfolding serialize_secret validate_format
  serialize_secret-public [] name value hash body h p = elim h [ ]
  serialize_secret-public (c ∷ id) name value hash body h p = ground arith

  serialize_secret-private :
      (id : Text) (name : EncryptedValue) (packed hash : Bytes) (value : EncryptedValue)
      (body : J.Json)
      → 0 < length id
      → pack_encrypted_name name ≡ ok packed
      → serialize_secret id none (some name) value (some hash) ≡ ok body
      → body
        ≡ J.put
            (J.put
              (J.put
                (J.put (J.object (value_fields value)) (lit "id") (J.text id))
                (lit "name")
                J.null)
              (lit "encrypted_name")
              (J.text (base64_encode packed)))
            (lit "name_hash")
            (J.text (base64_encode hash))
  unfolding serialize_secret validate_format
  serialize_secret-private [] name packed hash value body h q p = elim h [ ]
  serialize_secret-private (c ∷ id) name packed hash value body h q p = ground arith

  -- The assignments to the body, last first.
  abbrev public_puts : Text → Text → ℕ → List (Text × J.Json)
  public_puts id name version =
      (lit "record_version", J.int (pos version))
      ∷ (lit "encrypted_name", J.null)
      ∷ (lit "name", J.text name)
      ∷ (lit "id", J.text id)
      ∷ []

  abbrev private_puts : Text → Bytes → Bytes → ℕ → List (Text × J.Json)
  private_puts id packed hash version =
      (lit "record_version", J.int (pos version))
      ∷ (lit "name_hash", J.text (base64_encode hash))
      ∷ (lit "encrypted_name", J.text (base64_encode packed))
      ∷ (lit "name", J.null)
      ∷ (lit "id", J.text id)
      ∷ []

  -- A secret with a visible name, sent back by the server with a record version, reads as what was
  -- serialized. The identifier is not empty, and the value is of the supported format with versions
  -- in range.
  pub parse_secret-serialize_secret_public :
      (id name : Text) (value : EncryptedValue) (version : ℕ) (body : J.Json)
      → 0 < length id
      → IsSendable value version
      → serialize_secret id (some name) none value none ≡ ok body
      → parse_secret (J.put body (lit "record_version") (J.int (pos version)))
        ≡ ok (record {
          id = id;
          name = some name;
          encrypted_name = none;
          name_hash = none;
          value = value;
          record_version = pos version;
          created_at = none;
          updated_at = none;
        })
  parse_secret-serialize_secret_public id name value version body h w p =
      let l = public_puts id name version in
      let m = value_fields value in
      rw (serialize_secret-public id name value none body h p) (
        parse_secret-public (assign l m) id name value version w
          (record {
            id_at = at-assign l m _;
            ciphertext_at = at-assign l m _;
            nonce_at = at-assign l m _;
            algorithm_at = at-assign l m _;
            version_at = at-assign l m _;
            record_version_at = at-assign l m _;
            created_at = at-assign l m _;
            updated_at = at-assign l m _;
          })
          (at-assign l m _) (at-assign l m _) (at-assign l m _))

  -- A secret with an encrypted name and the hash of its name, sent back by the server with a record
  -- version, reads as what was serialized. The identifier and the hash are not empty, the ciphertext
  -- of the name holds a tag, and the value is of the supported format with versions in range.
  pub parse_secret-serialize_secret_private :
      (id : Text) (name : EncryptedValue) (packed hash : Bytes) (value : EncryptedValue)
      (version : ℕ) (body : J.Json)
      → 0 < length id
      → IsSendable value version
      → 16 ≤ length name.ciphertext
      → 0 < length hash
      → pack_encrypted_name name ≡ ok packed
      → serialize_secret id none (some name) value (some hash) ≡ ok body
      → parse_secret (J.put body (lit "record_version") (J.int (pos version)))
        ≡ ok (record {
          id = id;
          name = none;
          encrypted_name = some name;
          name_hash = some hash;
          value = value;
          record_version = pos version;
          created_at = none;
          updated_at = none;
        })
  parse_secret-serialize_secret_private id name packed hash value version body h w tag hashed q p =
      let l = private_puts id packed hash version in
      let m = value_fields value in
      rw (serialize_secret-private id name packed hash value body h q p) (
        parse_secret-private (assign l m) id name packed hash value version w
          (record {
            id_at = at-assign l m _;
            ciphertext_at = at-assign l m _;
            nonce_at = at-assign l m _;
            algorithm_at = at-assign l m _;
            version_at = at-assign l m _;
            record_version_at = at-assign l m _;
            created_at = at-assign l m _;
            updated_at = at-assign l m _;
          })
          tag hashed q (at-assign l m _) (at-assign l m _) (at-assign l m _))
