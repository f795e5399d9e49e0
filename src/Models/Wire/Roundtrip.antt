-- ===== src/Models/Wire/Roundtrip.antt =====
-- Reading back what the client wrote: the vault header and a secret record.
use nox_vault.Common.{arith, eq_text_iff, pos, ◌^◌, lit, some, ◌≡◌, length, Bool, Bytes, Text, ◌<◌}
use nox_vault.Errors.{ok}
use nox_vault.Libraries.Json.{JsonLib}
use nox_vault.Libraries.Sodium.{Sodium}
use nox_vault.Models.{
  validate_format, crypto_algorithm, base64_encode, KdfParameters, EncryptedValue,
}
use nox_vault.Models.Base64.{base64_decode-encode}
use nox_vault.Models.Wire.{serialize_vault_create, read_bytes, parse_vault, vault_fields}

-- A wrapped key and the parameters of its derivation that fit the wire form.
pub record IsWritten (key : EncryptedValue) (kdf : KdfParameters) : Type 0 where
  pub ciphertext : 0 < length key.ciphertext
  pub nonce : 0 < length key.nonce
  pub salt : 0 < length kdf.salt
  pub algorithm : kdf.algorithm ≡ lit "argon2id"
  pub ops : kdf.ops_limit < 2 ^ 64
  pub mem : kdf.mem_limit < 2 ^ 64

module _ ⦃S : Sodium⦄ ⦃J : JsonLib⦄ where
  pub read_bytes-base64 :
      (j : J.Json) (k : Text) (b : Bytes)
      → J.at j k ≡ some (J.text (base64_encode b))
      → 0 < length b
      → read_bytes j k ≡ ok b
  unfolding read_bytes
  read_bytes-base64 j k b e h = simp (e, J.as_text-text, base64_decode-encode b h)

  -- The members of a vault in a response of the server, which may hold others beside them.
  pub record IsStored (j : J.Json) (id : Text) (key : EncryptedValue) (kdf : KdfParameters)
      (private_metadata : Bool) : Type 0 where
    pub id_at : J.at j (lit "id") ≡ some (J.text id)
    pub key_at : J.at j (lit "encrypted_vault_key") ≡ some (J.text (base64_encode key.ciphertext))
    pub nonce_at : J.at j (lit "vault_key_nonce") ≡ some (J.text (base64_encode key.nonce))
    pub salt_at : J.at j (lit "kdf_salt") ≡ some (J.text (base64_encode kdf.salt))
    pub algorithm_at : J.at j (lit "kdf_algorithm") ≡ some (J.text kdf.algorithm)
    pub ops_at : J.at j (lit "kdf_ops_limit") ≡ some (J.number kdf.ops_limit)
    pub mem_at : J.at j (lit "kdf_mem_limit") ≡ some (J.number kdf.mem_limit)
    pub private_at : J.at j (lit "private_metadata") ≡ some (J.bool private_metadata)

  pub parse_vault-IsStored :
      (j : J.Json) (id : Text) (key : EncryptedValue) (kdf : KdfParameters)
      (private_metadata : Bool)
      → IsWritten key kdf
      → IsStored j id key kdf private_metadata
      → parse_vault j
        ≡ ok (record {
          id = id;
          wrapped_key = record key { version = pos 1; algorithm = crypto_algorithm };
          kdf = kdf;
          private_metadata = private_metadata;
        })
  unfolding parse_vault
  parse_vault-IsStored j id key kdf pm w at = simp (
    read_bytes-base64 j (lit "encrypted_vault_key") key.ciphertext at.key_at w.ciphertext,
    read_bytes-base64 j (lit "vault_key_nonce") key.nonce at.nonce_at w.nonce,
    read_bytes-base64 j (lit "kdf_salt") kdf.salt at.salt_at w.salt,
    at.id_at,
    at.algorithm_at,
    at.ops_at,
    at.mem_at,
    at.private_at,
    J.as_text-text,
    J.as_u64-number _ w.ops,
    J.as_u64-number _ w.mem,
    J.as_bool-bool,
    (eq_text_iff _ _).1 w.algorithm,
  )

  pub serialize_vault_create-ok :
      (key : EncryptedValue) (kdf : KdfParameters) (private_metadata : Bool) (body : J.Json)
      → serialize_vault_create key kdf private_metadata ≡ ok body
      → (key.version ≡ pos 1)
        × (key.algorithm ≡ crypto_algorithm)
        × (body ≡ J.object (vault_fields key kdf private_metadata))
  unfolding serialize_vault_create validate_format
  serialize_vault_create-ok key kdf pm body h =
      ground (arith, eq_text_iff key.algorithm crypto_algorithm)

  put_id-IsStored :
      (id : Text) (key : EncryptedValue) (kdf : KdfParameters) (private_metadata : Bool)
      → IsStored
          (J.put (J.object (vault_fields key kdf private_metadata)) (lit "id") (J.text id))
          id
          key
          kdf
          private_metadata
  put_id-IsStored id key kdf pm =
      let o = J.is_object-object (vault_fields key kdf pm) in
      record {
        id_at = simp (J.at-put _ _ _ _ o);
        key_at = simp (J.at-put _ _ _ _ o, J.at-object);
        nonce_at = simp (J.at-put _ _ _ _ o, J.at-object);
        salt_at = simp (J.at-put _ _ _ _ o, J.at-object);
        algorithm_at = simp (J.at-put _ _ _ _ o, J.at-object);
        ops_at = simp (J.at-put _ _ _ _ o, J.at-object);
        mem_at = simp (J.at-put _ _ _ _ o, J.at-object);
        private_at = simp (J.at-put _ _ _ _ o, J.at-object);
      }

  -- The body that creates a vault, sent back by the server with the identifier of the vault, reads
  -- as the wrapped key, the parameters and the mode that were serialized.
  pub parse_vault-serialize_vault_create :
      (id : Text) (key : EncryptedValue) (kdf : KdfParameters) (private_metadata : Bool)
      (body : J.Json)
      → IsWritten key kdf
      → serialize_vault_create key kdf private_metadata ≡ ok body
      → parse_vault (J.put body (lit "id") (J.text id))
        ≡ ok (record { id = id; wrapped_key = key; kdf = kdf; private_metadata = private_metadata })
  parse_vault-serialize_vault_create id key kdf pm body w h =
      let (v, a, b) = serialize_vault_create-ok key kdf pm body h in
      rw (b, parse_vault-IsStored _ id key kdf pm w (put_id-IsStored id key kdf pm)) (cc (v, a))
