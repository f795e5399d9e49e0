-- ===== src/Backup/Documents.antt =====
-- The documents of a backup, and how an import reads them.
use nox_vault.Models.Wire.{parse_vault, vault_fields}
use nox_vault.Backup.{encrypted_json, parse_header_vault, parse_encrypted}
use nox_vault.Effects.{World, Api}
use nox_vault.Models.{crypto_algorithm, base64_encode, EncryptedValue, VaultMetadata}
use nox_vault.Errors.{ok}
use nox_vault.Libraries.Sodium.{Random, Sodium}
use nox_vault.Common.{some, arith, length, lit, Text, ◌∷◌, [], pos, ◌∙◌, ◌≡◌, ◌++◌, ◌<◌}
use nox_vault.Models.Wire.Roundtrip.{read_bytes-base64, IsWritten, IsStored, parse_vault-IsStored}
use nox_vault.Libraries.Json.{JsonLib}

module _ ⦃S : Sodium⦄ ⦃J : JsonLib⦄ where
  -- The document that is encrypted in a backup, and the one of the file.
  abbrev pub payload_of : VaultMetadata → J.Json → J.Json
  payload_of vault records = J.object (
      (lit "vault_id", J.text vault.id)
      ∷ (lit "private_metadata", J.bool vault.private_metadata)
      ∷ (lit "secrets", records)
      ∷ [])

  abbrev pub file_of : Text → VaultMetadata → EncryptedValue → J.Json
  file_of user_id vault encrypted = J.object (
      vault_fields vault.wrapped_key vault.kdf vault.private_metadata
      ++ ((lit "magic", J.text (lit "NOXBACKUP"))
          ∷ (lit "format_version", J.int (pos 1))
          ∷ (lit "source_user_id", J.text user_id)
          ∷ (lit "vault_id", J.text vault.id)
          ∷ (lit "encrypted_payload", encrypted_json encrypted)
          ∷ []))

  abbrev pub header_of : VaultMetadata → J.Json
  header_of vault = J.object (
      (lit "id", J.text vault.id)
      ∷ (lit "encrypted_vault_key", J.text (base64_encode vault.wrapped_key.ciphertext))
      ∷ (lit "vault_key_nonce", J.text (base64_encode vault.wrapped_key.nonce))
      ∷ (lit "kdf_salt", J.text (base64_encode vault.kdf.salt))
      ∷ (lit "kdf_algorithm", J.text vault.kdf.algorithm)
      ∷ (lit "kdf_ops_limit", J.number vault.kdf.ops_limit)
      ∷ (lit "kdf_mem_limit", J.number vault.kdf.mem_limit)
      ∷ (lit "private_metadata", J.bool vault.private_metadata)
      ∷ [])

  header_of-IsStored :
      (vault : VaultMetadata)
      → IsStored (header_of vault) vault.id vault.wrapped_key vault.kdf vault.private_metadata
  header_of-IsStored vault = record {
    id_at = J.at-object _ _;
    key_at = J.at-object _ _;
    nonce_at = J.at-object _ _;
    salt_at = J.at-object _ _;
    algorithm_at = J.at-object _ _;
    ops_at = J.at-object _ _;
    mem_at = J.at-object _ _;
    private_at = J.at-object _ _;
  }

module _ ⦃S : Sodium⦄ ⦃J : JsonLib⦄ ⦃R : Random⦄ ⦃A : Api⦄ where
  pub parse_header_vault-file :
      (user_id : Text) (vault : VaultMetadata) (e : EncryptedValue)
      → IsWritten vault.wrapped_key vault.kdf
      → vault.wrapped_key.version ≡ pos 1
      → vault.wrapped_key.algorithm ≡ crypto_algorithm
      → (w : World) → parse_header_vault (file_of user_id vault e) w ≡ (ok vault, w)
  unfolding parse_header_vault
  parse_header_vault-file user_id vault e h v a w =
      let parsed : parse_vault (header_of vault) ≡ ok vault =
        parse_vault-IsStored (header_of vault) vault.id vault.wrapped_key vault.kdf
          vault.private_metadata h (header_of-IsStored vault)
        ∙ ground (arith, v, a) in
      simp (J.at-object, parsed)

  pub parse_encrypted-encrypted_json :
      (e : EncryptedValue)
      → e.version ≡ pos 1
      → 0 < length e.ciphertext
      → 0 < length e.nonce
      → (w : World) → parse_encrypted (encrypted_json e) w ≡ (ok e, w)
  unfolding parse_encrypted encrypted_json
  parse_encrypted-encrypted_json e v c n w =
      let version : J.as_int (J.int e.version) ≡ some e.version =
        rw v (J.as_int-int 1 (omega arith)) in
      simp (
        J.at-object,
        J.as_text-text,
        version,
        read_bytes-base64 (encrypted_json e) (lit "ciphertext") e.ciphertext (J.at-object _ _) c,
        read_bytes-base64 (encrypted_json e) (lit "nonce") e.nonce (J.at-object _ _) n,
      )
