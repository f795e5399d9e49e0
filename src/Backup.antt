-- ===== src/Backup.antt =====
-- client/src/backup_service.cpp. The document of the file takes the place of the file: `export_file`
-- returns the one that it writes, and `import_file` takes the size of the file, `none` where it
-- cannot be read, and the document, `none` where it does not parse.
pub mod Rejects
pub mod Documents
pub mod Exporting
pub mod Restoring
use nox_vault.Common.{
  eq_text, is_int, length, ltb, message, leb, ◌*◌, ℕ, some, pos, Text, Bytes, if◌then◌else◌, ◌++◌,
  ◌∷◌, [], Bool, false, lit, ◌&&◌, none, Option,
}
use nox_vault.Effects.{
  Api, Eff, lift, pure, throw, try_catch, draw, hold, wipe, api_get, api_post, ◌>>=◌, ◌>>◌,
  password, kek, vault_key, plaintext,
}
use nox_vault.Crypto.{derive_kek, decrypt, encrypt, vault_key_aad, backup_aad}
use nox_vault.Errors.{
  or_throw, guard, json_exception, is_json, nox_error, invalid_master_password, Error, Result, ok,
  err,
}
use nox_vault.Libraries.Json.{JsonLib}
use nox_vault.Libraries.Sodium.{Random, Sodium}
use nox_vault.Models.{EncryptedValue, VaultMetadata, base64_encode}
use nox_vault.Models.Wire.{read, read_bytes, parse_vault, serialize_vault_create, vault_fields}

abbrev pub max_backup_size : ℕ
max_backup_size = 64 * 1024 * 1024

abbrev pub max_records : ℕ
max_records = 10000

module _ ⦃S : Sodium⦄ ⦃J : JsonLib⦄ where
  unfoldable pub encrypted_json : EncryptedValue → J.Json
  encrypted_json e = J.object (
      (lit "version", J.int e.version)
      ∷ (lit "algorithm", J.text e.algorithm)
      ∷ (lit "nonce", J.text (base64_encode e.nonce))
      ∷ (lit "ciphertext", J.text (base64_encode e.ciphertext))
      ∷ [])

  -- j.at(key), with the exception of the library
  abbrev pub part : J.Json → Text → Result J.Json
  part j k = or_throw json_exception (J.at j k)

  unfoldable pub few : J.Json → Bool
  few j = elim (J.items j) [ none ↦ false | some l ↦ leb (length l) max_records ]

module _ ⦃S : Sodium⦄ ⦃J : JsonLib⦄ ⦃R : Random⦄ ⦃A : Api⦄ where
  unfoldable pub parse_encrypted : J.Json → Eff EncryptedValue
  parse_encrypted j = do
    version ← lift (read J.as_int j (lit "version"))
    algorithm ← lift (read J.as_text j (lit "algorithm"))
    ciphertext ← lift (read_bytes j (lit "ciphertext"))
    nonce ← lift (read_bytes j (lit "nonce"))
    pure (record {
      version = version;
      algorithm = algorithm;
      ciphertext = ciphertext;
      nonce = nonce;
    })

  unfoldable pub parse_header_vault : J.Json → Eff VaultMetadata
  parse_header_vault h = do
    id ← lift (part h (lit "vault_id"))
    key ← lift (part h (lit "encrypted_vault_key"))
    nonce ← lift (part h (lit "vault_key_nonce"))
    salt ← lift (part h (lit "kdf_salt"))
    algorithm ← lift (part h (lit "kdf_algorithm"))
    ops ← lift (part h (lit "kdf_ops_limit"))
    mem ← lift (part h (lit "kdf_mem_limit"))
    private_metadata ← lift (part h (lit "private_metadata"))
    lift (
        parse_vault (
          J.object (
            (lit "id", id)
            ∷ (lit "encrypted_vault_key", key)
            ∷ (lit "vault_key_nonce", nonce)
            ∷ (lit "kdf_salt", salt)
            ∷ (lit "kdf_algorithm", algorithm)
            ∷ (lit "kdf_ops_limit", ops)
            ∷ (lit "kdf_mem_limit", mem)
            ∷ (lit "private_metadata", private_metadata)
            ∷ [])))

  -- catch (...) around the unwrapping of the vault key
  refused : Text → Error → Eff Bytes
  refused text e = do wipe kek; throw (invalid_master_password text)

  unfoldable pub open_vault : Text → VaultMetadata → Text → Text → Eff Bytes
  unfolding refused
  open_vault user_id vault secret text = do
    k ← lift (derive_kek secret vault.kdf)
    hold kek
    wipe password
    key ← try_catch (lift (decrypt vault.wrapped_key k (vault_key_aad user_id))) (refused text)
    hold vault_key
    wipe kek
    pure key

  check_records : J.Json → Eff (Unit {0})
  check_records records = if few records then pure tt else (do
    wipe vault_key
    throw (nox_error (message "Server returned an invalid backup record set")))

  unfoldable pub export_file : Text → Text → Eff J.Json
  unfolding check_records few
  export_file user_id secret = do
    hold password
    found ← api_get (lit "/vault")
    vault ← lift (parse_vault found)
    key ← open_vault user_id vault secret (message "Unable to unlock vault for export")
    records ← api_get (lit "/secrets")
    check_records records
    let raw : Text = J.dump (
        J.object (
          (lit "vault_id", J.text vault.id)
          ∷ (lit "private_metadata", J.bool vault.private_metadata)
          ∷ (lit "secrets", records)
          ∷ []))
    hold plaintext
    encrypted ← draw (encrypt raw key (backup_aad user_id))
    wipe plaintext
    wipe vault_key
    wrapped ← lift (serialize_vault_create vault.wrapped_key vault.kdf vault.private_metadata)
    pure (
        J.object (
          vault_fields vault.wrapped_key vault.kdf vault.private_metadata
          ++ ((lit "magic", J.text (lit "NOXBACKUP"))
              ∷ (lit "format_version", J.int (pos 1))
              ∷ (lit "source_user_id", J.text user_id)
              ∷ (lit "vault_id", J.text vault.id)
              ∷ (lit "encrypted_payload", encrypted_json encrypted)
              ∷ [])))

  parse_payload : Bytes → Eff J.Json
  parse_payload plain = elim (J.parse plain) [
    | none ↦ (do wipe plaintext; throw (nox_error (message "Backup payload is malformed")))
    | some j ↦ pure j
  ]

  -- The handler of the outer try block.
  missing : Error → Eff (Unit {0})
  missing e =
      throw (if is_json e then nox_error (message "Backup file is missing required fields") else e)

  require : Bool → Text → Eff (Unit {0})
  require good text = lift (guard good (nox_error text))

  unfoldable pub restore : Text → J.Json → Text → Bool → Eff (Unit {0})
  unfolding parse_payload require few
  restore user_id file secret replace = do
    magic ← lift (part file (lit "magic"))
    require (J.same magic (J.text (lit "NOXBACKUP"))) (message "Unsupported backup format")
    version ← lift (read J.as_int file (lit "format_version"))
    require (is_int 1 version) (message "Unsupported backup format")
    source ← lift (read J.as_text file (lit "source_user_id"))
    require (eq_text source user_id) (message "Backup belongs to a different account")
    vault ← parse_header_vault file
    key ← open_vault user_id vault secret (message "Unable to unlock backup")
    sealed ← lift (part file (lit "encrypted_payload"))
    encrypted ← parse_encrypted sealed
    plain ← lift (decrypt encrypted key (backup_aad user_id))
    hold plaintext
    wipe vault_key
    payload ← parse_payload plain
    wipe plaintext
    id ← lift (part payload (lit "vault_id"))
    require (J.same id (J.text vault.id)) (message "Backup payload metadata is inconsistent")
    private_metadata ← lift (part payload (lit "private_metadata"))
    require (J.same private_metadata (J.bool vault.private_metadata))
        (message "Backup payload metadata is inconsistent")
    secrets ← lift (part payload (lit "secrets"))
    require (few secrets) (message "Backup payload metadata is inconsistent")
    body ← lift (serialize_vault_create vault.wrapped_key vault.kdf vault.private_metadata)
    let b1 = J.put body (lit "format_version") (J.int (pos 1))
    let b2 = J.put b1 (lit "source_user_id") (J.text user_id)
    let b3 = J.put b2 (lit "vault_id") (J.text vault.id)
    let b4 = J.put b3 (lit "replace") (J.bool replace)
    api_post (lit "/restore") (J.put b4 (lit "secrets") secrets)

  size_fits : Option ℕ → Bool
  size_fits none = false
  size_fits (some n) = ltb 0 n && leb n max_backup_size

  unfoldable pub import_file : Text → Option ℕ → Option J.Json → Text → Bool → Eff (Unit {0})
  unfolding size_fits require missing
  import_file user_id size document secret replace = do
    hold password
    require (size_fits size) (message "Backup file has an invalid size")
    file ← lift (or_throw (nox_error (message "Backup file is not valid JSON")) document)
    try_catch (restore user_id file secret replace) missing
