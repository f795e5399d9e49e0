-- ===== src/Crypto.antt =====
-- client/src/crypto_service.cpp: the checks around the calls of libsodium, and the additional data
-- that binds a ciphertext to its place. The random nonce of `encrypt` comes out of the state of the
-- generator, which is passed on.
pub mod Sealing
pub mod Aad
use nox_vault.Models.{crypto_algorithm, crypto_format_version, EncryptedValue, KdfParameters}
use nox_vault.Errors.{or_throw, guard, ◌>>◌, ◌>>=◌, crypto_error, Result, ok, err}
use nox_vault.Common.{
  leb, is_int, eq_text, message, length, Bytes, lit, ◌==◌, ◌^◌, if◌then◌else◌, Text, ◌-◌, ◌++◌,
  ◌&&◌, ℕ,
}
use nox_vault.Libraries.Sodium.{Random, Sodium}

-- crypto_aead_xchacha20poly1305_ietf_KEYBYTES, NPUBBYTES, ABYTES and crypto_pwhash_SALTBYTES
abbrev pub key_bytes : ℕ
key_bytes = 32

abbrev pub nonce_bytes : ℕ
nonce_bytes = 24

abbrev pub tag_bytes : ℕ
tag_bytes = 16

abbrev pub salt_bytes : ℕ
salt_bytes = 16

-- crypto_generichash_KEYBYTES; the comparison of `ops_limit`, of 64 bits, with the greatest
-- `unsigned long long` is a test of 64 bits as well.
abbrev pub hash_key_bytes : ℕ
hash_key_bytes = 32

module _ ⦃S : Sodium⦄ where
  unfoldable pub derive_kek : Text → KdfParameters → Result Bytes
  derive_kek password p = do
    guard
        (eq_text p.algorithm (lit "argon2id")
          && (length p.salt == salt_bytes)
          && leb p.ops_limit (2 ^ 64 - 1))
        (crypto_error (message "Invalid vault KDF parameters"))
    or_throw (crypto_error (message "Unable to derive the vault key encryption key"))
        (S.pwhash password p.salt p.ops_limit p.mem_limit key_bytes)

  -- `encrypt` with the nonce that was drawn.
  unfoldable pub encrypt_with : Bytes → Bytes → Bytes → Text → Result EncryptedValue
  encrypt_with nonce plaintext key aad = do
    c ←
        or_throw (crypto_error (message "Encryption failed"))
          (S.aead_encrypt plaintext aad nonce key)
    ok (record {
      version = crypto_format_version;
      algorithm = crypto_algorithm;
      ciphertext = c;
      nonce = nonce;
    })

  unfoldable pub decrypt : EncryptedValue → Bytes → Text → Result Bytes
  decrypt value key aad = do
    guard
        (is_int 1 value.version
          && eq_text value.algorithm crypto_algorithm
          && (length key == key_bytes)
          && (length value.nonce == nonce_bytes)
          && leb tag_bytes (length value.ciphertext))
        (crypto_error (message "Invalid encrypted value"))
    or_throw (crypto_error (message "Encrypted value authentication failed"))
        (S.aead_decrypt value.ciphertext aad value.nonce key)

  unfoldable pub private_name_hash : Text → Bytes → Result Bytes
  private_name_hash name key = do
    guard (length key == hash_key_bytes)
        (crypto_error (message "Invalid key for private name hash"))
    or_throw (crypto_error (message "Unable to hash private secret name")) (S.generichash name key)

module _ ⦃S : Sodium⦄ ⦃R : Random⦄ where
  unfoldable pub default_kdf : R.State → KdfParameters × R.State
  default_kdf s =
      let (salt, s') = R.buffer salt_bytes s in
      (
        record {
          algorithm = lit "argon2id";
          salt = salt;
          ops_limit = S.ops_interactive;
          mem_limit = S.mem_interactive;
        },
        s',
      )

  unfoldable pub random_vault_key : R.State → Bytes × R.State
  random_vault_key s = R.buffer key_bytes s

  encrypt_drawn : Bytes → Bytes → Text → Bytes × R.State → Result EncryptedValue × R.State
  encrypt_drawn plaintext key aad (nonce, s) = (encrypt_with nonce plaintext key aad, s)

  unfoldable pub encrypt : Bytes → Bytes → Text → R.State → Result EncryptedValue × R.State
  unfolding encrypt_drawn
  encrypt plaintext key aad s =
      if length key == key_bytes
      then encrypt_drawn plaintext key aad (R.buffer nonce_bytes s)
      else (err (crypto_error (message "Invalid encryption key")), s)

unfoldable pub vault_key_aad : Text → Text
vault_key_aad user_id = lit "nox:v1:vault-key:" ++ user_id

unfoldable pub secret_aad : Text → Text → Text
secret_aad vault_id name = lit "nox:v1:secret:" ++ (vault_id ++ (lit ":" ++ name))

unfoldable pub private_secret_aad : Text → Text → Text
private_secret_aad vault_id id = lit "nox:v1:private-secret:" ++ (vault_id ++ (lit ":" ++ id))

unfoldable pub private_name_aad : Text → Text → Text
private_name_aad vault_id id = lit "nox:v1:private-name:" ++ (vault_id ++ (lit ":" ++ id))

unfoldable pub backup_aad : Text → Text
backup_aad user_id = lit "nox:v1:backup:" ++ user_id
