-- ===== src/Models.antt =====
-- client/include/nox/models.hpp and client/src/models.cpp: the records, Base64, the encrypted-name
-- container and the checks of the format. The JSON wire forms are in the modules below.
pub mod Base64
pub mod Wire
pub mod Uuid
pub mod Names
use nox_vault.Common.{
  ◌+◌, ℕ, ℤ, pos, suc, is_int, Text, Bytes, lit, message, eq_text, Bool, true, false, not, ◌&&◌,
  ◌||◌, Option, none, some, [], ◌∷◌, ◌++◌, ltb, ◌==◌, length, get_or, take, drop, if◌then◌else◌,
}
use nox_vault.Errors.{
  Error, crypto_error, api_compatibility_error, Result, ok, err, guard, or_throw, ◌>>=◌, ◌>>◌,
}
use nox_vault.Libraries.Sodium.{Sodium}

abbrev pub crypto_format_version : ℤ
crypto_format_version = pos 1

abbrev pub crypto_algorithm : Text
crypto_algorithm = lit "xchacha20poly1305"

pub record KdfParameters : Type 0 where
  pub algorithm : Text
  pub salt : Bytes
  pub ops_limit : ℕ
  pub mem_limit : ℕ

pub record EncryptedValue : Type 0 where
  pub version : ℤ
  pub algorithm : Text
  pub ciphertext : Bytes
  pub nonce : Bytes

pub record VaultMetadata : Type 0 where
  pub id : Text
  pub wrapped_key : EncryptedValue
  pub kdf : KdfParameters
  pub private_metadata : Bool

pub record SecretRecord : Type 0 where
  pub id : Text
  pub name : Option Text
  pub encrypted_name : Option EncryptedValue
  pub name_hash : Option Bytes
  pub value : EncryptedValue
  pub record_version : ℤ
  pub created_at : Option Text
  pub updated_at : Option Text

pub record AuthSession : Type 0 where
  pub access_token : Text
  pub user_id : Text
  pub email : Text
  pub expires_at : ℤ

module _ ⦃S : Sodium⦄ where
  unfoldable pub base64_encode : Bytes → Text
  base64_encode [] = []
  base64_encode (x ∷ xs) = S.bin2base64 (x ∷ xs)

  unfoldable pub base64_decode : Text → Result Bytes
  base64_decode [] = err (crypto_error (message "Invalid empty Base64 value"))
  base64_decode (c ∷ s) =
      or_throw (crypto_error (message "Invalid Base64 value")) (S.base642bin (c ∷ s))

unfoldable pub validate_format : ℤ → Text → Result (Unit {0})
validate_format version algorithm = do
  guard (is_int 1 version)
      (api_compatibility_error (message "Unsupported encrypted record version"))
  guard (eq_text algorithm crypto_algorithm)
      (api_compatibility_error (message "Unsupported encryption algorithm"))

-- 'N', 'X', 'N', 'M', 1
abbrev pub magic : Bytes
magic = b'N' ∷ b'X' ∷ b'N' ∷ b'M' ∷ 1 ∷ []

unfoldable pub pack_encrypted_name : EncryptedValue → Result Bytes
unfolding validate_format
pack_encrypted_name value = do
  validate_format value.version value.algorithm
  guard (length value.nonce == 24) (crypto_error (message "Invalid encrypted name nonce"))
  ok (magic ++ (value.nonce ++ value.ciphertext))

unfoldable pub has_name_magic : Bytes → Bool
has_name_magic value =
    not (ltb (length value) (5 + 24 + 16))
    && (get_or value 0 0 == b'N')
    && (get_or value 1 0 == b'X')
    && (get_or value 2 0 == b'N')
    && (get_or value 3 0 == b'M')
    && (get_or value 4 0 == 1)

unfoldable pub unpack_encrypted_name : Bytes → Result EncryptedValue
unfolding has_name_magic
unpack_encrypted_name value =
    if has_name_magic value
    then ok (record {
      version = crypto_format_version;
      algorithm = crypto_algorithm;
      ciphertext = drop 29 value;
      nonce = take 24 (drop 5 value);
    })
    else err (crypto_error (message "Invalid encrypted name format"))
