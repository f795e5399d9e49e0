-- ===== src/Vault.antt =====
-- client/src/vault_service.cpp: what its operations share. A member function that reads `user_id_`
-- takes it as its first argument. The password is a reference in `unlock`, which wipes the buffer of
-- its caller; the two buffers inside the predicate of `find` are wiped before it returns and are
-- not tracked.
pub mod Password
pub mod Secrets
pub mod Unlocked
pub mod Unlocking
pub mod Residue
pub mod Contents
use nox_vault.Models.Wire.{parse_vault, parse_secret}
use nox_vault.Crypto.{
  vault_key_aad, private_name_aad, decrypt, secret_aad, derive_kek, private_secret_aad,
}
use nox_vault.Models.{EncryptedValue, SecretRecord, VaultMetadata}
use nox_vault.Libraries.Json.{JsonLib}
use nox_vault.Libraries.Sodium.{Random, Sodium}
use nox_vault.Errors.{
  invalid_master_password, secret_not_found, is_crypto, server_error, or_throw, Error, ok, Result,
  err,
}
use nox_vault.Common.{
  message, lit, eq_text, Bytes, Option, Text, List, Bool, true, false, some, [], ◌++◌, ◌∷◌, none,
  if◌then◌else◌,
}
use nox_vault.Effects.{
  vault_key, password, kek, Api, Eff, lift, pure, throw, try_catch, hold, wipe, api_get, ◌>>=◌,
  ◌>>◌,
}

-- std::find_if with a predicate that may throw
unfoldable pub find_if : {X : Type 0} → (X → Result Bool) → List X → Result (Option X)
find_if p [] = ok none
find_if p (x ∷ xs) =
    let rest = find_if p xs in
    elim (p x) [ ok b ↦ (if b then ok (some x) else rest) | err e ↦ err e ]

module _ ⦃S : Sodium⦄ ⦃J : JsonLib⦄ where
  unfoldable pub parse_all : List J.Json → Result (List SecretRecord)
  parse_all [] = ok []
  parse_all (j ∷ js) = elim (parse_secret j) [
    | ok r ↦ elim (parse_all js) [ ok rs ↦ ok (r ∷ rs) | err e ↦ err e ]
    | err e ↦ err e
  ]

  same_name : Text → Result Bytes → Result Bool
  same_name name (ok p) = ok (eq_text p name)
  same_name name (err e) = err e

  matches_private : Text → Text → Option Bytes → Text → Option EncryptedValue → Result Bool
  unfolding same_name
  matches_private name vault_id none id e = ok false
  matches_private name vault_id (some key) id none = ok false
  matches_private name vault_id (some key) id (some e) =
      same_name name (decrypt e key (private_name_aad vault_id id))

  -- The predicate of `find`.
  unfoldable pub matches : Text → Text → Option Bytes → SecretRecord → Result Bool
  unfolding matches_private
  matches name vault_id key r = elim r.name [
    | some n ↦ ok (eq_text n name)
    | none ↦ matches_private name vault_id key r.id r.encrypted_name
  ]

  -- vault.private_metadata ? private_secret_aad(vault.id, record.id) : secret_aad(vault.id, name)
  abbrev pub record_aad : VaultMetadata → Text → Text → Text
  record_aad vault id name =
      if vault.private_metadata then private_secret_aad vault.id id else secret_aad vault.id name

module _ ⦃S : Sodium⦄ ⦃J : JsonLib⦄ ⦃R : Random⦄ ⦃A : Api⦄ where
  unfoldable pub metadata : Eff VaultMetadata
  metadata = do j ← api_get (lit "/vault"); lift (parse_vault j)

  unfoldable pub list : Eff (List SecretRecord)
  list = do
    body ← api_get (lit "/secrets")
    items ← lift (
        or_throw
          (server_error 0 (lit "invalid_response")
            (message "Server returned an invalid secret list"))
          (J.items body))
    lift (parse_all items)

  unlock_failed : {X : Type 0} → Error → Eff X
  unlock_failed e =
      if is_crypto e
      then (do
        wipe kek
        throw (
            invalid_master_password (
              message
                "Unable to decrypt vault: incorrect master password or corrupted vault metadata")))
      else throw e

  unfoldable pub unlock : Text → VaultMetadata → Text → Eff Bytes
  unfolding unlock_failed
  unlock user_id vault secret = do
    k ← lift (derive_kek secret vault.kdf)
    hold kek
    wipe password
    try_catch
        (do
          key ← lift (decrypt vault.wrapped_key k (vault_key_aad user_id))
          hold vault_key
          wipe kek
          pure key)
        unlock_failed

  unfoldable pub find : Text → VaultMetadata → Option Bytes → Eff SecretRecord
  find name vault key = do
    records ← list
    found ← lift (find_if (matches name vault.id key) records)
    lift (or_throw (secret_not_found (message "Secret not found: " ++ name)) found)

  not_found : Error → Eff Bool
  not_found (secret_not_found m) = pure false
  not_found e = throw e

  unfoldable pub contains_name : Text → VaultMetadata → Bytes → Eff Bool
  unfolding not_found
  contains_name name vault key = try_catch (do r ← find name vault (some key); pure true) not_found
