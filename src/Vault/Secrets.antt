-- ===== src/Vault/Secrets.antt =====
-- `add`, `get`, `update` and `remove` of client/src/vault_service.cpp, which take the password.
use nox_vault.Models.Uuid.{random_uuid}
use nox_vault.Models.Wire.{serialize_secret}
use nox_vault.Crypto.{
  secret_aad, private_secret_aad, decrypt, private_name_hash, encrypt, private_name_aad,
}
use nox_vault.Vault.{contains_name, record_aad, find, unlock, metadata}
use nox_vault.Models.{VaultMetadata, SecretRecord, EncryptedValue}
use nox_vault.Libraries.Json.{JsonLib}
use nox_vault.Libraries.Sodium.{Random, Sodium}
use nox_vault.Errors.{nox_error, Result, guard, Error, ok, err}
use nox_vault.Common.{
  lit, eq_text, not, message, Bytes, Text, some, [], ◌++◌, Option, none, if◌then◌else◌,
}
use nox_vault.Effects.{
  password, plaintext, vault_key, name_bytes, password, Api, Eff, lift, pure, throw, try_catch,
  draw, sure, hold, wipe, api_post, api_put, api_remove, ◌>>=◌, ◌>>◌,
}

-- The locals that carry the name of a new secret, and the additional data of its value.
pub record Naming : Type 0 where
  pub public_name : Option Text
  pub private_name : Option EncryptedValue
  pub name_hash : Option Bytes
  pub aad : Text

module _ ⦃S : Sodium⦄ ⦃J : JsonLib⦄ ⦃R : Random⦄ ⦃A : Api⦄ where
  -- The branch on `private_metadata`, in `add` and again in `add_unlocked`.
  unfoldable pub name_secret : Text → VaultMetadata → Bytes → Text → Eff Naming
  name_secret name vault key id =
      if vault.private_metadata
      then (do
        hold name_bytes
        sealed ← draw (encrypt name key (private_name_aad vault.id id))
        hash ← lift (private_name_hash name key)
        wipe name_bytes
        pure (record {
          public_name = none;
          private_name = some sealed;
          name_hash = some hash;
          aad = private_secret_aad vault.id id;
        }))
      else pure (record {
        public_name = some name;
        private_name = none;
        name_hash = none;
        aad = secret_aad vault.id name;
      })

  unfoldable pub exists_error : Error
  exists_error = nox_error (message "A secret with this name already exists")

  -- The handler of `add` and of `update`.
  unfoldable pub drop_plain_and_key : Error → Eff (Unit {0})
  drop_plain_and_key e = do wipe plaintext; wipe vault_key; throw e

  unfoldable pub add : Text → Text → Text → Text → Eff (Unit {0})
  unfolding exists_error drop_plain_and_key
  add user_id name plain secret = do
    hold password
    lift (guard (not (eq_text name [])) (nox_error (message "Secret name cannot be empty")))
    vault ← metadata
    key ← unlock user_id vault secret
    hold plaintext
    try_catch
        (do
          there ← contains_name name vault key
          lift (guard (not there) exists_error)
          id ← draw (sure random_uuid)
          naming ← name_secret name vault key id
          encrypted ← draw (encrypt plain key naming.aad)
          body ← lift (
              serialize_secret id naming.public_name naming.private_name encrypted naming.name_hash)
          api_post (lit "/secrets") body)
        drop_plain_and_key
    wipe plaintext
    wipe vault_key

  drop_key : {X : Type 0} → Error → Eff X
  drop_key e = do wipe vault_key; throw e

  unfoldable pub get : Text → Text → Text → Eff Text
  unfolding drop_key
  get user_id name secret = do
    hold password
    vault ← metadata
    key ← unlock user_id vault secret
    r ← find name vault (some key)
    plain ←
        try_catch
          (do p ← lift (decrypt r.value key (record_aad vault r.id name)); hold plaintext; pure p)
          drop_key
    wipe vault_key
    wipe plaintext
    pure plain

  -- body = serialize_secret("", ...); body["record_version"] = record.record_version
  unfoldable pub update_body : SecretRecord → EncryptedValue → Result J.Json
  update_body r encrypted =
      elim (serialize_secret [] r.name r.encrypted_name encrypted r.name_hash) [
        | ok body ↦ ok (J.put body (lit "record_version") (J.int r.record_version))
        | err e ↦ err e
      ]

  unfoldable pub update : Text → Text → Text → Text → Eff (Unit {0})
  unfolding drop_plain_and_key
  update user_id name plain secret = do
    hold password
    vault ← metadata
    key ← unlock user_id vault secret
    r ← find name vault (some key)
    hold plaintext
    try_catch
        (do
          encrypted ← draw (encrypt plain key (record_aad vault r.id name))
          body ← lift (update_body r encrypted)
          api_put (lit "/secrets/" ++ r.id) body)
        drop_plain_and_key
    wipe plaintext
    wipe vault_key

  unfoldable pub remove : Text → Eff (Unit {0})
  remove name = do
    vault ← metadata
    lift (
        guard (not vault.private_metadata)
          (nox_error (message "Private metadata vault must be unlocked before removing secrets")))
    r ← find name vault none
    api_remove (lit "/secrets/" ++ r.id)
