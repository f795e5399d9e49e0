-- ===== src/Vault/Password.antt =====
-- `initialize`, `unlock_with_password` and `rotate_password` of client/src/vault_service.cpp.
use nox_vault.Models.Wire.{serialize_vault_create}
use nox_vault.Crypto.{vault_key_aad, encrypt, derive_kek, random_vault_key, default_kdf}
use nox_vault.Vault.{unlock, metadata}
use nox_vault.Common.{lit, Bytes, Bool, Text}
use nox_vault.Errors.{Error}
use nox_vault.Libraries.Json.{JsonLib}
use nox_vault.Libraries.Sodium.{Random, Sodium}
use nox_vault.Effects.{
  new_password, kek, password, vault_key, Api, Eff, lift, pure, throw, try_catch, draw, sure, hold,
  wipe, api_post, api_put, ◌>>=◌, ◌>>◌,
}

module _ ⦃S : Sodium⦄ ⦃J : JsonLib⦄ ⦃R : Random⦄ ⦃A : Api⦄ where
  initialize_failed : Error → Eff (Unit {0})
  initialize_failed e = do wipe password; wipe kek; wipe vault_key; throw e

  -- The vault key that it returns stays alive with the caller.
  unfoldable pub initialize : Text → Text → Bool → Eff Bytes
  unfolding initialize_failed
  initialize user_id secret private_metadata = do
    hold password
    kdf ← draw (sure default_kdf)
    key ← draw (sure random_vault_key)
    hold vault_key
    k ← lift (derive_kek secret kdf)
    hold kek
    try_catch
        (do
          wrapped ← draw (encrypt key k (vault_key_aad user_id))
          body ← lift (serialize_vault_create wrapped kdf private_metadata)
          api_post (lit "/vault") body)
        initialize_failed
    wipe password
    wipe kek
    pure key

  password_failed : {X : Type 0} → Error → Eff X
  password_failed e = do wipe password; throw e

  unfoldable pub unlock_with_password : Text → Text → Eff Bytes
  unfolding password_failed
  unlock_with_password user_id secret = do
    hold password
    try_catch (do vault ← metadata; unlock user_id vault secret) password_failed

  rotate_failed : Error → Eff (Unit {0})
  rotate_failed e = do wipe vault_key; wipe kek; throw e

  unfoldable pub rotate_password : Text → Text → Text → Eff (Unit {0})
  unfolding rotate_failed
  rotate_password user_id old_secret new_secret = do
    hold password
    hold new_password
    vault ← metadata
    key ← unlock user_id vault old_secret
    kdf ← draw (sure default_kdf)
    k ← lift (derive_kek new_secret kdf)
    hold kek
    wipe new_password
    try_catch
        (do
          wrapped ← draw (encrypt key k (vault_key_aad user_id))
          body ← lift (serialize_vault_create wrapped kdf vault.private_metadata)
          api_put (lit "/vault/key") body)
        rotate_failed
    wipe vault_key
    wipe kek
