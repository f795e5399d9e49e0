-- ===== src/Vault/Residue.antt =====
-- Which buffers with secret bytes outlive the operations of client/src/vault_service.cpp.
use nox_vault.Crypto.Sealing.{decrypt-err}
use nox_vault.Models.{VaultMetadata}
use nox_vault.Models.Wire.{parse_vault}
use nox_vault.Crypto.{vault_key_aad, derive_kek, decrypt}
use nox_vault.Vault.{list, find, unlock, metadata}
use nox_vault.Vault.Secrets.{get as get_secret}
use nox_vault.Effects.{
  listed_name, same_buffer, Method, new_password, Buffer, World, Api, vault_key, erase_buffer,
}
use nox_vault.Libraries.Json.{JsonLib}
use nox_vault.Libraries.Sodium.{Random, Sodium}
use nox_vault.Common.{
  true, ◌&&◌, message, lit, none, Bytes, Bool, ◌≢◌, Text, arith, List, [], ◌≡◌, ◌∷◌,
}
use nox_vault.Errors.{Error, secret_not_found, invalid_master_password, Result, ok, err}
use nox_vault.Vault.Password.{initialize, rotate_password, unlock_with_password}

-- All buffers are decrypted names of a list.
pub only_names : List Buffer → Bool
only_names [] = true
only_names (b ∷ l) = same_buffer listed_name b && only_names l

module _ ⦃S : Sodium⦄ ⦃J : JsonLib⦄ ⦃R : Random⦄ ⦃A : Api⦄ where
  -- The buffers alive after a run that returned, and after one that threw.
  abbrev pub Leaves : {X : Type 0} → List Buffer → List Buffer → Result X × World → Type 0
  Leaves good bad (ok x, w) = w.live ≡ good
  Leaves good bad (err e, w) = w.live ≡ bad

  metadata-Leaves : (w : World) → Leaves w.live w.live (metadata w)
  unfolding metadata
  metadata-Leaves w = ground arith

  pub unlock_with_password-Leaves :
      (user_id secret : Text) (w : World)
      → w.live ≡ []
      → Leaves (vault_key ∷ []) [] (unlock_with_password user_id secret w)
  unfolding unlock_with_password erase_buffer metadata unlock decrypt
  unlock_with_password-Leaves user_id secret w h = ground arith

  -- A rotation that succeeds wipes both passwords, both derived keys and the vault key.
  pub rotate_password-Leaves :
      (user_id old_secret new_secret : Text) (w : World)
      → w.live ≡ []
      → (rotate_password user_id old_secret new_secret w).0 ≡ ok tt
      → (rotate_password user_id old_secret new_secret w).1.live ≡ []
  unfolding rotate_password erase_buffer metadata unlock decrypt
  rotate_password-Leaves user_id old_secret new_secret w h done = ground arith

  -- When the old password does not open the vault, a rotation throws `InvalidMasterPassword`, and the
  -- new password is left in memory without being wiped.
  rotate_password_residue :
      (user_id old_secret new_secret : Text) (w : World) (j : J.Json) (vault : VaultMetadata)
      (k : Bytes) (e : Error)
      → w.live ≡ []
      → (A.answer (record { method = Method.get; path = lit "/vault"; body = none }) w.server).0
        ≡ ok j
      → parse_vault j ≡ ok vault
      → derive_kek old_secret vault.kdf ≡ ok k
      → decrypt vault.wrapped_key k (vault_key_aad user_id) ≡ err e
      → ((m : Text) × ((rotate_password user_id old_secret new_secret w).0
            ≡ err (invalid_master_password m)))
        × ((rotate_password user_id old_secret new_secret w).1.live ≡ new_password ∷ [])
  unfolding rotate_password erase_buffer metadata unlock
  rotate_password_residue user_id old_secret new_secret w j vault k e h a p d f =
      let c = decrypt-err vault.wrapped_key k (vault_key_aad user_id) e f in
      (
        (
          message "Unable to decrypt vault: incorrect master password or corrupted vault metadata",
          ground arith,
        ),
        ground arith,
      )

  -- `get` that ends with `SecretNotFound` leaves a secret buffer in memory without wiping it.
  get_residue :
      (user_id name secret m : Text) (w : World)
      → w.live ≡ []
      → (get_secret user_id name secret w).0 ≡ err (secret_not_found m)
      → (get_secret user_id name secret w).1.live ≢ []
  unfolding get_secret erase_buffer metadata unlock decrypt find list
  get_residue user_id name secret m w h failed = ground arith

  -- `initialize` that succeeds hands out the vault key and wipes the password and the derived key.
  pub initialize-Leaves :
      (user_id secret : Text) (private_metadata : Bool) (w : World) (key : Bytes)
      → w.live ≡ []
      → (initialize user_id secret private_metadata w).0 ≡ ok key
      → (initialize user_id secret private_metadata w).1.live ≡ vault_key ∷ []
  unfolding initialize erase_buffer
  initialize-Leaves user_id secret private_metadata w key h done = ground arith
