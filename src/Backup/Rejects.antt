-- ===== src/Backup/Rejects.antt =====
-- Which backups are refused before anything is sent, and what a restored one was.
use nox_vault.Common.{
  eq_text_iff, ap, Bool-cases, Option, [], none, ◌∙◌, inl, inr, refl, arith, message, eq_text, lit,
  Bool, ℕ, Text, some, false, ◌<◌, true, pos, ◌∷◌, ◌≤◌, ◌≡◌,
}
use nox_vault.Backup.{
  parse_encrypted, parse_header_vault, open_vault, restore, import_file, max_backup_size,
}
use nox_vault.Models.Wire.{read}
use nox_vault.Effects.{erase_buffer, Api, World, password}
use nox_vault.Libraries.Json.{JsonLib}
use nox_vault.Libraries.Sodium.{Random, Sodium}
use nox_vault.Errors.{Result-cases, nox_error, ok, err}

module _ ⦃S : Sodium⦄ ⦃J : JsonLib⦄ ⦃R : Random⦄ ⦃A : Api⦄ where
  -- A backup of another account is refused before a key is derived and before a request is sent.
  -- The file is of a size that is allowed, of the supported format, and names its account.
  import_file-foreign :
      (user_id source secret : Text) (n : ℕ) (file magic : J.Json) (replace : Bool) (w : World)
      → 0 < n
      → n ≤ max_backup_size
      → J.at file (lit "magic") ≡ some magic
      → J.same magic (J.text (lit "NOXBACKUP")) ≡ true
      → read J.as_int file (lit "format_version") ≡ ok (pos 1)
      → read J.as_text file (lit "source_user_id") ≡ ok source
      → eq_text source user_id ≡ false
      → import_file user_id (some n) (some file) secret replace w ≡ (
        err (nox_error (message "Backup belongs to a different account")),
        record w { live = password ∷ w.live },
      )
  unfolding import_file restore
  import_file-foreign user_id source secret n file magic replace w a b m s v t o = ground arith

  -- A backup that was restored names the account that restores it, and the password, the derived
  -- key, the vault key and the decrypted payload have been wiped.
  pub import_file-restored :
      (user_id secret : Text) (size : Option ℕ) (document : Option J.Json) (replace : Bool)
      (w : World)
      → w.live ≡ []
      → (import_file user_id size document secret replace w).0 ≡ ok tt
      → ((file : J.Json) × (document ≡ some file)
          × (read J.as_text file (lit "source_user_id") ≡ ok user_id))
        × ((import_file user_id size document secret replace w).1.live ≡ [])
  unfolding import_file restore open_vault parse_header_vault parse_encrypted erase_buffer
  import_file-restored user_id secret size none replace w e h = absurd (ground arith)
  import_file-restored user_id secret size (some file) replace w e h =
      ((file, refl, owner), ground arith)
    where
      owner : read J.as_text file (lit "source_user_id") ≡ ok user_id
      owner = elim (Result-cases (read J.as_text file (lit "source_user_id"))) [
        | inl (source, q) ↦ elim (Bool-cases (eq_text source user_id)) [
          | inl y ↦ q ∙ ap ok ((eq_text_iff source user_id).0 y)
          | inr z ↦ absurd (ground (arith, q, z))
        ]
        | inr (x, q) ↦ absurd (ground (arith, q))
      ]
