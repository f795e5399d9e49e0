-- ===== src/Backup/Restoring.antt =====
-- An export that is imported again sends the vault and its records back.
use nox_vault.Backup.Documents.{
  parse_encrypted-encrypted_json, parse_header_vault-file, file_of, payload_of,
}
use nox_vault.Backup.Exporting.{export_file-Exported, Exported, Sends}
use nox_vault.Crypto.{backup_aad}
use nox_vault.Models.Wire.{parse_vault, vault_fields}
use nox_vault.Backup.{
  require, parse_payload, missing, max_backup_size, restore, import_file, open_vault, export_file,
}
use nox_vault.Effects.{
  password, kek, vault_key, plaintext, erase_buffer, Buffer, api_post, try_catch, Method, Request,
  World, Api,
}
use nox_vault.Models.{crypto_algorithm, VaultMetadata}
use nox_vault.Errors.{nox_error, is_json, err, Result, Result-cases, ok}
use nox_vault.Libraries.Sodium.{Random, Sodium}
use nox_vault.Common.{
  leb, ltb, ◌&&◌, refl, eq_text_refl, message, if◌then◌else◌, ℕ, ◌≤◌, List, some, Bool, inr, inl,
  true, arith, lit, Text, ◌∷◌, [], pos, ◌∙◌, ◌≡◌, ◌++◌, ◌<◌,
}
use nox_vault.Models.Wire.Roundtrip.{IsWritten, parse_vault-IsStored}
use nox_vault.Crypto.Sealing.{decrypt-encrypt, encrypt-IsSealed}
use nox_vault.Libraries.Json.{JsonLib, at-assign, assign}

module _ ⦃S : Sodium⦄ ⦃J : JsonLib⦄ ⦃R : Random⦄ ⦃A : Api⦄ where
  -- The body that restores the vault.
  pub record Restores (user_id : Text) (replace : Bool) (vault : VaultMetadata)
      (records body : J.Json) : Type 0 where
    pub secrets : J.at body (lit "secrets") ≡ some records
    pub mode : J.at body (lit "replace") ≡ some (J.bool replace)
    pub source : J.at body (lit "source_user_id") ≡ some (J.text user_id)
    pub vault_id : J.at body (lit "vault_id") ≡ some (J.text vault.id)
    pub whole : parse_vault (J.put body (lit "id") (J.text vault.id)) ≡ ok vault

  abbrev restore_members : Text → Bool → VaultMetadata → J.Json → List (Text × J.Json)
  restore_members user_id replace vault records =
      (lit "secrets", records)
      ∷ (lit "replace", J.bool replace)
      ∷ (lit "vault_id", J.text vault.id)
      ∷ (lit "source_user_id", J.text user_id)
      ∷ (lit "format_version", J.int (pos 1))
      ∷ []

  abbrev restore_body : Text → Bool → VaultMetadata → J.Json → J.Json
  restore_body user_id replace vault records =
      assign (restore_members user_id replace vault records)
        (vault_fields vault.wrapped_key vault.kdf vault.private_metadata)

  restore_body-Restores :
      (user_id : Text) (replace : Bool) (vault : VaultMetadata) (records : J.Json)
      → IsWritten vault.wrapped_key vault.kdf
      → vault.wrapped_key.version ≡ pos 1
      → vault.wrapped_key.algorithm ≡ crypto_algorithm
      → Restores user_id replace vault records (restore_body user_id replace vault records)
  restore_body-Restores user_id replace vault records h v a =
      let l = restore_members user_id replace vault records in
      let m = vault_fields vault.wrapped_key vault.kdf vault.private_metadata in
      let n = (lit "id", J.text vault.id) ∷ l in
      record {
        secrets = at-assign l m (lit "secrets");
        mode = at-assign l m (lit "replace");
        source = at-assign l m (lit "source_user_id");
        vault_id = at-assign l m (lit "vault_id");
        whole =
            parse_vault-IsStored (assign n m) vault.id vault.wrapped_key vault.kdf
              vault.private_metadata h
              (record {
                id_at = at-assign n m (lit "id");
                key_at = at-assign n m (lit "encrypted_vault_key");
                nonce_at = at-assign n m (lit "vault_key_nonce");
                salt_at = at-assign n m (lit "kdf_salt");
                algorithm_at = at-assign n m (lit "kdf_algorithm");
                ops_at = at-assign n m (lit "kdf_ops_limit");
                mem_at = at-assign n m (lit "kdf_mem_limit");
                private_at = at-assign n m (lit "private_metadata");
              })
            ∙ ground (arith, v, a);
      }

  abbrev pub post_restore : J.Json → Request
  post_restore body = record { method = Method.post; path = lit "/restore"; body = some body }

  -- How the import ends for an answer of the server.
  unfoldable pub accepted : Result J.Json → Result (Unit {0})
  accepted (ok j) = ok tt
  accepted (err e) =
      err (if is_json e then nox_error (message "Backup file is missing required fields") else e)

  -- The last step of an import, with the outer handler.
  posted :
      (body : J.Json) (w later : World)
      → w.server ≡ later.server
      → w.sent ≡ later.sent
      → ((try_catch (api_post (lit "/restore") body) missing w).1.sent
          ≡ later.sent ++ (post_restore body ∷ []))
        × ((try_catch (api_post (lit "/restore") body) missing w).0
            ≡ accepted (A.answer (post_restore body) later.server).0)
  unfolding missing accepted
  posted body w later a b = elim (Result-cases (A.answer (post_restore body) w.server).0) [
    | inl (j, q) ↦ (ground (arith, q, a, b), ground (arith, q, a, b))
    | inr (e, q) ↦ (ground (arith, q, a, b), ground (arith, q, a, b))
  ]

  -- The live buffers at the last step.
  abbrev left_over : List Buffer → List Buffer
  left_over l = erase_buffer plaintext (
      erase_buffer vault_key
        (plaintext ∷ erase_buffer kek (vault_key ∷ erase_buffer password (kek ∷ l))))

  restore-Exported :
      (user_id secret : Text) (vault : VaultMetadata) (records file : J.Json) (replace : Bool)
      (w : World)
      → IsWritten vault.wrapped_key vault.kdf
      → J.parse (J.dump (payload_of vault records)) ≡ some (payload_of vault records)
      → (x : Exported user_id secret vault records file)
      → restore user_id (file_of user_id vault x.value) secret replace w
        ≡ api_post
            (lit "/restore")
            (restore_body user_id replace vault records)
            (record w { live = left_over w.live })
  unfolding restore open_vault require
  restore-Exported user_id secret vault records file replace w h p x =
      let raw = J.dump (payload_of vault records) in
      let sealed = encrypt-IsSealed raw x.key (backup_aad user_id) x.s x.s' x.value x.sealed in
      let plain = decrypt-encrypt raw x.key (backup_aad user_id) x.s x.s' x.value x.sealed in
      simp (
        J.at-object,
        J.same-text,
        J.same-bool,
        J.as_text-text,
        J.as_int-int 1 (omega arith),
        eq_text_refl,
        parse_header_vault-file user_id vault x.value h x.version x.algorithm,
        x.derived,
        x.opened,
        x.small,
        parse_encrypted-encrypted_json x.value sealed.version (omega (arith, sealed.ciphertext))
            (omega (arith, sealed.nonce)),
        plain,
        parse_payload,
        p,
        x.made,
      )

  -- A backup that was exported is imported again with the same password: exactly one request is sent,
  -- which restores the vault with its wrapped key and parameters and all records that the server
  -- had sent, and the import ends as the server answers it. The stored header fits the wire form, the
  -- file has an allowed size, and the payload survives printing and parsing.
  pub import_file-export_file :
      (user_id secret : Text) (vault : VaultMetadata) (records file : J.Json) (n : ℕ)
      (replace : Bool) (w later : World)
      → Sends w vault records
      → IsWritten vault.wrapped_key vault.kdf
      → (export_file user_id secret w).0 ≡ ok file
      → J.parse (J.dump (payload_of vault records)) ≡ some (payload_of vault records)
      → 0 < n
      → n ≤ max_backup_size
      → (body : J.Json) × Restores user_id replace vault records body
        × ((import_file user_id (some n) (some file) secret replace later).1.sent
            ≡ later.sent ++ (post_restore body ∷ []))
        × ((import_file user_id (some n) (some file) secret replace later).0
            ≡ accepted (A.answer (post_restore body) later.server).0)
  unfolding import_file require
  import_file-export_file user_id secret vault records file n replace w later s h done p a b =
      let x = export_file-Exported user_id secret vault records file w s done in
      let body = restore_body user_id replace vault records in
      let held : World = record later { live = password ∷ later.live } in
      let last : World = record held { live = left_over held.live } in
      let fits : (ltb 0 n && leb n max_backup_size) ≡ true = ground (arith, a, b) in
      let whole : import_file user_id (some n) (some file) secret replace later
          ≡ try_catch (api_post (lit "/restore") body) missing last =
        rw (x.whole) (
          simp (fits, restore-Exported user_id secret vault records file replace held h p x)
            refl) in
      let (sent, result) = posted body last later refl refl in
      (
        body,
        restore_body-Restores user_id replace vault records h x.version x.algorithm,
        rw whole sent,
        rw whole result,
      )
