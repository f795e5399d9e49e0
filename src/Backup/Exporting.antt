-- ===== src/Backup/Exporting.antt =====
-- What an export that succeeds went through.
use nox_vault.Backup.Documents.{file_of, payload_of}
use nox_vault.Crypto.{backup_aad, encrypt, vault_key_aad, decrypt, derive_kek}
use nox_vault.Models.Wire.{serialize_vault_create, parse_vault, vault_fields}
use nox_vault.Backup.{few, open_vault, export_file}
use nox_vault.Effects.{World, Api}
use nox_vault.Models.{crypto_algorithm, EncryptedValue, VaultMetadata}
use nox_vault.Errors.{Result-cases, ok}
use nox_vault.Libraries.Sodium.{Random, Sodium}
use nox_vault.Common.{ap, Bool-cases, inr, inl, true, Bytes, arith, Text, pos, ◌∙◌, ◌≡◌}
use nox_vault.Models.Wire.Roundtrip.{serialize_vault_create-ok}
use nox_vault.Vault.Unlocking.{get_vault}
use nox_vault.Vault.Contents.{get_secrets}
use nox_vault.Libraries.Json.{JsonLib}

module _ ⦃S : Sodium⦄ ⦃J : JsonLib⦄ ⦃R : Random⦄ ⦃A : Api⦄ where
  -- The two answers of the server that an export reads.
  pub record Sends (w : World) (vault : VaultMetadata) (records : J.Json) : Type 0 where
    pub header : J.Json
    pub between : A.Server
    pub after : A.Server
    pub first : A.answer get_vault w.server ≡ (ok header, between)
    pub parsed : parse_vault header ≡ ok vault
    pub second : A.answer get_secrets between ≡ (ok records, after)

  -- What an export that succeeds went through.
  pub record Exported (user_id secret : Text) (vault : VaultMetadata) (records file : J.Json)
      : Type 0 where
    pub k : Bytes
    pub key : Bytes
    pub value : EncryptedValue
    pub s : R.State
    pub s' : R.State
    pub derived : derive_kek secret vault.kdf ≡ ok k
    pub opened : decrypt vault.wrapped_key k (vault_key_aad user_id) ≡ ok key
    pub sealed :
        encrypt (J.dump (payload_of vault records)) key (backup_aad user_id) s ≡ (ok value, s')
    pub small : few records ≡ true
    pub version : vault.wrapped_key.version ≡ pos 1
    pub algorithm : vault.wrapped_key.algorithm ≡ crypto_algorithm
    pub made :
        serialize_vault_create vault.wrapped_key vault.kdf vault.private_metadata
        ≡ ok (J.object (vault_fields vault.wrapped_key vault.kdf vault.private_metadata))
    pub whole : file ≡ file_of user_id vault value

  pub export_file-Exported :
      (user_id secret : Text) (vault : VaultMetadata) (records file : J.Json) (w : World)
      → Sends w vault records
      → (export_file user_id secret w).0 ≡ ok file
      → Exported user_id secret vault records file
  unfolding export_file open_vault
  export_file-Exported user_id secret vault records file w s done =
      let aad = vault_key_aad user_id in
      elim (Result-cases (derive_kek secret vault.kdf)) [
        | inr (x, a) ↦ absurd (ground (arith, s.first, s.parsed, a))
        | inl (k, a) ↦ elim (Result-cases (decrypt vault.wrapped_key k aad)) [
          | inr (x, b) ↦ absurd (ground (arith, s.first, s.parsed, a, b))
          | inl (key, b) ↦ elim (Bool-cases (few records)) [
            | inr n ↦ absurd (ground (arith, s.first, s.parsed, s.second, a, b, n))
            | inl f ↦ sealing k key a b f
          ]
        ]
      ]
    where
      sealing :
          (k key : Bytes)
          → derive_kek secret vault.kdf ≡ ok k
          → decrypt vault.wrapped_key k (vault_key_aad user_id) ≡ ok key
          → few records ≡ true
          → Exported user_id secret vault records file
      sealing k key a b f =
          let raw = J.dump (payload_of vault records) in
          let p = encrypt raw key (backup_aad user_id) w.random in
          let made = serialize_vault_create vault.wrapped_key vault.kdf vault.private_metadata in
          elim (Result-cases p.0) [
            | inr (x, q) ↦ absurd (ground (arith, s.first, s.parsed, s.second, a, b, f, q))
            | inl (e, q) ↦ elim (Result-cases made) [
              | inr (x, c) ↦ absurd (ground (arith, s.first, s.parsed, s.second, a, b, f, q, c))
              | inl (body, c) ↦
                  let (v, g, d) =
                    serialize_vault_create-ok vault.wrapped_key vault.kdf vault.private_metadata
                      body c in
                  record {
                    k = k;
                    key = key;
                    value = e;
                    s = w.random;
                    s' = p.1;
                    derived = a;
                    opened = b;
                    sealed = ap (λ r. (r, p.1)) q;
                    small = f;
                    version = v;
                    algorithm = g;
                    made = c ∙ ap ok d;
                    whole = ground (arith, s.first, s.parsed, s.second, a, b, f, q, c);
                  }
            ]
          ]
