-- ===== src/Examples/Vault.antt =====
-- The theorems on the vault operations at concrete inputs.
use nox_vault.Vault.Unlocking.{unlock-rotate_password, unlock-initialize}
use nox_vault.Vault.{unlock, metadata}
use nox_vault.Models.Wire.{
  serialize_vault_create, read_bytes, read_vault, parse_vault, vault_fields,
}
use nox_vault.Examples.Crypto.{kdf_sample, sealed, key_sample}
use nox_vault.Crypto.{decrypt, encrypt_with, encrypt, random_vault_key, default_kdf, derive_kek}
use nox_vault.Vault.Residue.{rotate_password-Leaves}
use nox_vault.Models.{
  validate_format, base64_decode, base64_encode, crypto_algorithm, VaultMetadata,
}
use nox_vault.Vault.Password.{unlock_with_password, rotate_password, initialize}
use nox_vault.Errors.{ok}
use nox_vault.Effects.{World}
use nox_vault.Common.{arith, lit, pos, ◌∷◌, Bytes, List, true, refl, [], ◌≡◌}
use nox_vault.Examples.Toys.{
  of_option, to_option, toy_u64, toy_bool, toy_text, toy_at, toy_open, toy_seal, repeat, zeros,
  jnil, jtext, jarray, toy_object, toy_put, ToyJson, toy_answer, toy_sodium, toy_json, toy_random,
  toy_api,
}

abbrev pub world : List ToyJson → World
world answers = record { random = tt; server = answers; sent = []; live = [] }

-- The wrapped vault key of a user whose password has eight characters: the toy derivation gives 32
-- bytes 8, and the cipher checks the first of them.
abbrev pub stored_vault : Bytes → ToyJson
stored_vault key =
    toy_put (toy_object (vault_fields (sealed 8 key) kdf_sample true)) (lit "id") (jtext (lit "v1"))

abbrev pub vault_sample : VaultMetadata
vault_sample = record {
  id = lit "v1";
  wrapped_key = sealed 8 key_sample;
  kdf = kdf_sample;
  private_metadata = true;
}

abbrev pub opened : World
opened = world (stored_vault key_sample ∷ [])

parse_sample : parse_vault (stored_vault key_sample) ≡ ok vault_sample
unfolding toy_answer derive_kek default_kdf random_vault_key encrypt encrypt_with decrypt
    parse_vault read_vault read_bytes base64_decode base64_encode validate_format
    serialize_vault_create repeat toy_seal toy_open toy_at toy_put toy_object toy_text toy_bool
    toy_u64 to_option of_option metadata unlock
parse_sample = refl

rotates : (rotate_password (lit "u") (lit "password") (lit "new password") opened).0 ≡ ok tt
unfolding toy_answer derive_kek default_kdf random_vault_key encrypt encrypt_with decrypt
    parse_vault read_vault read_bytes base64_decode base64_encode validate_format
    serialize_vault_create repeat toy_seal toy_open toy_at toy_put toy_object toy_text toy_bool
    toy_u64 to_option of_option metadata unlock rotate_password
rotates = refl

rotate_clean_example :
    (rotate_password (lit "u") (lit "password") (lit "new password") opened).1.live ≡ []
rotate_clean_example =
    rotate_password-Leaves (lit "u") (lit "password") (lit "new password") opened refl rotates

initialize_sample : (initialize (lit "u") (lit "password") true (world [])).0 ≡ ok (repeat 32 1)
unfolding toy_answer derive_kek default_kdf random_vault_key encrypt encrypt_with decrypt
    parse_vault read_vault read_bytes base64_decode base64_encode validate_format
    serialize_vault_create repeat toy_seal toy_open toy_at toy_put toy_object toy_text toy_bool
    toy_u64 to_option of_option metadata unlock initialize
initialize_sample = refl

-- A vault that opens and holds no secret.
abbrev unlisted : World
unlisted = world (stored_vault key_sample ∷ jarray jnil ∷ [])

-- The body that `initialize` posts.
abbrev posted_body : Bytes → ToyJson
posted_body key = toy_object (
    vault_fields
      (record {
        version = pos 1;
        algorithm = crypto_algorithm;
        ciphertext = 8 ∷ zeros 15 key;
        nonce = repeat 24 1;
      })
      kdf_sample true)

unlock_initialize_example :
    (unlock_with_password
      (lit "u")
      (lit "password")
      (world (toy_put (posted_body (repeat 32 1)) (lit "id") (jtext (lit "v1")) ∷ []))).0
    ≡ ok (repeat 32 1)
unfolding toy_answer derive_kek default_kdf random_vault_key encrypt encrypt_with decrypt
    parse_vault read_vault read_bytes base64_decode base64_encode validate_format
    serialize_vault_create repeat toy_seal toy_open toy_at toy_put toy_object toy_text toy_bool
    toy_u64 to_option of_option metadata unlock initialize
unlock_initialize_example =
    unlock-initialize (lit "u") (lit "password") (lit "v1") true (world [])
      (world (toy_put (posted_body (repeat 32 1)) (lit "id") (jtext (lit "v1")) ∷ [])) (repeat 32 1)
      (posted_body (repeat 32 1)) (omega arith) (omega arith) refl initialize_sample refl refl

abbrev rotated_body : ToyJson
rotated_body = toy_object (vault_fields (sealed 12 key_sample) kdf_sample true)

abbrev after_rotation : World
after_rotation = world (toy_put rotated_body (lit "id") (jtext (lit "v1")) ∷ [])

unlock_rotated_example :
    (unlock_with_password (lit "u") (lit "new password") after_rotation).0 ≡ ok key_sample
unfolding toy_answer derive_kek default_kdf random_vault_key encrypt encrypt_with decrypt
    parse_vault read_vault read_bytes base64_decode base64_encode validate_format
    serialize_vault_create repeat toy_seal toy_open toy_at toy_put toy_object toy_text toy_bool
    toy_u64 to_option of_option metadata unlock rotate_password
unlock_rotated_example =
    unlock-rotate_password (lit "u") (lit "password") (lit "new password") (lit "v1") opened
      after_rotation (stored_vault key_sample) vault_sample (repeat 32 8) key_sample rotated_body
      (omega arith) (omega arith) refl refl parse_sample refl refl rotates refl refl
