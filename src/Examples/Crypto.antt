-- ===== src/Examples/Crypto.antt =====
-- The theorems on ciphertexts and stored values at concrete inputs.
use nox_vault.Models.Wire.Roundtrip.{parse_vault-serialize_vault_create}
use nox_vault.Models.Names.{unpack_encrypted_name-pack_encrypted_name}
use nox_vault.Crypto.Sealing.{decrypt-encrypt}
use nox_vault.Errors.{ok}
use nox_vault.Models.{
  crypto_algorithm, magic, validate_format, EncryptedValue, pack_encrypted_name, KdfParameters,
  unpack_encrypted_name,
}
use nox_vault.Crypto.{decrypt, encrypt_with, encrypt, secret_aad}
use nox_vault.Models.Wire.{parse_vault, vault_fields, serialize_vault_create}
use nox_vault.Examples.Toys.{
  jtext, zeros, toy_put, toy_seal, toy_object, ToyJson, repeat, toy_sodium, toy_json, toy_random,
}
use nox_vault.Common.{arith, refl, Bytes, ◌∷◌, true, ◌≡◌, pos, ℕ, ◌++◌, lit}
use nox_vault.Crypto.Aad.{secret, aad, aad-injective}

abbrev pub key_sample : Bytes
unfolding repeat
key_sample = repeat 32 7

abbrev pub nonce_sample : Bytes
nonce_sample = repeat 24 1

abbrev pub kdf_sample : KdfParameters
kdf_sample = record {
  algorithm = lit "argon2id";
  salt = repeat 16 1;
  ops_limit = 2;
  mem_limit = 67108864;
}

-- The encryption of `plaintext` under a key that starts with `k`.
abbrev pub sealed : ℕ → Bytes → EncryptedValue
sealed k plaintext = record {
  version = pos 1;
  algorithm = crypto_algorithm;
  ciphertext = k ∷ zeros 15 plaintext;
  nonce = nonce_sample;
}

aad-injective_example : secret (lit "v1") (lit "mail") ≡ secret (lit "v1") (lit "mail")
unfolding aad secret_aad
aad-injective_example =
    aad-injective (secret (lit "v1") (lit "mail")) (secret (lit "v1") (lit "mail")) refl refl refl

decrypt-encrypt_example : decrypt (sealed 7 (lit "pw")) key_sample (lit "a") ≡ ok (lit "pw")
unfolding encrypt encrypt_with toy_seal repeat
decrypt-encrypt_example =
    decrypt-encrypt (lit "pw") key_sample (lit "a") tt tt (sealed 7 (lit "pw")) refl

unpack-pack_example :
    unpack_encrypted_name (magic ++ (nonce_sample ++ (7 ∷ zeros 15 (lit "mail"))))
    ≡ ok (sealed 7 (lit "mail"))
unfolding pack_encrypted_name repeat validate_format
unpack-pack_example =
    unpack_encrypted_name-pack_encrypted_name (sealed 7 (lit "mail"))
      (magic ++ (nonce_sample ++ (7 ∷ zeros 15 (lit "mail")))) (omega arith) refl

abbrev header_sample : ToyJson
header_sample = toy_object (vault_fields (sealed 7 (lit "key")) kdf_sample true)

parse_vault_example :
    parse_vault (toy_put header_sample (lit "id") (jtext (lit "v1")))
    ≡ ok (record {
      id = lit "v1";
      wrapped_key = sealed 7 (lit "key");
      kdf = kdf_sample;
      private_metadata = true;
    })
unfolding serialize_vault_create validate_format repeat
parse_vault_example =
    parse_vault-serialize_vault_create (lit "v1") (sealed 7 (lit "key")) kdf_sample true
      header_sample
      (record {
        ciphertext = omega arith;
        nonce = omega arith;
        salt = omega arith;
        algorithm = refl;
        ops = omega arith;
        mem = omega arith;
      })
      refl
