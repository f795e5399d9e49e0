-- ===== src/Examples/Wire.antt =====
-- The theorems on secret records at concrete inputs.
use nox_vault.Examples.Toys.{jnull, jtext, toy_sodium, toy_json}
use nox_vault.Models.Wire.Rejects.{parse_secret-IsSecret, IsSecret}
use nox_vault.Examples.Crypto.{nonce_sample, sealed}
use nox_vault.Examples.Toys.{jint, zeros, toy_object, repeat, toy_put, ToyJson}
use nox_vault.Errors.{ok}
use nox_vault.Models.Wire.{value_fields, serialize_secret}
use nox_vault.Models.{
  base64_encode, magic, validate_format, SecretRecord, EncryptedValue, pack_encrypted_name,
}
use nox_vault.Common.{lit, none, Bytes, pos, ◌++◌, ◌≡◌, ◌∷◌, arith, refl, some}
use nox_vault.Models.Wire.SecretRoundtrip.{IsSendable, parse_secret-serialize_secret_public}

abbrev pub value_sample : EncryptedValue
value_sample = sealed 7 (lit "pw")

pub value_sample-IsSendable : IsSendable value_sample 3
unfolding repeat
value_sample-IsSendable = record {
  ciphertext = omega arith;
  nonce = omega arith;
  format = refl;
  algorithm = refl;
  in_range = omega arith;
}

abbrev pub public_body : ToyJson
public_body =
    toy_put
      (toy_put (toy_put (toy_object (value_fields value_sample)) (lit "id") (jtext (lit "s1")))
        (lit "name") (jtext (lit "mail")))
      (lit "encrypted_name") jnull

abbrev pub public_record : SecretRecord
public_record = record {
  id = lit "s1";
  name = some (lit "mail");
  encrypted_name = none;
  name_hash = none;
  value = value_sample;
  record_version = pos 3;
  created_at = none;
  updated_at = none;
}

abbrev packed_sample : Bytes
packed_sample = magic ++ (nonce_sample ++ (7 ∷ zeros 15 (lit "mail")))

abbrev private_body : ToyJson
private_body =
    toy_put
      (toy_put
        (toy_put (toy_put (toy_object (value_fields value_sample)) (lit "id") (jtext (lit "s1")))
          (lit "name") jnull)
        (lit "encrypted_name") (jtext (base64_encode packed_sample)))
      (lit "name_hash") (jtext (base64_encode (lit "hash")))

packed_sample-packs : pack_encrypted_name (sealed 7 (lit "mail")) ≡ ok packed_sample
unfolding pack_encrypted_name validate_format repeat
packed_sample-packs = refl

accepted-IsSecret_example : IsSecret public_record
unfolding serialize_secret validate_format
accepted-IsSecret_example =
    parse_secret-IsSecret (toy_put public_body (lit "record_version") (jint (pos 3))) public_record
      (parse_secret-serialize_secret_public (lit "s1") (lit "mail") value_sample 3 public_body
        (omega arith) value_sample-IsSendable refl)

-- A vault without any member.
