-- ===== src/Examples/Restoring.antt =====
-- A backup that is exported and imported again, with a library that prints and reads its payload.
use nox_vault.Backup.Rejects.{import_file-restored}
use nox_vault.Models.{validate_format, base64_encode, base64_decode}
use nox_vault.Examples.Crypto.{kdf_sample, key_sample}
use nox_vault.Backup.{few, open_vault, export_file, encrypted_json, import_file}
use nox_vault.Models.Wire.Roundtrip.{IsWritten}
use nox_vault.Crypto.{decrypt, encrypt_with, encrypt, derive_kek}
use nox_vault.Examples.Vault.{stored_vault, vault_sample}
use nox_vault.Effects.{Api, World, Request}
use nox_vault.Libraries.Json.{JsonLib}
use nox_vault.Models.Wire.{
  read, serialize_vault_create, vault_fields, read_bytes, read_vault, parse_vault,
}
use nox_vault.Errors.{Result, ok}
use nox_vault.Common.{arith, lit, List, ◌∷◌, [], some, refl, ◌≡◌, true, ◌++◌, pos}
use nox_vault.Examples.Toys.{
  toy_items, to_list, of_option, to_option, toy_u64, toy_bool, toy_open, toy_text, toy_put,
  toy_seal, toy_at, jint, jbool, jnil, jcons, jtext, jnull, jarray, toy_object, repeat, ToyJson,
  toy_sodium, toy_random,
}
use nox_vault.Backup.Restoring.{import_file-export_file, Restores, post_restore, accepted}
use nox_vault.Backup.Exporting.{Sends}
use nox_vault.Examples.Toys.{printing}
use nox_vault.Examples.Crypto.{sealed}

abbrev kept_records : ToyJson
kept_records = jarray (jcons (jtext (lit "record")) jnil)

abbrev kept_payload : ToyJson
kept_payload = toy_object (
    (lit "vault_id", jtext (lit "v1"))
    ∷ (lit "private_metadata", jbool true)
    ∷ (lit "secrets", kept_records)
    ∷ [])

instance abbrev paper_json : JsonLib
paper_json = printing kept_payload

paper_answer : Request → List ToyJson → Result ToyJson × List ToyJson
paper_answer q [] = (ok jnull, [])
paper_answer q (j ∷ l) = (ok j, l)

instance abbrev paper_api : Api
paper_api = record { Server = List ToyJson; answer = paper_answer }

abbrev paper_world : List ToyJson → World
paper_world answers = record { random = tt; server = answers; sent = []; live = [] }

abbrev exporting : World
exporting = paper_world (stored_vault key_sample ∷ kept_records ∷ [])

abbrev exported_file : ToyJson
exported_file = toy_object (
    vault_fields (sealed 8 key_sample) kdf_sample true
    ++ ((lit "magic", jtext (lit "NOXBACKUP"))
        ∷ (lit "format_version", jint (pos 1))
        ∷ (lit "source_user_id", jtext (lit "u"))
        ∷ (lit "vault_id", jtext (lit "v1"))
        ∷ (lit "encrypted_payload", encrypted_json (sealed 7 (lit "payload")))
        ∷ []))

parses : parse_vault (stored_vault key_sample) ≡ ok vault_sample
unfolding parse_vault read_vault read_bytes base64_decode base64_encode validate_format toy_at
    toy_put toy_object toy_text toy_bool toy_u64 to_option of_option repeat
parses = refl

sends : Sends exporting vault_sample kept_records
unfolding paper_answer
sends = record {
  header = stored_vault key_sample;
  between = kept_records ∷ [];
  after = [];
  first = refl;
  parsed = parses;
  second = refl;
}

exports : (export_file (lit "u") (lit "password") exporting).0 ≡ ok exported_file
unfolding paper_answer derive_kek encrypt encrypt_with decrypt parse_vault read_vault read_bytes
    base64_decode base64_encode validate_format serialize_vault_create repeat toy_seal toy_open
    toy_at toy_put toy_object toy_text toy_bool toy_u64 to_option of_option to_list toy_items
    export_file open_vault few
exports = refl

written : IsWritten (sealed 8 key_sample) kdf_sample
unfolding repeat
written = record {
  ciphertext = omega arith;
  nonce = omega arith;
  salt = omega arith;
  algorithm = refl;
  ops = omega arith;
  mem = omega arith;
}

restored_example :
    (body : ToyJson) × Restores (lit "u") true vault_sample kept_records body
    × ((import_file
          (lit "u")
          (some 900)
          (some exported_file)
          (lit "password")
          true
          (paper_world [])).1.sent
        ≡ [] ++ (post_restore body ∷ []))
    × ((import_file
          (lit "u")
          (some 900)
          (some exported_file)
          (lit "password")
          true
          (paper_world [])).0
        ≡ accepted (paper_answer (post_restore body) []).0)
restored_example =
    import_file-export_file (lit "u") (lit "password") vault_sample kept_records exported_file 900
      true exporting (paper_world []) sends written exports refl (omega arith) (omega arith)

imports :
    (import_file (lit "u") (some 900) (some exported_file) (lit "password") true (paper_world [])).0
    ≡ ok tt
unfolding accepted paper_answer
imports =
    (import_file-export_file (lit "u") (lit "password") vault_sample kept_records exported_file 900
      true exporting (paper_world []) sends written exports refl (omega arith) (omega arith)).3

clean_restore_example :
    ((file : ToyJson) × (some exported_file ≡ some file)
      × (read toy_text file (lit "source_user_id") ≡ ok (lit "u")))
    × ((import_file
          (lit "u")
          (some 900)
          (some exported_file)
          (lit "password")
          true
          (paper_world [])).1.live
        ≡ [])
clean_restore_example =
    import_file-restored (lit "u") (lit "password") (some 900) (some exported_file) true
      (paper_world []) refl imports
