-- ===== src/Examples/Contents.antt =====
-- The theorems on the contents of a vault at concrete inputs.
use nox_vault.Effects.{erase_buffer}
use nox_vault.Vault.Contents.Body.{Carries}
use nox_vault.Vault.Secrets.{update_body, name_secret}
use nox_vault.Vault.Contents.Adding.Posting.{
  add_unlocked-Posts, get_unlocked-add_unlocked, Posts, post_request,
}
use nox_vault.Models.Uuid.{uuid_text, random_uuid}
use nox_vault.Examples.Toys.{
  toy_is_object, toy_is_null, toy_int, toy_seal, jnull, toy_sodium, toy_json, toy_random, toy_api,
}
use nox_vault.Models.Wire.SecretRoundtrip.{IsSendable, parse_secret-serialize_secret_public}
use nox_vault.Vault.Unlocking.{get_vault}
use nox_vault.Vault.Contents.Changing.{
  update_unlocked-with_value, put_request, with_value, remove_unlocked-without, delete_request,
  without,
}
use nox_vault.Vault.Contents.Reading.{list_unlocked-names, get_unlocked-lookup}
use nox_vault.Examples.Wire.{value_sample-IsSendable, value_sample, public_body, public_record}
use nox_vault.Examples.Vault.{vault_sample, world}
use nox_vault.Examples.Toys.{
  of_option, to_option, toy_u64, toy_bool, jtext, toy_text, toy_at, jnil, of_list, to_list, repeat,
  jint, jcons, toy_object, jarray, toy_open, toy_put, toy_items, toy_answer, ToyJson,
}
use nox_vault.Errors.{ok}
use nox_vault.Models.Wire.{
  value_fields, vault_fields, read_bytes, parse_secret, read_vault, serialize_secret, parse_vault,
}
use nox_vault.Examples.Crypto.{kdf_sample, sealed, key_sample}
use nox_vault.Crypto.{encrypt_with, encrypt, decrypt}
use nox_vault.Models.{
  EncryptedValue, base64_encode, base64_decode, SecretRecord, validate_format, VaultMetadata,
}
use nox_vault.Common.{ap, some, arith, Bytes, Text, ◌++◌, pos, [], ◌≡◌, ◌∷◌, false, lit, List, refl}
use nox_vault.Vault.{matches, find_if, list, find, contains_name, metadata, parse_all}
use nox_vault.Vault.Unlocked.{
  update_unlocked, add_unlocked, get_unlocked, remove_unlocked, list_unlocked, name_in, sort,
}
use nox_vault.Vault.Contents.{Holds, Serves, get_secrets}

abbrev open_vault : VaultMetadata
open_vault = record vault_sample { private_metadata = false }

abbrev open_header : ToyJson
open_header =
    toy_put (toy_object (vault_fields (sealed 8 key_sample) kdf_sample false)) (lit "id")
      (jtext (lit "v1"))

-- A body that was posted, as the server sends it back.
abbrev versioned : ToyJson → ToyJson
versioned body = toy_put body (lit "record_version") (jint (pos 3))

abbrev first_answers : List ToyJson
first_answers = open_header ∷ jarray (jcons (versioned public_body) jnil) ∷ []

abbrev first_contents : List (Text × Bytes)
first_contents = (lit "mail", lit "pw") ∷ []

open_parsed : parse_vault open_header ≡ ok open_vault
unfolding parse_vault read_vault read_bytes base64_decode base64_encode validate_format toy_at
    toy_put toy_object toy_text toy_bool toy_u64 to_option of_option repeat
open_parsed = refl

public_parsed : parse_secret (versioned public_body) ≡ ok public_record
unfolding serialize_secret validate_format
public_parsed =
    parse_secret-serialize_secret_public (lit "s1") (lit "mail") value_sample 3 public_body
      (omega arith) value_sample-IsSendable refl

parse_all-cons :
    (j : ToyJson) (js : List ToyJson) (r : SecretRecord) (rs : List SecretRecord)
    → parse_secret j ≡ ok r
    → parse_all js ≡ ok rs
    → parse_all (j ∷ js) ≡ ok (r ∷ rs)
unfolding parse_all
parse_all-cons j js r rs h k = ground (arith, h, k)

none_parsed : parse_all [] ≡ ok []
unfolding parse_all
none_parsed = refl

first_served : Serves (world first_answers) open_vault (public_record ∷ [])
unfolding toy_answer toy_items to_list of_list
first_served = record {
  header = open_header;
  between = jarray (jcons (versioned public_body) jnil) ∷ [];
  body = jarray (jcons (versioned public_body) jnil);
  items = versioned public_body ∷ [];
  after = [];
  first = refl;
  second = refl;
  parsed = open_parsed;
  array = refl;
  records = parse_all-cons (versioned public_body) [] public_record [] public_parsed none_parsed;
}

first_held : Holds open_vault key_sample (public_record ∷ []) first_contents
unfolding Holds name_in decrypt toy_open repeat
first_held = (refl, refl, tt)

lookup_example : (get_unlocked (lit "mail") key_sample (world first_answers)).0 ≡ ok (lit "pw")
lookup_example =
    get_unlocked-lookup open_vault key_sample (lit "mail") (public_record ∷ []) first_contents
      (world first_answers) first_served first_held

names_example : (list_unlocked key_sample (world first_answers)).0 ≡ ok (lit "mail" ∷ [])
unfolding sort
names_example =
    list_unlocked-names open_vault key_sample (public_record ∷ []) first_contents
      (world first_answers) first_served first_held

removed_example :
    (before behind : List SecretRecord) × (r : SecretRecord) × (public_record ∷ []
      ≡ before ++ (r ∷ behind))
    × Holds open_vault key_sample (before ++ behind) (without (lit "mail") first_contents)
    × ((remove_unlocked (lit "mail") key_sample (world first_answers)).1.sent
        ≡ [] ++ (get_vault ∷ get_secrets ∷ delete_request r.id ∷ []))
removed_example =
    remove_unlocked-without open_vault key_sample (lit "mail") (lit "pw") (public_record ∷ [])
      first_contents (world first_answers) first_served first_held refl

-- A secret that is added to that vault: the drawn identifier is made of ones.
abbrev added_id : Text
added_id = (random_uuid tt).0

abbrev added_body : ToyJson
added_body =
    toy_put
      (toy_put
        (toy_put (toy_object (value_fields (sealed 7 (lit "pin")))) (lit "id") (jtext added_id))
        (lit "name") (jtext (lit "web")))
      (lit "encrypted_name") jnull

abbrev added_record : SecretRecord
added_record = record public_record {
  id = added_id;
  name = some (lit "web");
  value = sealed 7 (lit "pin");
}

added :
    add_unlocked (lit "web") (lit "pin") key_sample (world first_answers)
    ≡ (ok tt, record (world []) { sent = get_vault ∷ get_secrets ∷ post_request added_body ∷ [] })
unfolding add_unlocked metadata contains_name find list find_if matches name_secret parse_all
    parse_vault parse_secret read_vault read_bytes base64_decode base64_encode validate_format
    serialize_secret encrypt encrypt_with random_uuid uuid_text toy_answer toy_items to_list of_list
    repeat toy_seal toy_open toy_at toy_put toy_object toy_text toy_bool toy_u64 toy_int toy_is_null
    to_option of_option toy_is_object erase_buffer
added = refl

sent_example :
    Posts open_vault key_sample
      (public_record ∷ [])
      first_contents
      (lit "web")
      (lit "pin")
      3
      []
      (add_unlocked (lit "web") (lit "pin") key_sample (world first_answers)).1.sent
sent_example =
    add_unlocked-Posts open_vault key_sample (lit "web") (lit "pin") (public_record ∷ [])
      first_contents (world first_answers) 3 (omega arith) first_served first_held refl
      (ap (λ p. p.0) added)

added_value-IsSendable : IsSendable (sealed 7 (lit "pin")) 3
unfolding repeat
added_value-IsSendable = record {
  ciphertext = omega arith;
  nonce = omega arith;
  format = refl;
  algorithm = refl;
  in_range = omega arith;
}

added_parsed : parse_secret (versioned added_body) ≡ ok added_record
unfolding serialize_secret validate_format random_uuid uuid_text repeat
added_parsed =
    parse_secret-serialize_secret_public added_id (lit "web") (sealed 7 (lit "pin")) 3 added_body
      (omega arith) added_value-IsSendable refl

abbrev later_answers : List ToyJson
later_answers =
    open_header ∷ jarray (jcons (versioned public_body) (jcons (versioned added_body) jnil)) ∷ []

later_served : Serves (world later_answers) open_vault (public_record ∷ added_record ∷ [])
unfolding toy_answer toy_items to_list of_list
later_served = record {
  header = open_header;
  between = jarray (jcons (versioned public_body) (jcons (versioned added_body) jnil)) ∷ [];
  body = jarray (jcons (versioned public_body) (jcons (versioned added_body) jnil));
  items = versioned public_body ∷ versioned added_body ∷ [];
  after = [];
  first = refl;
  second = refl;
  parsed = open_parsed;
  array = refl;
  records =
      parse_all-cons (versioned public_body) (versioned added_body ∷ []) public_record
        (added_record ∷ []) public_parsed
        (parse_all-cons (versioned added_body) [] added_record [] added_parsed none_parsed);
}

get_added_example : (get_unlocked (lit "web") key_sample (world later_answers)).0 ≡ ok (lit "pin")
get_added_example =
    get_unlocked-add_unlocked open_vault key_sample (lit "web") (lit "pin") (public_record ∷ [])
      first_contents (world first_answers) (world later_answers) 3 added_body added_record
      (omega arith) first_served first_held refl (ap (λ p. p.0) added) (ap (λ p. p.1.sent) added)
      added_parsed later_served

updates : (update_unlocked (lit "mail") (lit "new") key_sample (world first_answers)).0 ≡ ok tt
unfolding update_unlocked metadata find list find_if matches update_body parse_all parse_vault
    parse_secret read_vault read_bytes base64_decode base64_encode validate_format serialize_secret
    encrypt encrypt_with toy_answer toy_items to_list of_list repeat toy_seal toy_open toy_at
    toy_put toy_object toy_text toy_bool toy_u64 toy_int toy_is_null to_option of_option
    toy_is_object erase_buffer
updates = refl

updated_example :
    (before behind : List SecretRecord) × (r : SecretRecord) × (e : EncryptedValue)
    × (body : ToyJson) × (public_record ∷ [] ≡ before ++ (r ∷ behind))
    × Holds open_vault key_sample
        (before ++ (record r { value = e } ∷ behind))
        (with_value (lit "mail") (lit "new") first_contents)
    × Carries r.name r.encrypted_name r.name_hash r.record_version e body
    × ((update_unlocked (lit "mail") (lit "new") key_sample (world first_answers)).1.sent
        ≡ [] ++ (get_vault ∷ get_secrets ∷ put_request r.id body ∷ []))
updated_example =
    update_unlocked-with_value open_vault key_sample (lit "mail") (lit "new") (lit "pw")
      (public_record ∷ []) first_contents (world first_answers) first_served first_held refl updates
