-- ===== src/Models/Wire/Rejects.antt =====
-- What the parsers of a response accept and how they fail.
use nox_vault.Errors.Rules.{
  Yields-ok, Yields-bind, yields_rules, Yields-rethrow, Throws-rethrow, Yields, Throws-or_throw,
  Throws-bind, Throws-ok, throws_rules, Throws,
}
use nox_vault.Models.Wire.{
  parse_secret, invalid_response, parse_vault, read_secret, read_vault, read, member_or, if_present,
  name_of, bytes_of, read_bytes,
}
use nox_vault.Errors.{
  err, ok, server_error, or_throw, Result, api_compatibility_error, crypto_error, json_exception,
  Error,
}
use nox_vault.Models.{
  crypto_algorithm, EncryptedValue, SecretRecord, validate_format, base64_decode,
  unpack_encrypted_name,
}
use nox_vault.Libraries.Json.{JsonLib}
use nox_vault.Common.{
  subst, length-drop, drop, eq_text_iff, length-take, ltb, arith, not, Bool-cases, true, is_some,
  same_bool, length, lit, ◌⊎◌, inr, inl, false, pos, ◌≡◌, ◌≤◌, none, some, Option, ℤ, Text, Bytes,
  ◌∷◌, [],
}
use nox_vault.Libraries.Sodium.{Sodium}

module _ ⦃S : Sodium⦄ ⦃J : JsonLib⦄ where
  -- The errors below the parsers.
  data IsReadError : Error → Type 0 where
    json : IsReadError json_exception
    crypto : (m : Text) → IsReadError (crypto_error m)
    format : (m : Text) → IsReadError (api_compatibility_error m)

  base64_decode-Throws : (t : Text) → Throws IsReadError (base64_decode t)
  unfolding base64_decode
  base64_decode-Throws [] = search (throws_rules, crypto)
  base64_decode-Throws (c ∷ s) = search (throws_rules, crypto)

  read_bytes-Throws : (j : J.Json) (k : Text) → Throws IsReadError (read_bytes j k)
  unfolding read_bytes
  read_bytes-Throws j k = search (throws_rules, json, base64_decode-Throws)

  validate_format-Throws : (v : ℤ) (a : Text) → Throws IsReadError (validate_format v a)
  unfolding validate_format
  validate_format-Throws v a = search (throws_rules, format)

  unpack-Throws : (b : Bytes) → Throws IsReadError (unpack_encrypted_name b)
  unfolding unpack_encrypted_name
  unpack-Throws b = search (throws_rules, crypto)

  name_of-Throws : (v : J.Json) → Throws IsReadError (name_of v)
  unfolding name_of bytes_of
  name_of-Throws v = search (throws_rules, json, base64_decode-Throws, unpack-Throws) depth 7

  bytes_of-Throws : (v : J.Json) → Throws IsReadError (bytes_of v)
  unfolding bytes_of
  bytes_of-Throws v = search (throws_rules, json, base64_decode-Throws) depth 7

  if_present-Throws {ℓ} :
      {A : Type ℓ} (get : J.Json → Result A) (o : Option J.Json)
      → ((v : J.Json) → Throws IsReadError (get v))
      → Throws IsReadError (if_present get o)
  if_present-Throws get none t = Throws-ok _
  if_present-Throws get (some v) t = Throws-bind _ _ (t v) (λ a. Throws-ok _)

  member_or-Throws {ℓ} :
      {A : Type ℓ} (get : J.Json → Option A) (d : A) (o : Option J.Json)
      → Throws IsReadError (member_or get d o)
  member_or-Throws get d none = Throws-ok _
  member_or-Throws get d (some v) = Throws-or_throw _ _ json

  read-Throws :
      {A : Type 0} (get : J.Json → Option A) (j : J.Json) (k : Text)
      → Throws IsReadError (read get j k)
  read-Throws get j k =
      Throws-bind (or_throw json_exception (J.at j k)) (λ v. or_throw json_exception (get v))
        (Throws-or_throw _ _ json) (λ v. Throws-or_throw _ _ json)

  ruleset read_rules = (
    throws_rules, read-Throws, read_bytes-Throws, name_of-Throws, bytes_of-Throws,
    if_present-Throws, member_or-Throws, validate_format-Throws, crypto, format, json,
  )

  read_vault-Throws : (j : J.Json) → Throws IsReadError (read_vault j)
  unfolding read_vault
  read_vault-Throws j = search read_rules depth 20

  read_secret-Throws : (j : J.Json) → Throws IsReadError (read_secret j)
  unfolding read_secret
  read_secret-Throws j = search read_rules depth 30

  -- The errors of the parsers.
  pub data IsResponseError : Error → Type 0 where
    invalid : (m : Text) → IsResponseError (server_error 0 (lit "invalid_response") m)
    unsupported : (m : Text) → IsResponseError (api_compatibility_error m)

  invalid_response-IsResponseError :
      (m : Text) (e : Error) → IsReadError e → IsResponseError (invalid_response m e)
  invalid_response-IsResponseError m e json = invalid m
  invalid_response-IsResponseError m e (crypto c) = invalid m
  invalid_response-IsResponseError m e (format c) = unsupported c

  parse_secret-Throws : (j : J.Json) → Throws IsResponseError (parse_secret j)
  unfolding parse_secret
  parse_secret-Throws j =
      Throws-rethrow IsReadError _ _ (read_secret-Throws j) (invalid_response-IsResponseError _)

  parse_vault-Throws : (j : J.Json) → Throws IsResponseError (parse_vault j)
  unfolding parse_vault
  parse_vault-Throws j =
      Throws-rethrow IsReadError _ _ (read_vault-Throws j) (invalid_response-IsResponseError _)

  -- Whatever the server answers, parsing a vault or a secret fails only with the error
  -- `invalid_response` or with one of the unsupported-format errors: no JSON and no crypto exception
  -- leaves the parsers.
  parse_errors :
      (j : J.Json) (e : Error)
      → (parse_vault j ≡ err e) ⊎ (parse_secret j ≡ err e)
      → IsResponseError e
  parse_errors j e (inl h) = (parse_vault-Throws j).at e h
  parse_errors j e (inr h) = (parse_secret-Throws j).at e h

  abbrev NameFits : Option EncryptedValue → Type 0
  NameFits none = Unit {0}
  NameFits (some e) = (length e.nonce ≡ 24) × (16 ≤ length e.ciphertext)

  -- A secret record as the rest of the client relies on it.
  pub record IsSecret (r : SecretRecord) : Type 0 where
    pub one_name : same_bool (is_some r.name) (is_some r.encrypted_name) ≡ false
    pub version : r.value.version ≡ pos 1
    pub algorithm : r.value.algorithm ≡ crypto_algorithm
    pub name_fits : NameFits r.encrypted_name

  unpack-NameFits :
      (b : Bytes) (e : EncryptedValue) → unpack_encrypted_name b ≡ ok e → NameFits (some e)
  unfolding unpack_encrypted_name
  unpack-NameFits b e h = elim (Bool-cases (ltb (length b) 45)) [
    | inl short ↦ absurd (ground (arith, short))
    | inr room ↦
        let n = length-take 24 (drop 5 b) in
        let m = length-drop 5 b in
        let c = length-drop 29 b in (ground (arith, n, m), ground (arith, c))
  ]

  name_of-NameFits : (v : J.Json) → Yields (λ e. NameFits (some e)) (name_of v)
  unfolding name_of
  name_of-NameFits v =
      Yields-bind (bytes_of v) unpack_encrypted_name (λ b _. record { at = unpack-NameFits b })

  if_present-NameFits :
      (o : Option J.Json) (n : Option EncryptedValue) → if_present name_of o ≡ ok n → NameFits n
  if_present-NameFits none n h = subst NameFits {x = none} {y = n} (cc h) tt
  if_present-NameFits (some v) n h =
      (Yields-bind {P = NameFits} (name_of v) (λ e. ok (some e))
          (λ e q. Yields-ok (some e) ((name_of-NameFits v).at e q))).at
        n h

  IsSecret-built :
      (id : Text) (name : Option Text) (encrypted_name : Option EncryptedValue)
      (hash : Option Bytes) (version : ℤ) (algorithm : Text) (ciphertext nonce : Bytes)
      (record_version : ℤ) (created updated : Option Text) (o : Option J.Json) (u : Unit {0})
      → if_present name_of o ≡ ok encrypted_name
      → not (same_bool (is_some name) (is_some encrypted_name)) ≡ true
      → validate_format version algorithm ≡ ok u
      → IsSecret (record {
        id = id;
        name = name;
        encrypted_name = encrypted_name;
        name_hash = hash;
        value = record {
          version = version;
          algorithm = algorithm;
          ciphertext = ciphertext;
          nonce = nonce;
        };
        record_version = record_version;
        created_at = created;
        updated_at = updated;
      })
  unfolding validate_format
  IsSecret-built id name en hash v a ct n rv c d o u p q w = record {
    one_name = ground (arith, q);
    version = ground (arith, w, eq_text_iff a crypto_algorithm);
    algorithm = ground (arith, w, eq_text_iff a crypto_algorithm);
    name_fits = if_present-NameFits o en p;
  }

  parse_secret-Yields : (j : J.Json) → Yields IsSecret (parse_secret j)
  unfolding parse_secret read_secret
  parse_secret-Yields j = Yields-rethrow _ _ (search (yields_rules, IsSecret-built) depth 40)

  -- An accepted secret has a plain or an encrypted name and never both, is of the one supported
  -- format, and its encrypted name has a whole nonce and at least a tag.
  pub parse_secret-IsSecret : (j : J.Json) (r : SecretRecord) → parse_secret j ≡ ok r → IsSecret r
  parse_secret-IsSecret j r h = (parse_secret-Yields j).at r h
