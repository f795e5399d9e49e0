-- ===== src/Vault/Unlocked.antt =====
-- The operations of client/src/vault_service.cpp on a vault whose key the caller holds.
use nox_vault.Models.Uuid.{random_uuid}
use nox_vault.Models.{EncryptedValue, SecretRecord}
use nox_vault.Libraries.Json.{JsonLib}
use nox_vault.Models.Wire.{serialize_secret}
use nox_vault.Errors.{guard, std_exception, Error, Result, err, ok}
use nox_vault.Vault.{contains_name, record_aad, list, find, metadata}
use nox_vault.Common.{
  not, lit, ltb, Option, Bytes, Bool, true, false, ◌&&◌, ◌==◌, none, some, Text, ◌||◌, [], ◌++◌,
  ◌∷◌, if◌then◌else◌, List,
}
use nox_vault.Crypto.{private_name_aad, encrypt, decrypt}
use nox_vault.Libraries.Sodium.{Random, Sodium}
use nox_vault.Effects.{
  plaintext, name_bytes, listed_name, Api, Eff, lift, pure, throw, try_catch, draw, sure, hold,
  wipe, api_post, api_put, api_remove, ◌>>=◌, ◌>>◌,
}
use nox_vault.Vault.Secrets.{name_secret, update_body, exists_error}

-- std::sort of texts: the order of `std::string`, byte by byte.
unfoldable pub text_le : Text → Text → Bool
text_le [] ys = true
text_le (x ∷ xs) [] = false
text_le (x ∷ xs) (y ∷ ys) = ltb x y || ((x == y) && text_le xs ys)

insert_text : Text → List Text → List Text
unfolding text_le
insert_text t [] = t ∷ []
insert_text t (u ∷ us) = let rest = u ∷ insert_text t us in if text_le t u then t ∷ u ∷ us else rest

unfoldable pub sort : List Text → List Text
unfolding insert_text
sort [] = []
sort (t ∷ ts) = insert_text t (sort ts)

module _ ⦃S : Sodium⦄ where
  -- What `list_unlocked` collects, without its buffers.
  unfoldable pub name_in : Text → Bytes → SecretRecord → Result Text
  name_in vault_id key r = elim r.name [
    | some n ↦ ok n
    | none ↦ elim r.encrypted_name [
      | some e ↦ decrypt e key (private_name_aad vault_id r.id)
      | none ↦ err std_exception
    ]
  ]

  unfoldable pub names_in : Text → Bytes → List SecretRecord → Result (List Text)
  unfolding name_in
  names_in vault_id key [] = ok []
  names_in vault_id key (r ∷ rs) = elim (name_in vault_id key r) [
    | ok n ↦ elim (names_in vault_id key rs) [ ok ns ↦ ok (n ∷ ns) | err e ↦ err e ]
    | err e ↦ err e
  ]

module _ ⦃S : Sodium⦄ ⦃J : JsonLib⦄ ⦃R : Random⦄ ⦃A : Api⦄ where
  -- The handler of `add_unlocked` and of `update_unlocked`.
  drop_plain : Error → Eff (Unit {0})
  drop_plain e = do wipe plaintext; throw e

  unfoldable pub add_unlocked : Text → Text → Bytes → Eff (Unit {0})
  unfolding drop_plain exists_error
  add_unlocked name plain key = do
    vault ← metadata
    there ← contains_name name vault key
    lift (guard (not there) exists_error)
    hold plaintext
    id ← draw (sure random_uuid)
    naming ← name_secret name vault key id
    try_catch
        (do
          encrypted ← draw (encrypt plain key naming.aad)
          wipe plaintext
          body ← lift (
              serialize_secret id naming.public_name naming.private_name encrypted naming.name_hash)
          api_post (lit "/secrets") body)
        drop_plain

  unfoldable pub get_unlocked : Text → Bytes → Eff Text
  get_unlocked name key = do
    vault ← metadata
    r ← find name vault (some key)
    plain ← lift (decrypt r.value key (record_aad vault r.id name))
    hold plaintext
    wipe plaintext
    pure plain

  unfoldable pub update_unlocked : Text → Text → Bytes → Eff (Unit {0})
  unfolding drop_plain
  update_unlocked name plain key = do
    vault ← metadata
    r ← find name vault (some key)
    hold plaintext
    try_catch
        (do
          encrypted ← draw (encrypt plain key (record_aad vault r.id name))
          wipe plaintext
          body ← lift (update_body r encrypted)
          api_put (lit "/secrets/" ++ r.id) body)
        drop_plain

  unfoldable pub remove_unlocked : Text → Bytes → Eff (Unit {0})
  remove_unlocked name key = do
    vault ← metadata
    r ← find name vault (some key)
    api_remove (lit "/secrets/" ++ r.id)

  -- The decrypted bytes are copied into a text of the result, and wiped. The texts are not: they are
  -- the caller's when the loop returns. A record with neither name would be read through an empty
  -- optional: the model stops there.
  decrypted_name : Text → Bytes → SecretRecord → Option EncryptedValue → Eff Text
  decrypted_name vault_id key r none = throw std_exception
  decrypted_name vault_id key r (some e) = do
    p ← lift (decrypt e key (private_name_aad vault_id r.id))
    hold name_bytes
    hold listed_name
    wipe name_bytes
    pure p

  unfoldable pub gather_name : Text → Bytes → SecretRecord → Option Text → Eff Text
  unfolding decrypted_name
  gather_name vault_id key r (some n) = pure n
  gather_name vault_id key r none = decrypted_name vault_id key r r.encrypted_name

  -- The loop over the records.
  unfoldable pub gather_names : Text → Bytes → List SecretRecord → Eff (List Text)
  unfolding gather_name
  gather_names vault_id key [] = pure []
  gather_names vault_id key (r ∷ rs) = do
    n ← gather_name vault_id key r r.name
    ns ← gather_names vault_id key rs
    pure (n ∷ ns)

  unfoldable pub list_unlocked : Bytes → Eff (List Text)
  list_unlocked key = do
    vault ← metadata
    records ← list
    names ← gather_names vault.id key records
    pure (sort names)
