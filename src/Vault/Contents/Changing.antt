-- ===== src/Vault/Contents/Changing.antt =====
-- Updating and removing a secret act on the first entry of its name.
use nox_vault.Crypto.Sealing.{decrypt-encrypt}
use nox_vault.Vault.Contents.Body.{Carries, update_body-Carries}
use nox_vault.Vault.Secrets.{update_body}
use nox_vault.Crypto.{encrypt, decrypt}
use nox_vault.Vault.Unlocking.{get_vault}
use nox_vault.Models.{EncryptedValue, SecretRecord, VaultMetadata}
use nox_vault.Errors.{Result-cases, ok}
use nox_vault.Common.{
  sym, subst, ap, eq_text_iff, Bool-cases, arith, lookup, eq_text, lit, Bytes, List, [], ◌≡◌, ◌++◌,
  inl, if◌then◌else◌, inr, Text, some, ◌∷◌, none, refl,
}
use mathlib.Core.List.{append_assoc}
use nox_vault.Vault.{find, find_if, matches, record_aad}
use nox_vault.Vault.Contents.{Holds, Serves, get_secrets}
use nox_vault.Vault.Contents.Finding.{matches_lem, find_if-cons, metadata-Serves, list-Serves}
use nox_vault.Vault.Unlocked.{update_unlocked, remove_unlocked, name_in}
use nox_vault.Effects.{Request, Api, World, Method}
use nox_vault.Libraries.Json.{JsonLib}
use nox_vault.Libraries.Sodium.{Random, Sodium}

-- The contents without the first entry of a name, and with another value there.
unfoldable pub without : Text → List (Text × Bytes) → List (Text × Bytes)
without name [] = []
without name ((n, p) ∷ m) = let rest = (n, p) ∷ without name m in if eq_text n name then m else rest

unfoldable pub with_value : Text → Bytes → List (Text × Bytes) → List (Text × Bytes)
with_value name plain [] = []
with_value name plain ((n, p) ∷ m) =
    let rest = (n, p) ∷ with_value name plain m in if eq_text n name then (n, plain) ∷ m else rest

module _ ⦃S : Sodium⦄ ⦃J : JsonLib⦄ where
  -- The records around the first one of a name, and the contents when it goes or gets another value.
  pub record Splits (vault : VaultMetadata) (key : Bytes) (name : Text) (rs : List SecretRecord)
      (m : List (Text × Bytes)) : Type 0 where
    pub before : List SecretRecord
    pub r : SecretRecord
    pub behind : List SecretRecord
    pub whole : rs ≡ before ++ (r ∷ behind)
    pub found : find_if (matches name vault.id (some key)) rs ≡ ok (some r)
    pub named : name_in vault.id key r ≡ ok name
    pub removed : Holds vault key (before ++ behind) (without name m)
    pub changed :
        (e : EncryptedValue) (plain : Bytes)
        → decrypt e key (record_aad vault r.id name) ≡ ok plain
        → Holds vault key (before ++ (record r { value = e } ∷ behind)) (with_value name plain m)

  split-first :
      (vault : VaultMetadata) (key : Bytes) (name : Text) (rs : List SecretRecord)
      (m : List (Text × Bytes)) (old : Bytes)
      → Holds vault key rs m
      → lookup name m ≡ some old
      → Splits vault key name rs m
  unfolding Holds without with_value name_in
  split-first vault key name [] [] old h e = absurd (cc e)
  split-first vault key name [] (x ∷ m) old h e = elim h [ ]
  split-first vault key name (r ∷ rs) [] old h e = elim h [ ]
  split-first vault key name (r ∷ rs) ((n, p) ∷ m) old (a, b, h) e =
      let step =
        find_if-cons (matches name vault.id (some key)) r rs (eq_text n name)
          (matches_lem name n vault.id key r a) in
      elim (Bool-cases (eq_text n name)) [
        | inl y ↦
            let same = (eq_text_iff n name).0 y in
            record {
              before = [];
              r = r;
              behind = rs;
              whole = refl;
              found = rw (step, y) refl;
              named = rw (← same) a;
              removed = rw y h;
              changed = λ v q d.
                  rw y (
                    a,
                    subst (λ k. decrypt v key (record_aad vault r.id k) ≡ ok q) (sym same) d,
                    h,
                  );
            }
        | inr z ↦
            let i = split-first vault key name rs m old h (rw z at e) in
            record {
              before = r ∷ i.before;
              r = i.r;
              behind = i.behind;
              whole = rw i.whole refl;
              found = rw (step, z) i.found;
              named = i.named;
              removed = rw z (a, b, i.removed);
              changed = λ v q d. rw z (a, b, i.changed v q d);
            }
      ]

module _ ⦃S : Sodium⦄ ⦃J : JsonLib⦄ ⦃R : Random⦄ ⦃A : Api⦄ where
  abbrev pub delete_request : Text → Request
  delete_request id = record { method = Method.delete; path = lit "/secrets/" ++ id; body = none }

  -- Removing a secret asks the server to delete the first record of its name, without which the
  -- records hold the contents without that entry.
  pub remove_unlocked-without :
      (vault : VaultMetadata) (key : Bytes) (name : Text) (old : Bytes) (rs : List SecretRecord)
      (m : List (Text × Bytes)) (w : World)
      → Serves w vault rs
      → Holds vault key rs m
      → lookup name m ≡ some old
      → (before behind : List SecretRecord) × (r : SecretRecord) × (rs ≡ before ++ (r ∷ behind))
        × Holds vault key (before ++ behind) (without name m)
        × ((remove_unlocked name key w).1.sent
            ≡ w.sent ++ (get_vault ∷ get_secrets ∷ delete_request r.id ∷ []))
  unfolding remove_unlocked find
  remove_unlocked-without vault key name old rs m w s h e =
      let i = split-first vault key name rs m old h e in
      (
        i.before,
        i.behind,
        i.r,
        i.whole,
        i.removed,
        ground (
          arith,
          metadata-Serves w vault rs s,
          list-Serves w vault rs s,
          i.found,
          append_assoc w.sent (get_vault ∷ get_secrets ∷ []) (delete_request i.r.id ∷ []),
        ),
      )

  abbrev pub put_request : Text → J.Json → Request
  put_request id body = record {
    method = Method.put;
    path = lit "/secrets/" ++ id;
    body = some body;
  }

  -- Updating a secret, when it succeeds, puts to the first record of its name an encrypted value with
  -- which the records hold the contents with the new secret there. The body carries that value, the
  -- version of the record, which the server compares, its name, public or encrypted and with its hash,
  -- and no id.
  pub update_unlocked-with_value :
      (vault : VaultMetadata) (key : Bytes) (name : Text) (plain old : Bytes)
      (rs : List SecretRecord) (m : List (Text × Bytes)) (w : World)
      → Serves w vault rs
      → Holds vault key rs m
      → lookup name m ≡ some old
      → (update_unlocked name plain key w).0 ≡ ok tt
      → (before behind : List SecretRecord) × (r : SecretRecord) × (e : EncryptedValue)
        × (body : J.Json) × (rs ≡ before ++ (r ∷ behind))
        × Holds vault key (before ++ (record r { value = e } ∷ behind)) (with_value name plain m)
        × Carries r.name r.encrypted_name r.name_hash r.record_version e body
        × ((update_unlocked name plain key w).1.sent
            ≡ w.sent ++ (get_vault ∷ get_secrets ∷ put_request r.id body ∷ []))
  unfolding update_unlocked find
  update_unlocked-with_value vault key name plain old rs m w s h l done =
      let i = split-first vault key name rs m old h l in
      let front = metadata-Serves w vault rs s in
      let records = list-Serves w vault rs s in
      let aad = record_aad vault i.r.id name in
      elim (Result-cases (encrypt plain key aad w.random).0) [
        | inr (x, q) ↦ absurd (ground (arith, front, records, i.found, q))
        | inl (e, q) ↦ elim (Result-cases (update_body i.r e)) [
          | inr (x, b) ↦ absurd (ground (arith, front, records, i.found, q, b))
          | inl (body, b) ↦ (
            i.before,
            i.behind,
            i.r,
            e,
            body,
            i.whole,
            i.changed e plain (
                decrypt-encrypt plain key aad w.random (encrypt plain key aad w.random).1 e
                  (ap (λ z. (z, (encrypt plain key aad w.random).1)) q)),
            update_body-Carries i.r e body b,
            ground (
              arith,
              front,
              records,
              i.found,
              q,
              b,
              append_assoc w.sent (get_vault ∷ get_secrets ∷ []) (put_request i.r.id body ∷ []),
            ),
          )
        ]
      ]
