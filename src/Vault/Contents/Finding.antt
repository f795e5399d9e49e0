-- ===== src/Vault/Contents/Finding.antt =====
-- `find` and `contains_name` look a name up in the contents of the vault.
use nox_vault.Vault.Unlocking.{get_vault}
use nox_vault.Effects.{World, Api}
use nox_vault.Libraries.Json.{JsonLib}
use nox_vault.Crypto.{decrypt}
use nox_vault.Common.{
  Bool, subst, if◌then◌else◌, ◌++◌, eq_text_iff, arith, Bool-cases, eq_text, lookup, Option, List,
  Bytes, inr, ◌∷◌, none, ◌≡◌, Text, some, [], inl, refl,
}
use nox_vault.Errors.{Result, ok}
use nox_vault.Models.{SecretRecord, VaultMetadata}
use mathlib.Core.List.{append_assoc}
use nox_vault.Vault.{metadata, list, find_if, matches, record_aad}
use nox_vault.Vault.Contents.{asked, Serves, Holds}
use nox_vault.Vault.Unlocked.{name_in}
use nox_vault.Libraries.Sodium.{Random, Sodium}

module _ ⦃S : Sodium⦄ ⦃J : JsonLib⦄ where
  pub find_if-cons :
      {X : Type 0} (p : X → Result Bool) (x : X) (xs : List X) (b : Bool)
      → p x ≡ ok b
      → find_if p (x ∷ xs) ≡ (if b then ok (some x) else find_if p xs)
  unfolding find_if
  find_if-cons p x xs b e = rw (e, find_if)

  pub matches_lem :
      (name n vault_id : Text) (key : Bytes) (r : SecretRecord)
      → name_in vault_id key r ≡ ok n
      → matches name vault_id (some key) r ≡ ok (eq_text n name)
  unfolding matches name_in
  matches_lem name n vault_id key r h = ground arith

  -- What `find_if` gives for the value that the contents have under a name.
  unfoldable pub FindsLike :
      VaultMetadata → Bytes → Text → Option Bytes → Result (Option SecretRecord) → Type 0
  FindsLike vault key name none q = q ≡ ok none
  FindsLike vault key name (some p) q =
      (r : SecretRecord) × (q ≡ ok (some r))
      × (decrypt r.value key (record_aad vault r.id name) ≡ ok p)

  pub find_if-FindsLike :
      (vault : VaultMetadata) (key : Bytes) (name : Text) (rs : List SecretRecord)
      (m : List (Text × Bytes))
      → Holds vault key rs m
      → FindsLike vault key name (lookup name m) (find_if (matches name vault.id (some key)) rs)
  unfolding find_if FindsLike Holds
  find_if-FindsLike vault key name [] [] h = refl
  find_if-FindsLike vault key name (r ∷ rs) ((n, p) ∷ m) (a, b, h) =
      let step =
        find_if-cons (matches name vault.id (some key)) r rs (eq_text n name)
          (matches_lem name n vault.id key r a) in
      elim (Bool-cases (eq_text n name)) [
        | inl y ↦
            rw (step, y)
              (
                r,
                refl,
                subst (λ k. decrypt r.value key (record_aad vault r.id k) ≡ ok p)
                    ((eq_text_iff n name).0 y) b,
              )
        | inr z ↦ rw (step, z) (find_if-FindsLike vault key name rs m h)
      ]
  find_if-FindsLike vault key name [] (e ∷ m) h = elim h [ ]
  find_if-FindsLike vault key name (r ∷ rs) [] h = elim h [ ]

module _ ⦃S : Sodium⦄ ⦃J : JsonLib⦄ ⦃R : Random⦄ ⦃A : Api⦄ where
  -- The first two requests of every operation.
  pub metadata-Serves :
      (w : World) (vault : VaultMetadata) (rs : List SecretRecord) (s : Serves w vault rs)
      → metadata w ≡ (ok vault, record w { server = s.between; sent = w.sent ++ (get_vault ∷ []) })
  unfolding metadata
  metadata-Serves w vault rs s = rw (s.first, s.parsed) refl

  pub list-Serves :
      (w : World) (vault : VaultMetadata) (rs : List SecretRecord) (s : Serves w vault rs)
      → list (record w { server = s.between; sent = w.sent ++ (get_vault ∷ []) })
        ≡ (ok rs, asked w s.after)
  unfolding list
  list-Serves w vault rs s = rw (s.second, s.array, s.records, append_assoc w.sent _ _) refl
