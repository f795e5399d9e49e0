-- ===== src/Vault/Contents/Reading.antt =====
-- Reading from a vault is looking up in its contents.
use nox_vault.Vault.Unlocking.{get_vault}
use nox_vault.Errors.{Result, err, secret_not_found, or_throw, ok}
use nox_vault.Models.{SecretRecord, VaultMetadata}
use nox_vault.Common.{
  lookup, message, is_some, arith, Option, map, Text, List, Bytes, [], ◌∷◌, none, refl, some, ◌++◌,
  ◌≡◌,
}
use nox_vault.Vault.{find, find_if, matches, contains_name}
use nox_vault.Vault.Contents.{Holds, Serves, asked}
use nox_vault.Vault.Contents.Finding.{FindsLike, find_if-FindsLike, metadata-Serves, list-Serves}
use nox_vault.Vault.Unlocked.{
  name_in, gather_names, gather_name, sort, names_in, get_unlocked, list_unlocked,
}
use nox_vault.Effects.{pure, continue, ◌>>=◌, Api, World}
use nox_vault.Libraries.Json.{JsonLib}
use nox_vault.Libraries.Sodium.{Random, Sodium}

module _ ⦃S : Sodium⦄ ⦃J : JsonLib⦄ ⦃R : Random⦄ ⦃A : Api⦄ where
  get-FindsLike :
      (vault : VaultMetadata) (key : Bytes) (name : Text) (rs : List SecretRecord) (w : World)
      → Serves w vault rs
      → (o : Option Bytes)
      → FindsLike vault key name o (find_if (matches name vault.id (some key)) rs)
      → (get_unlocked name key w).0
        ≡ or_throw (secret_not_found (message "Secret not found: " ++ name)) o
  unfolding get_unlocked find FindsLike
  get-FindsLike vault key name rs w s none q =
      ground (arith, metadata-Serves w vault rs s, list-Serves w vault rs s, q)
  get-FindsLike vault key name rs w s (some p) (r, q, d) =
      ground (arith, metadata-Serves w vault rs s, list-Serves w vault rs s, q, d)

  -- When the server sends a vault and records that hold the contents `m` under the key, reading a
  -- secret gives the value of the first entry of its name, and an error if there is none.
  pub get_unlocked-lookup :
      (vault : VaultMetadata) (key : Bytes) (name : Text) (rs : List SecretRecord)
      (m : List (Text × Bytes)) (w : World)
      → Serves w vault rs
      → Holds vault key rs m
      → (get_unlocked name key w).0
        ≡ or_throw (secret_not_found (message "Secret not found: " ++ name)) (lookup name m)
  get_unlocked-lookup vault key name rs m w s h =
      get-FindsLike vault key name rs w s (lookup name m) (find_if-FindsLike vault key name rs m h)

  pub contains_name-lookup :
      (vault : VaultMetadata) (key : Bytes) (name : Text) (rs : List SecretRecord) (w : World)
      (s : Serves w vault rs) (o : Option Bytes)
      → FindsLike vault key name o (find_if (matches name vault.id (some key)) rs)
      → contains_name name vault key
          (record w { server = s.between; sent = w.sent ++ (get_vault ∷ []) })
        ≡ (ok (is_some o), asked w s.after)
  unfolding contains_name find FindsLike
  contains_name-lookup vault key name rs w s none q = ground (arith, list-Serves w vault rs s, q)
  contains_name-lookup vault key name rs w s (some p) (r, q, d) =
      ground (arith, list-Serves w vault rs s, q)

  names_in-Holds :
      (vault : VaultMetadata) (key : Bytes) (rs : List SecretRecord) (m : List (Text × Bytes))
      → Holds vault key rs m
      → names_in vault.id key rs ≡ ok (map (λ e. e.0) m)
  unfolding names_in Holds
  names_in-Holds vault key [] [] h = refl
  names_in-Holds vault key (r ∷ rs) ((n, p) ∷ m) (a, b, h) =
      ground (arith, names_in-Holds vault key rs m h)
  names_in-Holds vault key [] (e ∷ m) h = elim h [ ]
  names_in-Holds vault key (r ∷ rs) [] h = elim h [ ]

  gather_name-name_in :
      (vault_id : Text) (key : Bytes) (r : SecretRecord) (w : World)
      → (gather_name vault_id key r r.name w).0 ≡ name_in vault_id key r
  unfolding gather_name name_in
  gather_name-name_in vault_id key r w = ground arith

  -- The loop with its buffers collects the names.
  gather_names-names_in :
      (vault_id : Text) (key : Bytes) (rs : List SecretRecord) (w : World)
      → (gather_names vault_id key rs w).0 ≡ names_in vault_id key rs
  unfolding gather_names names_in
  gather_names-names_in vault_id key [] w = refl
  gather_names-names_in vault_id key (r ∷ rs) w =
      go (gather_name vault_id key r r.name w) (gather_name-name_in vault_id key r w)
        (gather_names-names_in vault_id key rs)
    where
      go :
          (p : Result Text × World)
          → p.0 ≡ name_in vault_id key r
          → ((v : World) → (gather_names vault_id key rs v).0 ≡ names_in vault_id key rs)
          → (continue (λ n. gather_names vault_id key rs >>= λ ns. pure (n ∷ ns)) p).0
            ≡ names_in vault_id key (r ∷ rs)
      go (ok n, v) e l = ground (arith, e, l v)
      go (err x, v) e l = ground (arith, e)

  -- Listing gives the names of the contents, sorted.
  pub list_unlocked-names :
      (vault : VaultMetadata) (key : Bytes) (rs : List SecretRecord) (m : List (Text × Bytes))
      (w : World)
      → Serves w vault rs
      → Holds vault key rs m
      → (list_unlocked key w).0 ≡ ok (sort (map (λ e. e.0) m))
  unfolding list_unlocked
  list_unlocked-names vault key rs m w s h =
      let gathered = gather_names-names_in vault.id key rs in
      ground (
        arith,
        metadata-Serves w vault rs s,
        list-Serves w vault rs s,
        gathered (asked w s.after),
        names_in-Holds vault key rs m h,
      )
