-- ===== src/Vault/Contents.antt =====
-- What a vault holds, as the pairs of a name and a secret in the order of the records, and what the
-- operations of client/src/vault_service.cpp with a key at hand make of it.
pub mod Finding
pub mod Reading
pub mod Adding
pub mod Body
pub mod Changing
use nox_vault.Crypto.{decrypt}
use nox_vault.Models.Wire.{parse_vault}
use nox_vault.Vault.Unlocking.{get_vault}
use nox_vault.Errors.{ok}
use nox_vault.Models.{SecretRecord, VaultMetadata}
use nox_vault.Common.{Text, List, Bytes, ◌∷◌, none, ◌≡◌, some, [], ◌++◌, lit}
use nox_vault.Effects.{Method, Request, Api, World}
use nox_vault.Libraries.Json.{JsonLib}
use nox_vault.Libraries.Sodium.{Random, Sodium}
use nox_vault.Vault.{parse_all, record_aad}
use nox_vault.Vault.Unlocked.{name_in}

module _ ⦃S : Sodium⦄ ⦃J : JsonLib⦄ where
  -- The records are those of the contents, one by one: the name of each is plain or decrypts with the
  -- key, and so does its value, under the additional data of that name.
  unfoldable pub Holds : VaultMetadata → Bytes → List SecretRecord → List (Text × Bytes) → Type 0
  Holds vault key [] [] = Unit {0}
  Holds vault key [] (e ∷ m) = ⊥
  Holds vault key (r ∷ rs) [] = ⊥
  Holds vault key (r ∷ rs) ((name, plain) ∷ m) =
      (name_in vault.id key r ≡ ok name)
      × (decrypt r.value key (record_aad vault r.id name) ≡ ok plain)
      × Holds vault key rs m

module _ ⦃S : Sodium⦄ ⦃J : JsonLib⦄ ⦃R : Random⦄ ⦃A : Api⦄ where
  abbrev pub get_secrets : Request
  get_secrets = record { method = Method.get; path = lit "/secrets"; body = none }

  -- The server answers with this vault, then with these records.
  pub record Serves (w : World) (vault : VaultMetadata) (rs : List SecretRecord) : Type 0 where
    pub header : J.Json
    pub between : A.Server
    pub body : J.Json
    pub items : List J.Json
    pub after : A.Server
    pub first : A.answer get_vault w.server ≡ (ok header, between)
    pub second : A.answer get_secrets between ≡ (ok body, after)
    pub parsed : parse_vault header ≡ ok vault
    pub array : J.items body ≡ some items
    pub records : parse_all items ≡ ok rs

  -- The world after both requests.
  abbrev pub asked : World → A.Server → World
  asked w s = record w { server = s; sent = w.sent ++ (get_vault ∷ get_secrets ∷ []) }
