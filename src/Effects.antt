-- ===== src/Effects.antt =====
-- Computations of the client that draw random bytes, send requests and may throw. The state also
-- records the requests that were sent and which buffers with secret bytes are alive and not wiped.
use nox_vault.Libraries.Sodium.{Random}
use nox_vault.Libraries.Json.{JsonLib}
use nox_vault.Common.{
  Option, Text, ◌++◌, [], true, List, false, none, Bool, if◌then◌else◌, some, ◌∷◌,
}
use nox_vault.Errors.{Error, Result, ok, err}

pub data Method : Type 0 where
  get post put delete : Method

-- The local buffers of the client that hold a secret.
pub data Buffer : Type 0 where
  password new_password confirmation kek vault_key plaintext name_bytes listed_name : Buffer

pub same_buffer : Buffer → Buffer → Bool
same_buffer password password = true
same_buffer new_password new_password = true
same_buffer confirmation confirmation = true
same_buffer kek kek = true
same_buffer vault_key vault_key = true
same_buffer plaintext plaintext = true
same_buffer name_bytes name_bytes = true
same_buffer listed_name listed_name = true
same_buffer a b = false

-- Wiping a buffer that is not there changes nothing.
unfoldable pub erase_buffer : Buffer → List Buffer → List Buffer
unfolding same_buffer
erase_buffer b [] = []
erase_buffer b (c ∷ l) = let rest = c ∷ erase_buffer b l in if same_buffer b c then l else rest

module _ ⦃J : JsonLib⦄ where
  pub record Request : Type 0 where
    pub method : Method
    pub path : Text
    pub body : Option J.Json

  -- The side that answers requests: `ApiClient` with the server behind it.
  pub record Api : Type 1 where
    pub Server : Type 0
    pub answer : Request → Server → Result J.Json × Server

module _ ⦃J : JsonLib⦄ ⦃R : Random⦄ ⦃A : Api⦄ where
  pub record World : Type 0 where
    pub random : R.State
    pub server : A.Server
    pub sent : List Request
    pub live : List Buffer

  abbrev pub Eff : Type 0 → Type 0
  Eff X = World → Result X × World

  abbrev pub lift : {X : Type 0} → Result X → Eff X
  lift r w = (r, w)

  abbrev pub pure : {X : Type 0} → X → Eff X
  pure x w = (ok x, w)

  abbrev pub throw : {X : Type 0} → Error → Eff X
  throw e w = (err e, w)

  abbrev pub continue : {X Y : Type 0} → (X → Eff Y) → Result X × World → Result Y × World
  continue f (ok x, w) = f x w
  continue f (err e, w) = (err e, w)

  infixl 5 ◌>>=◌ ◌>>◌
  abbrev pub ◌>>=◌ : {X Y : Type 0} → Eff X → (X → Eff Y) → Eff Y
  ◌>>=◌ m f w = continue f (m w)

  abbrev pub ◌>>◌ : {Y : Type 0} → Eff (Unit {0}) → Eff Y → Eff Y
  m >> k = m >>= λ _. k

  abbrev pub handle : {X : Type 0} → (Error → Eff X) → Result X × World → Result X × World
  handle h (ok x, w) = (ok x, w)
  handle h (err e, w) = h e w

  -- try { m } catch (...) { h }
  abbrev pub try_catch : {X : Type 0} → Eff X → (Error → Eff X) → Eff X
  try_catch m h w = handle h (m w)

  -- A step of the random generator.
  abbrev step : {X : Type 0} → World → Result X × R.State → Result X × World
  step w (r, s) = (r, record w { random = s })

  abbrev pub draw : {X : Type 0} → (R.State → Result X × R.State) → Eff X
  draw f w = step w (f w.random)

  abbrev pub sure : {X : Type 0} → (R.State → X × R.State) → R.State → Result X × R.State
  sure f s = let (x, s') = f s in (ok x, s')

  -- A buffer comes to hold a secret; `CryptoService::wipe` overwrites it.
  abbrev pub hold : Buffer → Eff (Unit {0})
  hold b w = (ok tt, record w { live = b ∷ w.live })

  abbrev pub wipe : Buffer → Eff (Unit {0})
  wipe b w = (ok tt, record w { live = erase_buffer b w.live })

  abbrev answered : World → Request → Result J.Json × A.Server → Result J.Json × World
  answered w q (r, s) = (r, record w { server = s; sent = w.sent ++ (q ∷ []) })

  abbrev pub send : Request → Eff J.Json
  send q w = answered w q (A.answer q w.server)

  -- api_.get, api_.post, api_.put, api_.remove
  abbrev pub api_get : Text → Eff J.Json
  api_get path = send (record { method = get; path = path; body = none })

  abbrev pub api_post : Text → J.Json → Eff (Unit {0})
  api_post path body =
      send (record { method = post; path = path; body = some body }) >>= λ _. pure tt

  abbrev pub api_put : Text → J.Json → Eff (Unit {0})
  api_put path body = send (record { method = put; path = path; body = some body }) >>= λ _. pure tt

  abbrev pub api_remove : Text → Eff (Unit {0})
  api_remove path = send (record { method = delete; path = path; body = none }) >>= λ _. pure tt
