-- ===== src/Agent.antt =====
-- `run_agent` of client/src/agent.cpp: the state that the watchdog and the request loop share, one
-- round of the watchdog, and the handling of one request. Times are in nanoseconds of the steady
-- clock and an argument of each step; the time-outs are in seconds. The mutex makes a round of the
-- watchdog and the part of a request behind the lock single steps. The `ApiClient` that a request
-- builds from its `server_url`, `timeout` and `token` is the `Api` of the section.
pub mod Connection
pub mod Operations
pub mod Session
pub mod Channel
pub mod Client
use nox_vault.Agent.Operations.{run_operation}
use nox_vault.Errors.{
  nox_error, network_error, authentication_error, crypto_error, invalid_master_password,
  secret_not_found, configuration_error, api_compatibility_error, server_error, version_conflict,
  json_exception, std_exception, ◌>>=◌, ◌>>◌,
}
use nox_vault.Crypto.{key_bytes}
use nox_vault.Models.{base64_decode}
use nox_vault.Models.Wire.{member_or, read}
use nox_vault.Vault.Unlocked.{
  add_unlocked, remove_unlocked, get_unlocked, update_unlocked, list_unlocked,
}
use nox_vault.Libraries.Json.{JsonLib}
use nox_vault.Errors.{
  version_conflict, server_error, api_compatibility_error, configuration_error, secret_not_found,
  invalid_master_password, crypto_error, guard, json_exception, authentication_error, network_error,
  nox_error, Result, Error, err, ok,
}
use nox_vault.Libraries.Sodium.{Random, Sodium}
use nox_vault.Common.{
  length, message, Option, eq_text, map, List, ltb, lit, Bool, not, false, some, true, ◌-◌, [],
  ◌||◌, ◌/◌, ◌*◌, Bytes, ◌==◌, pos, ◌&&◌, if◌then◌else◌, none, Text, ◌∷◌, ℕ,
}
use nox_vault.Effects.{World, Api}

pub record Agent : Type 0 where
  pub key : Bytes
  pub started : ℕ
  pub last : ℕ
  pub stop : Bool

pub record Timeouts : Type 0 where
  pub idle : ℕ
  pub absolute : ℕ

abbrev pub second : ℕ
second = 1_000_000_000

abbrev pub is_empty : Bytes → Bool
is_empty [] = true
is_empty (x ∷ xs) = false

-- Locked, at the time when the agent starts.
abbrev pub fresh : ℕ → Agent
fresh now = record { key = []; started = now; last = now; stop = false }

-- The body of the watchdog's loop after its wait of one second.
unfoldable pub watchdog : Timeouts → ℕ → Agent → Agent
watchdog t now a =
    if not (is_empty a.key)
      && (ltb (t.idle * second) (now - a.last) || ltb (t.absolute * second) (now - a.started))
    then record a { key = [] }
    else a

-- std::max(0L, limit - elapsed) with whole elapsed seconds; 0 while locked
unfoldable pub seconds_left : ℕ → ℕ → ℕ → Bytes → ℕ
seconds_left limit since now key = if is_empty key then 0 else limit - (now - since) / second

-- e.what(); the texts of the libraries' own exceptions are a parameter.
abbrev pub what : Text → Error → Text
what other (nox_error m) = m
what other (network_error m) = m
what other (authentication_error m) = m
what other (crypto_error m) = m
what other (invalid_master_password m) = m
what other (secret_not_found m) = m
what other (configuration_error m) = m
what other (api_compatibility_error m) = m
what other (server_error status code m) = m
what other (version_conflict status code m) = m
what other json_exception = other
what other std_exception = other

module _ ⦃S : Sodium⦄ ⦃J : JsonLib⦄ where
  -- The members of a reply after {"ok", true}, or the error that is thrown.
  abbrev pub Outcome : Type 0
  Outcome = Result (List (Text × J.Json))

  key_of : J.Json → Result Bytes
  key_of q = do
    t ← read J.as_text q (lit "key")
    candidate ← base64_decode t
    guard (length candidate == key_bytes)
        (nox_error (message "Invalid Vault Key supplied to agent"))
    ok candidate

  adopt : ℕ → Agent → Result Bytes → Outcome × Agent
  adopt now a (ok candidate) = (ok [], record a { key = candidate; started = now; last = now })
  adopt now a (err e) = (err e, a)

  unfoldable pub unlock_request : ℕ → J.Json → Agent → Outcome × Agent
  unfolding key_of adopt
  unlock_request now q a = adopt now a (key_of q)

  unfoldable pub status_request : Timeouts → ℕ → Agent → Outcome × Agent
  status_request t now a = (
    ok (
        (lit "unlocked", J.bool (not (is_empty a.key)))
        ∷ (lit "idle_seconds", J.int (pos (seconds_left t.idle a.last now a.key)))
        ∷ (lit "absolute_seconds", J.int (pos (seconds_left t.absolute a.started now a.key)))
        ∷ []),
    a,
  )

  unfoldable pub lock_request : Agent → Outcome × Agent
  lock_request a = (ok [], record a { key = []; stop = true })

module _ ⦃S : Sodium⦄ ⦃J : JsonLib⦄ ⦃R : Random⦄ ⦃A : Api⦄ where
  touch : ℕ → Agent → Outcome × World → Outcome × Agent × World
  touch now a (r, w) = (r, record a { last = now }, w)

  unfoldable pub vault_request : ℕ → Text → J.Json → Agent → World → Outcome × Agent × World
  unfolding touch
  vault_request now op q a w =
      if is_empty a.key
      then (err (nox_error (message "Vault session expired. Run 'nox unlock'.")), a, w)
      else touch now a (run_operation op q a.key w)

  beside : World → Outcome × Agent → Outcome × Agent × World
  beside w (r, a) = (r, a, w)

  -- The chain of tests on `op`, under the lock.
  unfoldable pub dispatch : Timeouts → ℕ → Text → J.Json → Agent → World → Outcome × Agent × World
  unfolding beside
  dispatch t now op q a w =
      if eq_text op (lit "unlock")
      then beside w (unlock_request now q a)
      else if eq_text op (lit "status")
      then beside w (status_request t now a)
      else if eq_text op (lit "lock")
      then beside w (lock_request a)
      else vault_request now op q a w

  reply : Text → Outcome → J.Json
  reply other (ok fields) = J.object ((lit "ok", J.bool true) ∷ fields)
  reply other (err e) =
      J.object ((lit "ok", J.bool false) ∷ (lit "error", J.text (what other e)) ∷ [])

  respond : Text → Outcome × Agent × World → J.Json × Agent × World
  respond other (r, a, w) = (reply other r, a, w)

  on_operation : Timeouts → ℕ → J.Json → Agent → World → Result Text → Outcome × Agent × World
  on_operation t now q a w (ok op) = dispatch t now op q a w
  on_operation t now q a w (err e) = (err e, a, w)

  on_parsed : Timeouts → ℕ → Agent → World → Option J.Json → Outcome × Agent × World
  on_parsed t now a w none = (err json_exception, a, w)
  on_parsed t now a w (some q) = on_operation t now q a w (read J.as_text q (lit "op"))

  -- The body of the request loop behind the frame: parse, dispatch, answer.
  unfoldable pub serve_request : Timeouts → Text → ℕ → Text → Agent → World → J.Json × Agent × World
  unfolding reply respond on_operation on_parsed
  serve_request t other now raw a w = respond other (on_parsed t now a w (J.parse raw))
