-- ===== src/Gui/Operations/Startup.antt =====
-- `startupSnapshot` of client/src/gui/app_controller.cpp.
use nox_vault.Config.Sessions.{load_session}
use nox_vault.Cli.Secrets.{names_of, agent_request}
use nox_vault.Vault.{list, metadata}
use nox_vault.Cli.{on_vault, on_agent, there}
use nox_vault.Models.{VaultMetadata, AuthSession}
use nox_vault.Agent.Channel.{Socket}
use nox_vault.Effects.{Api}
use nox_vault.Libraries.Json.{JsonLib}
use nox_vault.Libraries.Sodium.{Random, Sodium}
use nox_vault.Common.{
  Option, ℕ, Text, List, Bool, ◌∷◌, true, some, ◌==◌, none, if◌then◌else◌, false, lit,
}
use nox_vault.Cli.Program.{
  Desk, reading, check_server, on_terminal, lock_running, done, Program, ◌>>=◌, ◌>>◌,
}
use nox_vault.Cli.Program.Main.{configuration, effective_url, account}
use nox_vault.Agent.Client.{value_at, status_query, request}
use nox_vault.Gui.Answers.{Answer, text, flag, rows}
use nox_vault.Errors.{Result, ok, Error, err, server_error, version_conflict}
use nox_vault.Gui.Operations.{records_revision, records_with_timestamps, add_settings, with_token}

-- A `ServerError` with status 404.
unfoldable pub is_missing : Error → Bool
is_missing (server_error status code m) = status == 404
is_missing (version_conflict status code m) = status == 404
is_missing e = false

module _ ⦃S : Sodium⦄ ⦃J : JsonLib⦄ ⦃R : Random⦄ ⦃A : Api⦄ ⦃C : Socket⦄ (empty : J.Json → Bool)
    (values : J.Json → List J.Json) (fallback : Text) (now : ℕ) where
  -- The agent that runs is ask_unlocked whether the vault is unlocked.
  unfoldable pub ask_unlocked : Bool → Program Bool
  ask_unlocked false = done false
  ask_unlocked true = do
    r ← on_terminal (on_agent (request status_query))
    reading (λ d. value_at J.as_bool false r (lit "unlocked"))

  unfoldable pub relocked : Bool → Program (Unit {0})
  relocked true = lock_running true
  relocked false = done tt

  -- The end of the start with a session and a vault; `base` is what was collected before.
  unfoldable pub finish_start : Answer → AuthSession → Bool → Program Answer
  finish_start base s false =
      done ((lit "unlocked", flag false) ∷ (lit "screen", text (lit "unlock")) ∷ base)
  finish_start base s true = do
    a ← account empty fallback now none s
    r ← on_terminal (on_agent (request (agent_request (lit "list") a)))
    names ← reading (λ d. names_of (J.at r (lit "names")))
    records ← on_terminal (on_vault list)
    done (
        (lit "unlocked", flag true)
        ∷ (lit "screen", text (lit "app"))
        ∷ (lit "records", rows (records_with_timestamps names records))
        ∷ (lit "revision", text (records_revision records))
        ∷ base)

  unfoldable pub with_vault : Answer → Bool → AuthSession → Program Answer
  unfolding ask_unlocked relocked finish_start
  with_vault base start_locked s = do
    relocked_now ← (if start_locked then on_terminal there else done false)
    relocked relocked_now
    running ← on_terminal there
    unlocked ← ask_unlocked running
    finish_start base s unlocked

  unfoldable pub after_metadata :
      Answer → Bool → AuthSession → Result VaultMetadata × Desk → Result Answer × Desk
  unfolding with_vault is_missing
  after_metadata base start_locked s (ok v, d) = with_vault base start_locked s d
  after_metadata base start_locked s (err e, d) =
      if is_missing e then (ok ((lit "screen", text (lit "setup")) ∷ base), d) else (err e, d)

  unfoldable pub start_session : Answer → Bool → Option AuthSession → Program Answer
  unfolding after_metadata
  start_session base start_locked none = done ((lit "screen", text (lit "login")) ∷ base)
  start_session base start_locked (some s) = do
    with_token empty values fallback now s
    (λ d.
        after_metadata ((lit "email", text s.email) ∷ (lit "userId", text s.user_id) ∷ base)
          start_locked s (on_terminal (on_vault metadata) d))

  unfoldable pub startup_snapshot : Program Answer
  unfolding start_session
  startup_snapshot = do
    settings ← add_settings empty values fallback now
    c ← configuration empty fallback now none
    url ← effective_url empty fallback now none
    on_terminal check_server
    s ← reading (λ d. load_session empty d.files)
    start_session ((lit "healthy", flag true) ∷ settings) c.start_locked s
