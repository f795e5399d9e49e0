-- ===== src/Cli/Program/Main.antt =====
-- The commands of `main` of client/src/main.cpp and their order: what is read of the configuration,
-- whether the server is asked, and whether a session is needed. `empty` is j.empty() of the library,
-- `fallback` the address that the build sets, `now` the time in seconds, `copy` the option --copy.
use nox_vault.ApiClient.{strip_slashes}
use nox_vault.Backup.{export_file, import_file}
use nox_vault.Cli.Status.{print_agent_status}
use nox_vault.Auth.{logout, require_session}
use nox_vault.Config.Sessions.{Files, load_session}
use nox_vault.Cli.Secrets.{secret_command, Account}
use nox_vault.Models.{AuthSession}
use nox_vault.Agent.Channel.{Socket}
use nox_vault.Effects.{Api}
use nox_vault.Libraries.Json.{JsonLib}
use nox_vault.Libraries.Sodium.{Random, Sodium}
use nox_vault.Errors.{nox_error, Result, ok, err}
use nox_vault.Config.Settings.Showing.{get}
use nox_vault.Config.Settings.{
  unset, has_server_override, effective_server_url, load, ClientConfig, set,
}
use nox_vault.Cli.Program.{
  Desk, config_get, config_set, config_unset, locking, logging_out, diagnosing, reporting,
  unlocking, changing, exporting, logging_in, initializing, importing, on_secrets, on_secrets,
  config_unset, importing, storing, config_set, print_line, done, initializing, config_get,
  logging_in, filing, on_terminal, check_server, reading, Action, Program, login_command,
  lock_agent, attached, ◌>>=◌, ◌>>◌,
}
use nox_vault.Cli.{passwd_command, unlock_command, init_command, read_line, on_vault}
use nox_vault.Common.{
  is_some, message, not, List, Option, ℕ, Text, Bool, pos, ◌++◌, ◌∷◌, some, [], ◌&&◌, if◌then◌else◌,
}

module _ ⦃S : Sodium⦄ ⦃J : JsonLib⦄ ⦃R : Random⦄ ⦃A : Api⦄ ⦃C : Socket⦄ (empty : J.Json → Bool)
    (fallback : Text) (now : ℕ) (copy : Option (Text → Result (Unit {0}))) where
  -- the configuration, which every command but those on it needs
  unfoldable pub configuration : Program ClientConfig
  configuration = reading (λ d. load d.settings)

  unfoldable pub effective_url : Program Text
  effective_url = reading (λ d. effective_server_url fallback d.settings)

  -- What the commands that talk to the server do first.
  unfoldable pub opening : Program (Unit {0})
  unfolding effective_url attached check_server
  opening = do
    url ← effective_url
    (λ d. attached d (load_session empty d.files))
    on_terminal check_server

  -- agent_request reads the configuration again.
  unfoldable pub account : AuthSession → Program Account
  unfolding effective_url configuration
  account s = do
    c ← configuration
    url ← effective_url
    done (record { server_url = url; timeout = c.timeout_seconds; session = s })

  unfoldable pub logged : Result (Files × Option Text) → Result (Unit {0} × (Files × Option Text))
  logged (ok x) = ok (tt, x)
  logged (err e) = err e

  -- auth.logout()
  unfoldable pub forget_session : Program (Unit {0})
  unfolding logged
  forget_session d = filing d (logged (logout empty (d.files, d.token)))

  unfoldable pub logout_command : Program (List Text)
  unfolding lock_agent effective_url forget_session
  logout_command = do
    lock_agent
    url ← effective_url
    forget_session
    print_line (message "Logged out.")

  unfoldable pub status_command : Program (List Text)
  unfolding effective_url
  status_command = do
    url ← effective_url
    override ← reading (λ d. has_server_override d.settings)
    session ← reading (λ d. load_session empty d.files)
    lines ← on_terminal print_agent_status
    done (
        (message "Server: "
          ++ strip_slashes url
          ++ message " ("
          ++ (if override then message "override" else message "built-in default")
          ++ message ")")
        ∷ (message "Authentication: "
            ++ (if is_some session then message "session stored" else message "logged out"))
        ∷ lines)

  unfoldable pub doctor_command : Program (List Text)
  doctor_command = do
    lines ← on_terminal print_agent_status
    done (
        message "[ok] Config loaded"
        ∷ message "[ok] libsodium initialized"
        ∷ message "[ok] TLS verification enabled"
        ∷ message "[ok] Server reachable and API v1 compatible"
        ∷ lines)

  unfoldable pub keep_backup : J.Json → Program (Unit {0})
  keep_backup j d = (ok tt, record d { written = some j })

  unfoldable pub export_command : AuthSession → Program (List Text)
  unfolding keep_backup
  export_command s = do
    secret ← on_terminal read_line
    j ← on_terminal (on_vault (export_file s.user_id secret))
    keep_backup j
    print_line (message "Encrypted backup written.")

  unfoldable pub import_line : AuthSession → Bool → Text → Program (Unit {0})
  import_line s replace secret d =
      on_terminal (on_vault (import_file s.user_id d.size d.document secret replace)) d

  unfoldable pub import_command : AuthSession → Bool → Bool → Program (List Text)
  unfolding import_line
  import_command s replace sure =
      if replace && not sure
      then (λ d.
          (err (nox_error (message "Replacing a vault requires both --replace and --yes")), d))
      else (do
        secret ← on_terminal read_line
        import_line s replace secret
        print_line (message "Encrypted backup restored."))

  -- What needs a session, with the session.
  unfoldable pub with_session : AuthSession → Action → Program (List Text)
  unfolding export_command import_command account
  with_session s (initializing private_metadata) = do
    on_terminal (init_command s.user_id private_metadata)
    print_line (message "Encrypted vault initialized.")
  with_session s unlocking = do
    on_terminal (unlock_command s.user_id)
    print_line (message "Vault unlocked for 15 minutes of inactivity.")
  with_session s changing = do
    on_terminal (passwd_command s.user_id)
    print_line (message "Master password changed; vault locked.")
  with_session s exporting = export_command s
  with_session s (importing replace sure) = import_command s replace sure
  with_session s (on_secrets c) = do a ← account s; on_terminal (secret_command copy a c)
  with_session s a = done []

  unfoldable pub require_login : Program AuthSession
  require_login = reading (λ d. require_session empty (pos now) d.files)

  -- The commands that talk to the server, after `opening`.
  unfoldable pub online : Action → Program (List Text)
  unfolding login_command doctor_command status_command require_login with_session
  online (logging_in email registration) = login_command now email registration
  online diagnosing = doctor_command
  online reporting = status_command
  online a = do s ← require_login; with_session s a

  unfoldable pub run : Action → Program (List Text)
  unfolding configuration opening logout_command lock_agent online
  run (config_get key) = do value ← reading (λ d. get fallback key d.settings); print_line value
  run (config_set key value) = do
    (λ d. storing d (set key value d.settings))
    print_line (message "Configuration updated.")
  run (config_unset key) = do
    (λ d. storing d (unset key d.settings))
    print_line (message "Configuration reset.")
  run locking = do c ← configuration; lock_agent; print_line (message "Vault locked.")
  run logging_out = do c ← configuration; logout_command
  run a = do c ← configuration; opening; online a

  -- Runs of the program one after the other, whether they succeed or not.
  unfoldable pub runs : List Action → Desk → Desk
  runs [] d = d
  runs (a ∷ l) d = runs l (run a d).1
