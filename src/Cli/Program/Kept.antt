-- ===== src/Cli/Program/Kept.antt =====
-- The commands of `main` of client/src/main.cpp that leave the settings and the stored sessions.
use nox_vault.Cli.Program.Keeping.{
  lock_agent-Keeps, done-Keeps, attached-Keeps, on_terminal-Keeps, bind-Keeps, reading-Keeps, Keeps,
}
use nox_vault.Auth.{require_session}
use nox_vault.Cli.Secrets.{secret_command}
use nox_vault.Backup.{export_file}
use nox_vault.Cli.Status.{print_agent_status}
use nox_vault.Config.Settings.{has_server_override, effective_server_url, load}
use nox_vault.Cli.Program.Main.{
  run, doctor_command, require_login, online, import_line, keep_backup, configuration,
  import_command, effective_url, opening, with_session, status_command, account, export_command,
}
use nox_vault.Models.{AuthSession}
use nox_vault.Config.Sessions.{load_session}
use nox_vault.Cli.{passwd_command, unlock_command, on_vault, init_command, read_line}
use nox_vault.Agent.Channel.{Socket}
use nox_vault.Effects.{Api}
use nox_vault.Libraries.Json.{JsonLib}
use nox_vault.Libraries.Sodium.{Random, Sodium}
use nox_vault.Errors.{Result}
use nox_vault.Common.{
  message, pos, ◌∷◌, [], not, ℕ, Text, true, if◌then◌else◌, ◌&&◌, false, Bool, Option, refl, ◌≡◌,
}
use nox_vault.Cli.Program.{
  logging_in, check_server, Action, Program, unlocking, changing, exporting, initializing,
  importing, on_secrets, ◌>>=◌,
}
use nox_vault.Config.Settings.Showing.{get}
use nox_vault.Cli.Program.{
  config_get, config_set, config_unset, locking, logging_out, diagnosing, reporting, logging_in,
  ◌>>=◌, ◌>>◌,
}
use nox_vault.Cli.Program.{
  config_get, config_set, config_unset, locking, logging_out, diagnosing, reporting, logging_in,
  unlocking, changing, exporting, initializing, importing, on_secrets, ◌>>=◌, ◌>>◌,
}
use nox_vault.Config.Settings.Showing.{get}

abbrev pub logs_in : Action → Bool
logs_in (logging_in email b) = true
logs_in a = false

abbrev pub logs_out : Action → Bool
logs_out logging_out = true
logs_out a = false

abbrev pub configures : Action → Bool
configures (config_set key value) = true
configures (config_unset key) = true
configures a = false

module _ ⦃S : Sodium⦄ ⦃J : JsonLib⦄ ⦃R : Random⦄ ⦃A : Api⦄ ⦃C : Socket⦄ (empty : J.Json → Bool)
    (fallback : Text) (now : ℕ) (copy : Option (Text → Result (Unit {0}))) where
  pub configuration-Keeps : Keeps (configuration empty fallback now copy)
  unfolding configuration
  configuration-Keeps = reading-Keeps (λ d. load d.settings)

  pub effective_url-Keeps : Keeps (effective_url empty fallback now copy)
  unfolding effective_url
  effective_url-Keeps = reading-Keeps (λ d. effective_server_url fallback d.settings)

  pub opening-Keeps : Keeps (opening empty fallback now copy)
  unfolding opening
  opening-Keeps = bind-Keeps effective_url-Keeps (λ url.
      bind-Keeps (attached-Keeps (λ d. load_session empty d.files))
        (λ u. on_terminal-Keeps check_server))

  account-Keeps : (s : AuthSession) → Keeps (account empty fallback now copy s)
  unfolding account
  account-Keeps s =
      bind-Keeps configuration-Keeps (λ c. bind-Keeps effective_url-Keeps (λ url. done-Keeps _))

  status_command-Keeps : Keeps (status_command empty fallback now copy)
  unfolding status_command
  status_command-Keeps = bind-Keeps effective_url-Keeps (λ url.
      bind-Keeps (reading-Keeps (λ d. has_server_override d.settings)) (λ override.
        bind-Keeps (reading-Keeps (λ d. load_session empty d.files))
          (λ s. bind-Keeps (on_terminal-Keeps print_agent_status) (λ lines. done-Keeps _))))

  keep_backup-Keeps : (j : J.Json) → Keeps (keep_backup empty fallback now copy j)
  unfolding keep_backup
  keep_backup-Keeps j = record { settings = λ d. refl; files = λ d. refl }

  export_command-Keeps : (s : AuthSession) → Keeps (export_command empty fallback now copy s)
  unfolding export_command
  export_command-Keeps s = bind-Keeps (on_terminal-Keeps read_line) (λ secret.
      bind-Keeps (on_terminal-Keeps (on_vault (export_file s.user_id secret))) (λ j.
        bind-Keeps (keep_backup-Keeps j)
          (λ u. done-Keeps (message "Encrypted backup written." ∷ []))))

  either-Keeps :
      {X : Type 0} (b : Bool) {m n : Program X} → Keeps m → Keeps n → Keeps (if b then m else n)
  either-Keeps true k l = k
  either-Keeps false k l = l

  import_line-Keeps :
      (s : AuthSession) (replace : Bool) (secret : Text)
      → Keeps (import_line empty fallback now copy s replace secret)
  unfolding import_line
  import_line-Keeps s replace secret = record { settings = λ d. refl; files = λ d. refl }

  import_command-Keeps :
      (s : AuthSession) (replace sure : Bool)
      → Keeps (import_command empty fallback now copy s replace sure)
  unfolding import_command
  import_command-Keeps s replace sure =
      either-Keeps (replace && not sure) (record { settings = λ d. refl; files = λ d. refl })
        (bind-Keeps (on_terminal-Keeps read_line) (λ secret.
          bind-Keeps (record { settings = λ d. refl; files = λ d. refl }) (λ u. done-Keeps _)))

  with_session-Keeps :
      (s : AuthSession) (a : Action) → Keeps (with_session empty fallback now copy s a)
  unfolding with_session
  with_session-Keeps s (initializing private_metadata) =
      bind-Keeps (on_terminal-Keeps (init_command s.user_id private_metadata)) (λ u. done-Keeps _)
  with_session-Keeps s unlocking =
      bind-Keeps (on_terminal-Keeps (unlock_command s.user_id)) (λ u. done-Keeps _)
  with_session-Keeps s changing =
      bind-Keeps (on_terminal-Keeps (passwd_command s.user_id)) (λ u. done-Keeps _)
  with_session-Keeps s exporting = export_command-Keeps s
  with_session-Keeps s (importing replace sure) = import_command-Keeps s replace sure
  with_session-Keeps s (on_secrets c) =
      bind-Keeps (account-Keeps s) (λ a. on_terminal-Keeps (secret_command copy a c))
  with_session-Keeps s a = done-Keeps []

  online-Keeps : (a : Action) → logs_in a ≡ false → Keeps (online empty fallback now copy a)
  unfolding online require_login doctor_command
  online-Keeps (logging_in email b) n = absurd (cc (n))
  online-Keeps diagnosing n = bind-Keeps (on_terminal-Keeps print_agent_status) (λ l. done-Keeps _)
  online-Keeps reporting n = status_command-Keeps
  online-Keeps a n =
      bind-Keeps (reading-Keeps (λ d. require_session empty (pos now) d.files))
        (λ s. with_session-Keeps s a)

  opened-Keeps :
      (a : Action)
      → logs_in a ≡ false
      → Keeps (
          configuration empty fallback now copy >>= λ c.
          (opening empty fallback now copy >> online empty fallback now copy a))
  opened-Keeps a n =
      bind-Keeps configuration-Keeps (λ c. bind-Keeps opening-Keeps (λ u. online-Keeps a n))

  -- All but a login, a logout and the commands that change the configuration leave both.
  pub run-Keeps :
      (a : Action)
      → logs_in a ≡ false
      → logs_out a ≡ false
      → configures a ≡ false
      → Keeps (run empty fallback now copy a)
  unfolding run
  run-Keeps (logging_in email b) n o k = absurd (cc (n))
  run-Keeps logging_out n o k = absurd (cc (o))
  run-Keeps (config_set key value) n o k = absurd (cc (k))
  run-Keeps (config_unset key) n o k = absurd (cc (k))
  run-Keeps (config_get key) n o k =
      bind-Keeps (reading-Keeps (λ d. get fallback key d.settings)) (λ v. done-Keeps _)
  run-Keeps locking n o k =
      bind-Keeps configuration-Keeps (λ c. bind-Keeps lock_agent-Keeps (λ u. done-Keeps _))
  run-Keeps a n o k = opened-Keeps a n
