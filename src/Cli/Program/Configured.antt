-- ===== src/Cli/Program/Configured.antt =====
-- The configuration stays valid over runs of the program.
use nox_vault.Cli.Program.Kept.{opening-Keeps, configuration-Keeps, run-Keeps, effective_url-Keeps}
use nox_vault.Cli.{drop_secret, read_line, hold_secret}
use nox_vault.Cli.Program.Keeping.{
  done-Keeps, on_terminal-Keeps, lock_agent-Keeps, weaken, bind-KeepsSettings, KeepsSettings,
}
use nox_vault.Cli.Program.Main.{runs, online, logged, forget_session, run, logout_command}
use nox_vault.Config.Settings.Resetting.{unset-load, reset}
use nox_vault.Config.Settings.Changing.{set-load, updated, set-Differs}
use nox_vault.Agent.Channel.{Socket}
use nox_vault.Effects.{password, Api}
use nox_vault.Libraries.Json.{JsonLib}
use nox_vault.Libraries.Sodium.{Random, Sodium}
use nox_vault.Errors.{err, Result, ok}
use nox_vault.Common.{List, message, refl, [], ◌∷◌, arith, Option, ℕ, Text, Bool, ◌≡◌, true}
use nox_vault.Config.Settings.{ClientConfig, set, unset, load}
use nox_vault.Cli.Program.{
  storing, print_line, then_go, login_text, email_or, Desk, answered, Action, authenticating,
  logging, login_command, config_set, config_unset, logging_out, logging_in,
}

module _ ⦃S : Sodium⦄ ⦃J : JsonLib⦄ ⦃R : Random⦄ ⦃A : Api⦄ ⦃C : Socket⦄ where
  -- The settings are an object that loads.
  pub record IsConfigured (j : J.Json) : Type 0 where
    pub config : ClientConfig
    pub object : J.is_object j ≡ true
    pub loads : load j ≡ ok config

  set-IsConfigured :
      (key value : Text) (j j' : J.Json)
      → set key value j ≡ ok j'
      → IsConfigured j
      → IsConfigured j'
  set-IsConfigured key value j j' e c =
      let (v, q, h) = set-Differs key value j j' c.object e in
      record {
        config = updated key value c.config;
        object = h.object;
        loads = set-load key value j j' c.config c.object c.loads e;
      }

  unset-IsConfigured :
      (key : Text) (j j' : J.Json) → unset key j ≡ ok j' → IsConfigured j → IsConfigured j'
  unfolding unset
  unset-IsConfigured key j j' e c = record {
    config = reset key c.config;
    object = ground (arith, e, J.is_object-erase j key c.object);
    loads = unset-load key j j' c.config c.object c.loads e;
  }

module _ ⦃S : Sodium⦄ ⦃J : JsonLib⦄ ⦃R : Random⦄ ⦃A : Api⦄ ⦃C : Socket⦄ (empty : J.Json → Bool)
    (fallback : Text) (now : ℕ) (copy : Option (Text → Result (Unit {0}))) where
  authenticating-KeepsSettings :
      (email secret : Text) (b : Bool) → KeepsSettings (authenticating now email secret b)
  unfolding authenticating answered
  authenticating-KeepsSettings email secret b = record { settings = λ d. ground arith }

  logging-KeepsSettings :
      (b : Bool) (email secret : Text) → KeepsSettings (logging now b email secret)
  unfolding logging
  logging-KeepsSettings b email secret =
      bind-KeepsSettings (weaken _ (on_terminal-Keeps (hold_secret password))) (λ u.
        bind-KeepsSettings (authenticating-KeepsSettings email secret b) (λ s.
          bind-KeepsSettings (weaken _ (on_terminal-Keeps (drop_secret password))) (λ u.
            bind-KeepsSettings (weaken _ lock_agent-Keeps)
              (λ u. weaken _ (done-Keeps (login_text b s ∷ []))))))

  email_or-KeepsSettings : (email : Text) → KeepsSettings (email_or email)
  unfolding email_or
  email_or-KeepsSettings email = record { settings = λ d. ground arith }

  login_command-KeepsSettings :
      (email : Text) (b : Bool) → KeepsSettings (login_command now email b)
  unfolding login_command
  login_command-KeepsSettings email b =
      bind-KeepsSettings (email_or-KeepsSettings email) (λ address.
        bind-KeepsSettings (weaken _ (on_terminal-Keeps read_line))
          (λ secret. logging-KeepsSettings b address secret))

  forget_session-KeepsSettings : KeepsSettings (forget_session empty fallback now copy)
  unfolding forget_session logged
  forget_session-KeepsSettings = record { settings = λ d. ground arith }

  logout_command-KeepsSettings : KeepsSettings (logout_command empty fallback now copy)
  unfolding logout_command
  logout_command-KeepsSettings = bind-KeepsSettings (weaken _ lock_agent-Keeps) (λ u.
      bind-KeepsSettings (weaken _ (effective_url-Keeps empty fallback now copy)) (λ url.
        bind-KeepsSettings forget_session-KeepsSettings
          (λ u. weaken _ (done-Keeps (message "Logged out." ∷ [])))))

  -- What `main` does before a login, and the login.
  login-KeepsSettings :
      (email : Text) (b : Bool) → KeepsSettings (run empty fallback now copy (logging_in email b))
  unfolding run online
  login-KeepsSettings email b =
      bind-KeepsSettings (weaken _ (configuration-Keeps empty fallback now copy)) (λ c.
        bind-KeepsSettings (weaken _ (opening-Keeps empty fallback now copy))
          (λ u. login_command-KeepsSettings email b))

  logout-KeepsSettings : KeepsSettings (run empty fallback now copy logging_out)
  unfolding run
  logout-KeepsSettings =
      bind-KeepsSettings (weaken _ (configuration-Keeps empty fallback now copy))
        (λ c. logout_command-KeepsSettings)

  stored-IsConfigured :
      (text : Text) (r : Result J.Json) (d : Desk)
      → ((j : J.Json) → r ≡ ok j → IsConfigured j)
      → IsConfigured d.settings
      → IsConfigured (then_go (λ u. print_line text) (storing d r)).1.settings
  stored-IsConfigured text (ok j) d k c = k j refl
  stored-IsConfigured text (err e) d k c = c

  pub run-IsConfigured :
      (a : Action) (d : Desk)
      → IsConfigured d.settings
      → IsConfigured (run empty fallback now copy a d).1.settings
  unfolding run
  run-IsConfigured (config_set key value) d c =
      stored-IsConfigured (message "Configuration updated.") (set key value d.settings) d
        (λ j q. set-IsConfigured key value d.settings j q c) c
  run-IsConfigured (config_unset key) d c =
      stored-IsConfigured (message "Configuration reset.") (unset key d.settings) d
        (λ j q. unset-IsConfigured key d.settings j q c) c
  run-IsConfigured (logging_in email b) d c = rw ((login-KeepsSettings email b).settings d) c
  run-IsConfigured logging_out d c = rw (logout-KeepsSettings.settings d) c
  run-IsConfigured a d c = rw ((run-Keeps empty fallback now copy a refl refl refl).settings d) c

  -- If the configuration is an object that loads, it still is after any sequence of commands, whether
  -- they succeed or not.
  pub runs-IsConfigured :
      (l : List Action) (d : Desk)
      → IsConfigured d.settings
      → IsConfigured (runs empty fallback now copy l d).settings
  unfolding runs
  runs-IsConfigured [] d c = c
  runs-IsConfigured (a ∷ l) d c =
      runs-IsConfigured l (run empty fallback now copy a d).1 (run-IsConfigured a d c)
