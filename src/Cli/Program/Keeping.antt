-- ===== src/Cli/Program/Keeping.antt =====
-- What a run of the program leaves as it was.
use nox_vault.Agent.Client.{request}
use nox_vault.Models.{AuthSession}
use nox_vault.Config.Sessions.{Files}
use nox_vault.Cli.{op_query, on_agent, there, Cli}
use nox_vault.Agent.Channel.{Socket}
use nox_vault.Effects.{Api}
use nox_vault.Libraries.Json.{JsonLib}
use nox_vault.Libraries.Sodium.{Random, Sodium}
use nox_vault.Errors.{Result, err, ok}
use nox_vault.Common.{true, arith, false, Bool, Option, refl, ◌∙◌, ◌≡◌, lit}
use nox_vault.Cli.Program.{
  attached, then_go, reading, lock_running, on_terminal, Program, done, lock_agent, Desk, ◌>>=◌,
}
use nox_vault.Cli.Program.{◌>>=◌}

module _ ⦃S : Sodium⦄ ⦃J : JsonLib⦄ ⦃R : Random⦄ ⦃A : Api⦄ ⦃C : Socket⦄ where
  -- A part of the program that leaves the settings and the files of the sessions.
  pub record Keeps {X : Type 0} (m : Program X) : Type 0 where
    pub settings : (d : Desk) → (m d).1.settings ≡ d.settings
    pub files : (d : Desk) → (m d).1.files ≡ d.files

  -- A part that leaves the settings.
  pub record KeepsSettings {X : Type 0} (m : Program X) : Type 0 where
    pub settings : (d : Desk) → (m d).1.settings ≡ d.settings

  then_go-settings :
      {X Y : Type 0} (f : X → Program Y) (r : Result X × Desk) (j : J.Json)
      → ((x : X) → KeepsSettings (f x))
      → r.1.settings ≡ j
      → (then_go f r).1.settings ≡ j
  then_go-settings f (ok x, d) j k h = (k x).settings d ∙ h
  then_go-settings f (err e, d) j k h = h

  then_go-files :
      {X Y : Type 0} (f : X → Program Y) (r : Result X × Desk) (j : Files)
      → ((x : X) → Keeps (f x))
      → r.1.files ≡ j
      → (then_go f r).1.files ≡ j
  then_go-files f (ok x, d) j k h = (k x).files d ∙ h
  then_go-files f (err e, d) j k h = h

  pub bind-KeepsSettings :
      {X Y : Type 0} {m : Program X} {f : X → Program Y}
      → KeepsSettings m
      → ((x : X) → KeepsSettings (f x))
      → KeepsSettings (m >>= f)
  bind-KeepsSettings {m = m} {f = f} k l = record {
    settings = λ d. then_go-settings f (m d) d.settings l (k.settings d);
  }

  pub weaken : {X : Type 0} (m : Program X) → Keeps m → KeepsSettings m
  weaken m k = record { settings = k.settings }

  pub bind-Keeps :
      {X Y : Type 0} {m : Program X} {f : X → Program Y}
      → Keeps m
      → ((x : X) → Keeps (f x))
      → Keeps (m >>= f)
  bind-Keeps {m = m} {f = f} k l = record {
    settings = λ d. then_go-settings f (m d) d.settings (λ x. weaken (f x) (l x)) (k.settings d);
    files = λ d. then_go-files f (m d) d.files l (k.files d);
  }

  pub on_terminal-Keeps : {X : Type 0} (m : Cli X) → Keeps (on_terminal m)
  on_terminal-Keeps m = record { settings = λ d. refl; files = λ d. refl }

  pub reading-Keeps : {X : Type 0} (f : Desk → Result X) → Keeps (reading f)
  reading-Keeps f = record { settings = λ d. refl; files = λ d. refl }

  pub done-Keeps : {X : Type 0} (x : X) → Keeps (done x)
  done-Keeps x = record { settings = λ d. refl; files = λ d. refl }

  pub attached-Keeps : (f : Desk → Result (Option AuthSession)) → Keeps (λ d. attached d (f d))
  unfolding attached
  attached-Keeps f = record { settings = λ d. ground arith; files = λ d. ground arith }

  lock_running-Keeps : (b : Bool) → Keeps (lock_running b)
  unfolding lock_running
  lock_running-Keeps true =
      bind-Keeps (on_terminal-Keeps (on_agent (request (op_query (lit "lock")))))
        (λ r. done-Keeps tt)
  lock_running-Keeps false = done-Keeps tt

  pub lock_agent-Keeps : Keeps lock_agent
  unfolding lock_agent
  lock_agent-Keeps = bind-Keeps (on_terminal-Keeps there) lock_running-Keeps
