-- ===== src/Cli/Program/LoggedOut.antt =====
-- What the program refuses after a logout.
use nox_vault.Cli.Program.Refusing.{run-IsRefused, IsRefused, needs_session, NoSession}
use nox_vault.Config.Settings.{set}
use nox_vault.Cli.Program.Keeping.{lock_agent-Keeps}
use nox_vault.Config.Settings.{unset}
use nox_vault.Auth.{logout}
use nox_vault.Config.Sessions.{clear_session}
use nox_vault.Cli.Program.Main.{
  runs, logged, forget_session, logout_command, effective_url, configuration, run,
}
use nox_vault.Agent.Channel.{Socket}
use nox_vault.Effects.{Api}
use nox_vault.Cli.Program.Kept.{run-Keeps, logs_in}
use nox_vault.Libraries.Json.{JsonLib}
use nox_vault.Libraries.Sodium.{Random, Sodium}
use nox_vault.Errors.{Result, err, ok}
use nox_vault.Common.{
  message, refl, ap, ◌∙◌, arith, Option, ℕ, Text, not, Bool, false, List, ◌&&◌, ◌∷◌, true, [], ◌≡◌,
}
use nox_vault.Cli.Program.{
  done, lock_agent, storing, print_line, Program, then_go, Desk, Action, config_set, config_unset,
  logging_out, logging_in,
}

abbrev pub no_login : List Action → Bool
no_login [] = true
no_login (a ∷ l) = not (logs_in a) && no_login l

module _ ⦃S : Sodium⦄ ⦃J : JsonLib⦄ ⦃R : Random⦄ ⦃A : Api⦄ ⦃C : Socket⦄ where
  then_go-NoSession :
      {X Y : Type 0} (f : X → Program Y) (r : Result X × Desk)
      → NoSession r.1
      → ((x : X) (e : Desk) → NoSession e → NoSession (f x e).1)
      → NoSession (then_go f r).1
  then_go-NoSession f (ok x, e) s k = k x e s
  then_go-NoSession f (err e, d) s k = s

  stored-NoSession :
      (text : Text) (d : Desk) (r : Result J.Json)
      → NoSession d
      → NoSession (then_go (λ u. print_line text) (storing d r)).1
  stored-NoSession text d (ok j) h = h
  stored-NoSession text d (err e) h = h

  then_go-ok :
      {X Y : Type 0} {y : Y} (P : Desk → Type 0) (f : X → Program Y) (r : Result X × Desk)
      → (then_go f r).0 ≡ ok y
      → ((x : X) (e : Desk) → (f x e).0 ≡ ok y → P (f x e).1)
      → P (then_go f r).1
  then_go-ok P f (ok x, e) q k = k x e q
  then_go-ok P f (err e, d) q k = absurd (cc (q))

  last-ok :
      {X Y : Type 0} {y : Y} (P : Desk → Type 0) (g : X → Y) (r : Result X × Desk)
      → (then_go (λ x. done (g x)) r).0 ≡ ok y
      → ((x : X) → r.0 ≡ ok x → P r.1)
      → P (then_go (λ x. done (g x)) r).1
  last-ok P g (ok x, e) q k = k x refl
  last-ok P g (err e, d) q k = absurd (cc (q))

module _ ⦃S : Sodium⦄ ⦃J : JsonLib⦄ ⦃R : Random⦄ ⦃A : Api⦄ ⦃C : Socket⦄ (empty : J.Json → Bool)
    (fallback : Text) (now : ℕ) (copy : Option (Text → Result (Unit {0})))
    (vacant : empty (J.object []) ≡ true) where
  forget_session-NoSession :
      (d : Desk) → NoSession d → NoSession (forget_session empty fallback now copy d).1
  unfolding forget_session logged logout clear_session
  forget_session-NoSession d h = ground (arith, h)

  run-NoSession :
      (a : Action) (d : Desk)
      → logs_in a ≡ false
      → NoSession d
      → NoSession (run empty fallback now copy a d).1
  unfolding run logout_command
  run-NoSession (logging_in email b) d n h = absurd (cc (n))
  run-NoSession (config_set key value) d n h =
      stored-NoSession (message "Configuration updated.") d (set key value d.settings) h
  run-NoSession (config_unset key) d n h =
      stored-NoSession (message "Configuration reset.") d (unset key d.settings) h
  run-NoSession logging_out d n h =
      then_go-NoSession _ (configuration empty fallback now copy d) h (λ c e h.
        then_go-NoSession _ (lock_agent e) (ap (λ f. f.session) (lock_agent-Keeps.files e) ∙ h)
          (λ u e h. then_go-NoSession _ (effective_url empty fallback now copy e) h (λ url e h.
            then_go-NoSession _ (forget_session empty fallback now copy e)
              (forget_session-NoSession e h) (λ u e h. h))))
  run-NoSession a d n h =
      ap (λ f. f.session) ((run-Keeps empty fallback now copy a refl refl refl).files d) ∙ h

  -- A session that was there is gone after a logout that succeeds.
  forget_session-removes :
      (d : Desk)
      → (forget_session empty fallback now copy d).0 ≡ ok tt
      → NoSession (forget_session empty fallback now copy d).1
  unfolding forget_session logged logout clear_session
  forget_session-removes d h = ground (arith, h)

  logout-NoSession :
      (d : Desk) (ls : List Text)
      → (run empty fallback now copy logging_out d).0 ≡ ok ls
      → NoSession (run empty fallback now copy logging_out d).1
  unfolding run logout_command
  logout-NoSession d ls q =
      then_go-ok NoSession _ (configuration empty fallback now copy d) q (λ c e q.
        then_go-ok NoSession _ (lock_agent e) q (λ u e q.
          then_go-ok NoSession _ (effective_url empty fallback now copy e) q (λ url e q.
            last-ok NoSession (λ u. message "Logged out." ∷ [])
              (forget_session empty fallback now copy e) q (λ u r. forget_session-removes e r))))

  runs-NoSession :
      (l : List Action) (d : Desk)
      → no_login l ≡ true
      → NoSession d
      → NoSession (runs empty fallback now copy l d)
  unfolding runs
  runs-NoSession [] d n h = h
  runs-NoSession (a ∷ l) d n h =
      runs-NoSession l (run empty fallback now copy a d).1 (ground (arith, n))
        (run-NoSession a d (ground (arith, n)) h)

  -- After a logout that succeeds, and then any commands but a login, each command that needs a
  -- session ends in an error, before it reads a line, asks the agent, holds a secret or changes a
  -- file. The library counts the empty object as empty.
  pub logout-IsRefused :
      (l : List Action) (a : Action) (d : Desk) (ls : List Text)
      → (run empty fallback now copy logging_out d).0 ≡ ok ls
      → no_login l ≡ true
      → needs_session a ≡ true
      → IsRefused (runs empty fallback now copy l (run empty fallback now copy logging_out d).1) (
          run empty fallback now copy a
            (runs empty fallback now copy l (run empty fallback now copy logging_out d).1))
  logout-IsRefused l a d ls q n m =
      run-IsRefused empty fallback now copy vacant a _
        (runs-NoSession l _ n (logout-NoSession d ls q)) m
