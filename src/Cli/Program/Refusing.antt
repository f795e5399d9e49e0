-- ===== src/Cli/Program/Refusing.antt =====
-- What the program refuses without a session.
use nox_vault.Models.{AuthSession}
use nox_vault.Auth.{require_session-unexpired, require_session}
use nox_vault.Config.Sessions.{Files, load_session}
use nox_vault.Cli.Program.Main.{
  with_session, effective_url, require_login, configuration, opening, online, run,
}
use nox_vault.Agent.Channel.{Socket}
use nox_vault.Effects.{Api}
use nox_vault.Libraries.Json.{JsonLib}
use nox_vault.Libraries.Sodium.{Random, Sodium}
use nox_vault.Errors.{Result-cases, Error, Result, err, ok}
use nox_vault.Common.{
  refl, ap, ◌∙◌, arith, Option, ℕ, Text, Bool, false, inl, some, inr, pos, true, [], ◌≡◌,
}
use nox_vault.Cli.Program.{
  on_terminal, compatible_after, Program, attached, then_go, check_server, Desk, Action, config_get,
  config_set, config_unset, locking, logging_out, diagnosing, reporting, logging_in, ◌>>◌,
}

abbrev pub needs_session : Action → Bool
needs_session (config_get key) = false
needs_session (config_set key value) = false
needs_session (config_unset key) = false
needs_session locking = false
needs_session logging_out = false
needs_session (logging_in email b) = false
needs_session diagnosing = false
needs_session reporting = false
needs_session a = true

module _ ⦃S : Sodium⦄ ⦃J : JsonLib⦄ ⦃R : Random⦄ ⦃A : Api⦄ ⦃C : Socket⦄ where
  abbrev pub NoSession : Desk → Type 0
  NoSession d = d.files.session ≡ J.object []

  -- The lines to be typed, the agent, the secrets in memory and the files are the same.
  pub record SameAs (d e : Desk) : Type 0 where
    pub lines : e.terminal.lines ≡ d.terminal.lines
    pub host : e.terminal.host ≡ d.terminal.host
    pub live : e.terminal.world.live ≡ d.terminal.world.live
    pub written : e.written ≡ d.written
    pub files : e.files ≡ d.files

  SameAs-refl : (d : Desk) → SameAs d d
  SameAs-refl d = record { lines = refl; host = refl; live = refl; written = refl; files = refl }

  -- A run that ends in an error and has read no line, not talked to the agent, stored nothing and
  -- held no secret.
  pub record IsRefused {X : Type 0} (d : Desk) (r : Result X × Desk) : Type 0 where
    pub error : Error
    pub throws : r.0 ≡ err error
    pub same : SameAs d r.1

  then_go-IsRefused :
      {X Y : Type 0} {d : Desk} (f : X → Program Y) (r : Result X × Desk)
      → SameAs d r.1
      → ((x : X) (e : Desk) → SameAs d e → IsRefused d (f x e))
      → IsRefused d (then_go f r)
  then_go-IsRefused f (ok x, e) s k = k x e s
  then_go-IsRefused f (err e, d) s k = record { error = e; throws = refl; same = s }

  then_go-SameAs :
      {X Y : Type 0} {d : Desk} (f : X → Program Y) (r : Result X × Desk)
      → SameAs d r.1
      → ((x : X) (e : Desk) → SameAs d e → SameAs d (f x e).1)
      → SameAs d (then_go f r).1
  then_go-SameAs f (ok x, e) s k = k x e s
  then_go-SameAs f (err e, d) s k = s

  attached-SameAs :
      (d e : Desk) (r : Result (Option AuthSession)) → SameAs d e → SameAs d (attached e r).1
  unfolding attached
  attached-SameAs d e (ok s) h = record {
    lines = h.lines;
    host = h.host;
    live = h.live;
    written = h.written;
    files = h.files;
  }
  attached-SameAs d e (err x) h = h

  check_server-SameAs : (d e : Desk) → SameAs d e → SameAs d (on_terminal check_server e).1
  unfolding check_server compatible_after
  check_server-SameAs d e h = record {
    lines = h.lines;
    host = h.host;
    live = h.live;
    written = h.written;
    files = h.files;
  }

module _ ⦃S : Sodium⦄ ⦃J : JsonLib⦄ ⦃R : Random⦄ ⦃A : Api⦄ ⦃C : Socket⦄ (empty : J.Json → Bool)
    (fallback : Text) (now : ℕ) (copy : Option (Text → Result (Unit {0})))
    (vacant : empty (J.object []) ≡ true) where
  require_session-NoSession :
      (f : Files)
      → f.session ≡ J.object []
      → (e : Error) × (require_session empty (pos now) f ≡ err e)
  unfolding load_session
  require_session-NoSession f h = elim (Result-cases (require_session empty (pos now) f)) [
    | inr (e, q) ↦ (e, q)
    | inl (s, q) ↦
        let stored : load_session empty f ≡ ok (some s) =
          (require_session-unexpired empty (pos now) f s q).0 in
        absurd (ground (arith, stored, h, vacant))
  ]

  opening-SameAs : (d e : Desk) → SameAs d e → SameAs d (opening empty fallback now copy e).1
  unfolding opening effective_url
  opening-SameAs d e h = then_go-SameAs _ (effective_url empty fallback now copy e) h (λ url e h.
      then_go-SameAs _ (attached e (load_session empty e.files))
        (attached-SameAs d e (load_session empty e.files) h) (λ u e h. check_server-SameAs d e h))

  online-session :
      (a : Action) (d : Desk)
      → needs_session a ≡ true
      → online empty fallback now copy a d
        ≡ then_go
            (λ s. with_session empty fallback now copy s a)
            (require_session empty (pos now) d.files, d)
  unfolding online require_login
  online-session (config_get key) d n = absurd (cc (n))
  online-session (config_set key value) d n = absurd (cc (n))
  online-session (config_unset key) d n = absurd (cc (n))
  online-session locking d n = absurd (cc (n))
  online-session logging_out d n = absurd (cc (n))
  online-session (logging_in email b) d n = absurd (cc (n))
  online-session diagnosing d n = absurd (cc (n))
  online-session reporting d n = absurd (cc (n))
  online-session a d n = refl

  run-session :
      (a : Action) (d : Desk)
      → needs_session a ≡ true
      → run empty fallback now copy a d
        ≡ then_go
            (λ c. (opening empty fallback now copy >> online empty fallback now copy a))
            (configuration empty fallback now copy d)
  unfolding run
  run-session (config_get key) d n = absurd (cc (n))
  run-session (config_set key value) d n = absurd (cc (n))
  run-session (config_unset key) d n = absurd (cc (n))
  run-session locking d n = absurd (cc (n))
  run-session logging_out d n = absurd (cc (n))
  run-session (logging_in email b) d n = absurd (cc (n))
  run-session diagnosing d n = absurd (cc (n))
  run-session reporting d n = absurd (cc (n))
  run-session a d n = refl

  online-IsRefused :
      (a : Action) (d e : Desk)
      → NoSession d
      → needs_session a ≡ true
      → SameAs d e
      → IsRefused d (online empty fallback now copy a e)
  online-IsRefused a d e h n s =
      let (x, q) = require_session-NoSession e.files (ap (λ f. f.session) s.files ∙ h) in
      rw (online-session a e n, q) (record { error = x; throws = refl; same = s })

  pub run-IsRefused :
      (a : Action) (d : Desk)
      → NoSession d
      → needs_session a ≡ true
      → IsRefused d (run empty fallback now copy a d)
  unfolding configuration
  run-IsRefused a d h n = rw (run-session a d n) (
      then_go-IsRefused _ (configuration empty fallback now copy d) (SameAs-refl d) (λ c e s.
        then_go-IsRefused _ (opening empty fallback now copy e) (opening-SameAs d e s)
          (λ u e s. online-IsRefused a d e h n s)))
