-- ===== src/Gui/Operations/Screens.antt =====
-- Which screen the interface of client/src/gui/app_controller.cpp opens with.
use nox_vault.Cli.Program.Kept.{effective_url-Keeps, configuration-Keeps}
use nox_vault.Config.Sessions.{list_sessions, load_session}
use nox_vault.Cli.Program.Keeping.{on_terminal-Keeps, done-Keeps, reading-Keeps, bind-Keeps, Keeps}
use nox_vault.Vault.{metadata, list}
use nox_vault.Cli.{there, on_vault, on_agent}
use nox_vault.Gui.Operations.{settings_answer, add_settings, with_token}
use nox_vault.Cli.Secrets.{names_of, agent_request}
use nox_vault.Cli.Program.Main.{effective_url, configuration, account}
use nox_vault.Agent.Channel.{Socket}
use nox_vault.Effects.{Api}
use nox_vault.Libraries.Json.{JsonLib}
use nox_vault.Models.{VaultMetadata, AuthSession}
use nox_vault.Libraries.Sodium.{Random, Sodium}
use nox_vault.Errors.{Result, ok, err}
use nox_vault.Common.{
  ◌⊎◌, ◌||◌, ap, ◌∙◌, if◌then◌else◌, arith, sym, Bool-cases, inr, ◌∷◌, inl, none, subst, ℕ, Text,
  is_some, List, Bool, not, eq_text, some, Option, refl, false, true, ◌≡◌, lit,
}
use nox_vault.Gui.Answers.{flag, flag_at, text_at, Answer, text}
use nox_vault.Gui.Operations.Saying.{
  agent_says, relock_host, with_vault-says, LeavesHost, bind-LeavesHost, left_host, then_go-gives,
}
use nox_vault.Cli.{Terminal}
use nox_vault.Config.Settings.{load, ClientConfig}
use nox_vault.Gui.Operations.Startup.{
  ask_unlocked, relocked, startup_snapshot, start_session, is_missing, with_vault, finish_start,
  after_metadata,
}
use nox_vault.Agent.Client.{available, request}
use nox_vault.Cli.Program.{reading, check_server, on_terminal, Desk, Program, done}

-- The screen is the login exactly without a session, and the one with the secrets exactly when the
-- vault is unlocked.
pub record Opens (session : Option AuthSession) (r : Answer) : Type 0 where
  pub login : eq_text (text_at (lit "screen") (lit "login") r) (lit "login") ≡ not (is_some session)
  pub app :
      eq_text (text_at (lit "screen") (lit "login") r) (lit "app") ≡ flag_at (lit "unlocked") r

-- The answer opens the login or the setup, or tells what the agent says.
abbrev pub Tells : Result Bool → Answer → Type 0
Tells says r =
    ((eq_text (text_at (lit "screen") (lit "login") r) (lit "login")
        || eq_text (text_at (lit "screen") (lit "login") r) (lit "setup"))
      ≡ true)
    ⊎ (says ≡ ok (flag_at (lit "unlocked") r))

module _ ⦃S : Sodium⦄ ⦃J : JsonLib⦄ ⦃R : Random⦄ ⦃A : Api⦄ ⦃C : Socket⦄ where
  kept :
      {X : Type 0} (m : Program X) (d : Desk) (x : X) (e : Desk)
      → Keeps m
      → m d ≡ (ok x, e)
      → e.files ≡ d.files
  kept m d x e k h = ap (λ p. p.1.files) (sym h) ∙ k.files d

module _ ⦃S : Sodium⦄ ⦃J : JsonLib⦄ ⦃R : Random⦄ ⦃A : Api⦄ ⦃C : Socket⦄ (empty : J.Json → Bool)
    (values : J.Json → List J.Json) (fallback : Text) (now : ℕ) where
  carried : (P : Answer → Type 0) (a r : Answer) → ok a ≡ ok r → P a → P r
  carried P a r q p = subst P (cc (q)) p

  given : {s : Option AuthSession} (a r : Answer) → Opens s a → ok a ≡ ok r → Opens s r
  given a r o q = subst (Opens _) (cc (q)) o

  finish_start-Opens :
      (base : Answer) (s : AuthSession) (b : Bool) (d : Desk) (r : Answer)
      → (finish_start empty values fallback now base s b d).0 ≡ ok r
      → Opens (some s) r
  unfolding finish_start text_at flag_at
  finish_start-Opens base s false d r q = given _ r (record { login = refl; app = refl }) q
  finish_start-Opens base s true d r q =
      then_go-gives (Opens (some s) r) _ (account empty fallback now none s d) q (λ a e x q.
        then_go-gives (Opens (some s) r) _
          (on_terminal (on_agent (request (agent_request (lit "list") a))) e) q
          (λ j e x q.
            then_go-gives (Opens (some s) r) _ (reading (λ d. names_of (J.at j (lit "names"))) e) q
              (λ names e x q.
                then_go-gives (Opens (some s) r) _ (on_terminal (on_vault list) e) q
                  (λ records e x q. given _ r (record { login = refl; app = refl }) q))))

  ask_unlocked-Opens :
      (base : Answer) (s : AuthSession) (b : Bool) (d : Desk) (r : Answer)
      → (with_vault empty values fallback now base b s d).0 ≡ ok r
      → Opens (some s) r
  unfolding with_vault
  ask_unlocked-Opens base s b d r q =
      then_go-gives (Opens (some s) r) _ ((if b then on_terminal there else done false) d) q
        (λ c e x q.
          then_go-gives (Opens (some s) r) _ (relocked empty values fallback now c e) q (λ u e x q.
            then_go-gives (Opens (some s) r) _
              (ask_unlocked empty values fallback now (available e.terminal.host).0 (record e {
                terminal = record e.terminal { host = (available e.terminal.host).1 };
              }))
              q (λ unlocked e x q. finish_start-Opens base s unlocked e r q)))

  after_metadata-Opens :
      (base : Answer) (s : AuthSession) (b : Bool) (m : Result VaultMetadata × Desk) (r : Answer)
      → flag_at (lit "unlocked") base ≡ false
      → (after_metadata empty values fallback now base b s m).0 ≡ ok r
      → Opens (some s) r
  unfolding after_metadata text_at flag_at
  after_metadata-Opens base s b (ok v, d) r u q = ask_unlocked-Opens base s b d r q
  after_metadata-Opens base s b (err e, d) r u q = elim (Bool-cases (is_missing e)) [
    | inl y ↦
        given ((lit "screen", text (lit "setup")) ∷ base) r (record { login = refl; app = sym u })
          (ground (arith, q, y))
    | inr z ↦ absurd (ground (arith, q, z))
  ]

  start_session-Opens :
      (base : Answer) (b : Bool) (s : Option AuthSession) (d : Desk) (r : Answer)
      → flag_at (lit "unlocked") base ≡ false
      → (start_session empty values fallback now base b s d).0 ≡ ok r
      → Opens s r
  unfolding start_session text_at flag_at with_token
  start_session-Opens base b none d r u q = given _ r (record { login = refl; app = sym u }) q
  start_session-Opens base b (some s) d r u q =
      after_metadata-Opens ((lit "email", text s.email) ∷ (lit "userId", text s.user_id) ∷ base) s b
        (on_terminal (on_vault metadata) (record d { token = some s.access_token })) r u q

  add_settings-Keeps : Keeps (add_settings empty values fallback now)
  unfolding add_settings
  add_settings-Keeps = bind-Keeps (configuration-Keeps empty fallback now none) (λ c.
      bind-Keeps (effective_url-Keeps empty fallback now none) (λ url.
        bind-Keeps (reading-Keeps (λ d. load_session empty d.files)) (λ active.
          bind-Keeps (reading-Keeps (λ d. list_sessions values d.files))
            (λ saved. done-Keeps (settings_answer empty values fallback now c url active saved)))))

  add_settings-unlocked :
      (d : Desk) (r : Answer)
      → (add_settings empty values fallback now d).0 ≡ ok r
      → flag_at (lit "unlocked") r ≡ false
  unfolding add_settings settings_answer flag_at configuration effective_url
  add_settings-unlocked d r q =
      then_go-gives (flag_at (lit "unlocked") r ≡ false) _ (configuration empty fallback now none d)
        q
        (λ c e x q.
          then_go-gives (flag_at (lit "unlocked") r ≡ false) _
            (effective_url empty fallback now none e) q
            (λ url e x q.
              then_go-gives (flag_at (lit "unlocked") r ≡ false) _
                (reading (λ d. load_session empty d.files) e) q
                (λ active e x q.
                  then_go-gives (flag_at (lit "unlocked") r ≡ false) _
                    (reading (λ d. list_sessions values d.files) e) q
                    (λ saved e x q. carried (λ a. flag_at (lit "unlocked") a ≡ false) _ r q refl))))

  add_settings-LeavesHost : LeavesHost (add_settings empty values fallback now)
  unfolding add_settings configuration effective_url
  add_settings-LeavesHost =
      bind-LeavesHost (configuration empty fallback now none) _ (λ d. refl)
        (λ c.
          bind-LeavesHost (effective_url empty fallback now none) _ (λ d. refl)
            (λ url.
              bind-LeavesHost (reading (λ d. load_session empty d.files)) _ (λ d. refl)
                (λ active.
                  bind-LeavesHost (reading (λ d. list_sessions values d.files)) _ (λ d. refl)
                    (λ saved d. refl))))

  start_session-Tells :
      (base : Answer) (b : Bool) (s : Option AuthSession) (d : Desk) (r : Answer)
      → (start_session empty values fallback now base b s d).0 ≡ ok r
      → Tells (agent_says (relock_host b d.terminal.host)) r
  unfolding start_session after_metadata text_at with_token
  start_session-Tells base b none d r q = inl (
      carried
        (λ a.
          (eq_text (text_at (lit "screen") (lit "login") a) (lit "login")
            || eq_text (text_at (lit "screen") (lit "login") a) (lit "setup"))
          ≡ true)
        _ r q refl)
  start_session-Tells base b (some s) d r q =
      let e : Desk = record d { token = some s.access_token } in
      go (on_vault metadata e.terminal).0 (on_vault metadata e.terminal).1 refl q
    where
      go :
          (v : Result VaultMetadata) (t : Terminal)
          → t.host ≡ d.terminal.host
          → (after_metadata empty values fallback now
              ((lit "email", text s.email) ∷ (lit "userId", text s.user_id) ∷ base)
              b
              s
              (v, record d { token = some s.access_token; terminal = t })).0
            ≡ ok r
          → Tells (agent_says (relock_host b d.terminal.host)) r
      go (ok v) t h q = inr (
          subst (λ x. agent_says (relock_host b x) ≡ ok (flag_at (lit "unlocked") r)) h
            (with_vault-says empty values fallback now _ s b _ r q))
      go (err e) t h q = elim (Bool-cases (is_missing e)) [
        | inl y ↦ inl (
            carried
              (λ a.
                (eq_text (text_at (lit "screen") (lit "login") a) (lit "login")
                  || eq_text (text_at (lit "screen") (lit "login") a) (lit "setup"))
                ≡ true)
              ((lit "screen", text (lit "setup"))
                ∷ (lit "email", text s.email)
                ∷ (lit "userId", text s.user_id)
                ∷ base)
              r (ground (arith, q, y)) refl)
        | inr z ↦ absurd (ground (arith, q, z))
      ]

  -- A start that succeeds opens the login exactly if no session is stored, and the screen with the
  -- secrets exactly if its answer says that the vault is unlocked. Unless it opens the login or the
  -- setup, it says what the agent says: that the vault is locked if no agent runs, else the member of
  -- the agent's answer, after the agent was asked to lock if the configuration wants a locked start.
  pub startup_snapshot-Opens :
      (d : Desk) (r : Answer)
      → (startup_snapshot empty values fallback now d).0 ≡ ok r
      → (s : Option AuthSession) × (load_session empty d.files ≡ ok s)
        × Opens s r
        × (c : ClientConfig) × (load d.settings ≡ ok c)
        × Tells (agent_says (relock_host c.start_locked d.terminal.host)) r
  unfolding startup_snapshot configuration effective_url check_server flag_at
  startup_snapshot-Opens d r q =
      let Q : Type 0 =
        (s : Option AuthSession) × (load_session empty d.files ≡ ok s)
        × Opens s r
        × (c : ClientConfig) × (load d.settings ≡ ok c)
        × Tells (agent_says (relock_host c.start_locked d.terminal.host)) r in
      then_go-gives Q _ (add_settings empty values fallback now d) q (λ base e x q.
        then_go-gives Q _ (configuration empty fallback now none e) q (λ c e2 x2 q.
          then_go-gives Q _ (effective_url empty fallback now none e2) q (λ url e3 x3 q.
            then_go-gives Q _ (on_terminal check_server e3) q (λ u e4 x4 q.
              then_go-gives Q _ (reading (λ d. load_session empty d.files) e4) q (λ s e5 x5 q.
                let same : e4.files ≡ d.files =
                  kept (on_terminal check_server) e3 u e4 (on_terminal-Keeps check_server) x4
                  ∙ kept (effective_url empty fallback now none) e2 url e3
                      (effective_url-Keeps empty fallback now none) x3
                  ∙ kept (configuration empty fallback now none) e c e2
                      (configuration-Keeps empty fallback now none) x2
                  ∙ kept (add_settings empty values fallback now) d base e add_settings-Keeps x in
                let host : e5.terminal.host ≡ d.terminal.host =
                  ap (λ p. p.1.terminal.host) (sym x5)
                  ∙ left_host (on_terminal check_server) e3 u e4 (λ z. refl) x4
                  ∙ left_host (effective_url empty fallback now none) e2 url e3 (λ z. refl) x3
                  ∙ left_host (configuration empty fallback now none) e c e2 (λ z. refl) x2
                  ∙ left_host (add_settings empty values fallback now) d base e
                      add_settings-LeavesHost x in
                let settings : e.settings ≡ d.settings =
                  ap (λ p. p.1.settings) (sym x) ∙ add_settings-Keeps.settings d in
                (
                  s,
                  rw (← same) (ap (λ p. p.0) x5),
                  start_session-Opens ((lit "healthy", flag true) ∷ base) c.start_locked s e5 r
                      (add_settings-unlocked d base (ap (λ p. p.0) x)) q,
                  c,
                  rw (← settings) (ap (λ p. p.0) x2),
                  subst (λ h. Tells (agent_says (relock_host c.start_locked h)) r) host
                      (start_session-Tells ((lit "healthy", flag true) ∷ base) c.start_locked s e5 r
                        q),
                ))))))
