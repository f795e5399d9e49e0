-- ===== src/Gui/Operations/Saying.antt =====
-- What the agent says when the interface of client/src/gui/app_controller.cpp starts.
use nox_vault.Vault.{list}
use nox_vault.Cli.{there, on_vault, on_agent, op_query}
use nox_vault.Cli.Secrets.{names_of, agent_request}
use nox_vault.Cli.Program.Main.{account}
use nox_vault.Agent.Channel.{Socket}
use nox_vault.Effects.{Api}
use nox_vault.Libraries.Json.{JsonLib}
use nox_vault.Models.{AuthSession}
use nox_vault.Libraries.Sodium.{Random, Sodium}
use nox_vault.Errors.{Result, ok, err}
use nox_vault.Common.{
  [], ◌∷◌, ap, ◌∙◌, if◌then◌else◌, sym, none, subst, ℕ, Text, List, Bool, refl, false, true, ◌≡◌,
  lit,
}
use nox_vault.Gui.Answers.{flag_at, Answer}
use nox_vault.Gui.Operations.Startup.{ask_unlocked, relocked, with_vault, finish_start}
use nox_vault.Agent.Client.{Host, available, request, value_at, status_query}
use nox_vault.Cli.Program.{reading, on_terminal, then_go, Desk, Program, done, lock_running, ◌>>=◌}

module _ ⦃C : Socket⦄ ⦃J : JsonLib⦄ where
  -- The state of the client of the agent after it was asked to lock, if one runs.
  abbrev pub locked_host : Bool × Host → Host
  locked_host (true, h) = (request (J.object ((lit "op", J.text (lit "lock")) ∷ [])) h).1
  locked_host (false, h) = h

  abbrev pub relock_host : Bool → Host → Host
  relock_host true h = locked_host (available h)
  relock_host false h = h

  -- What the agent says: no without an agent, and the member of its answer.
  abbrev pub told : Result J.Json → Result Bool
  told (ok j) = value_at J.as_bool false j (lit "unlocked")
  told (err e) = err e

  abbrev pub asked : Bool × Host → Result Bool
  asked (true, h) = told (request status_query h).0
  asked (false, h) = ok false

  unfoldable pub agent_says : Host → Result Bool
  agent_says h = asked (available h)

module _ ⦃S : Sodium⦄ ⦃J : JsonLib⦄ ⦃R : Random⦄ ⦃A : Api⦄ ⦃C : Socket⦄ where
  pub then_go-gives :
      {X Y : Type 0} {y : Y} (Q : Type 0) (f : X → Program Y) (r : Result X × Desk)
      → (then_go f r).0 ≡ ok y
      → ((x : X) (e : Desk) → r ≡ (ok x, e) → (f x e).0 ≡ ok y → Q)
      → Q
  then_go-gives Q f (ok x, e) q k = k x e refl q
  then_go-gives Q f (err e, d) q k = absurd (cc (q))

  -- A part of the program that does not talk to the agent.
  abbrev pub LeavesHost : {X : Type 0} → Program X → Type 0
  LeavesHost m = (d : Desk) → (m d).1.terminal.host ≡ d.terminal.host

  then_go-LeavesHost :
      {X Y : Type 0} (f : X → Program Y) (r : Result X × Desk) (h : Host)
      → ((x : X) → LeavesHost (f x))
      → r.1.terminal.host ≡ h
      → (then_go f r).1.terminal.host ≡ h
  then_go-LeavesHost f (ok x, d) h k e = k x d ∙ e
  then_go-LeavesHost f (err z, d) h k e = e

  pub bind-LeavesHost :
      {X Y : Type 0} (m : Program X) (f : X → Program Y)
      → LeavesHost m
      → ((x : X) → LeavesHost (f x))
      → LeavesHost (m >>= f)
  bind-LeavesHost m f k l d = then_go-LeavesHost f (m d) d.terminal.host l (k d)

  pub left_host :
      {X : Type 0} (m : Program X) (d : Desk) (x : X) (e : Desk)
      → LeavesHost m
      → m d ≡ (ok x, e)
      → e.terminal.host ≡ d.terminal.host
  left_host m d x e k h = ap (λ p. p.1.terminal.host) (sym h) ∙ k d

  lock_running-host :
      (d : Desk)
      → (lock_running true d).1.terminal.host ≡ (request (op_query (lit "lock")) d.terminal.host).1
  unfolding lock_running
  lock_running-host d = go (request (op_query (lit "lock")) d.terminal.host)
    where
      go :
          (p : Result J.Json × Host)
          → (then_go
              (λ (r : J.Json). done tt)
              (on_terminal (on_agent (λ (h : Host). p)) d)).1.terminal.host
            ≡ p.1
      go (ok j, h) = refl
      go (err e, h) = refl

module _ ⦃S : Sodium⦄ ⦃J : JsonLib⦄ ⦃R : Random⦄ ⦃A : Api⦄ ⦃C : Socket⦄ (empty : J.Json → Bool)
    (values : J.Json → List J.Json) (fallback : Text) (now : ℕ) where
  carried : (P : Answer → Type 0) (a r : Answer) → ok a ≡ ok r → P a → P r
  carried P a r q p = subst P (cc (q)) p

  relocked-host :
      (b : Bool) (d : Desk)
      → (relocked empty values fallback now b d).1.terminal.host ≡ locked_host (b, d.terminal.host)
  unfolding relocked
  relocked-host true d = lock_running-host d
  relocked-host false d = refl

  ask_unlocked-asked :
      (b : Bool) (d : Desk) (v : Bool)
      → (ask_unlocked empty values fallback now b d).0 ≡ ok v
      → asked (b, d.terminal.host) ≡ ok v
  unfolding ask_unlocked
  ask_unlocked-asked false d v q = q
  ask_unlocked-asked true d v q =
      then_go-gives (asked (true, d.terminal.host) ≡ ok v) _
        (on_terminal (on_agent (request status_query)) d) q (λ j e x p. rw (ap (λ z. z.0) x) p)

  finish_start-unlocked :
      (base : Answer) (s : AuthSession) (b : Bool) (d : Desk) (r : Answer)
      → (finish_start empty values fallback now base s b d).0 ≡ ok r
      → flag_at (lit "unlocked") r ≡ b
  unfolding finish_start flag_at
  finish_start-unlocked base s false d r q =
      carried (λ a. flag_at (lit "unlocked") a ≡ false) _ r q refl
  finish_start-unlocked base s true d r q =
      let Q : Type 0 = flag_at (lit "unlocked") r ≡ true in
      then_go-gives Q _ (account empty fallback now none s d) q (λ a e x q.
        then_go-gives Q _ (on_terminal (on_agent (request (agent_request (lit "list") a))) e) q
          (λ j e x q.
            then_go-gives Q _ (reading (λ d. names_of (J.at j (lit "names"))) e) q (λ names e x q.
              then_go-gives Q _ (on_terminal (on_vault list) e) q
                (λ records e x q. carried (λ a. flag_at (lit "unlocked") a ≡ true) _ r q refl))))

  -- The host after the two probes of a start, and whether the first found an agent to lock.
  probed_first :
      (b : Bool) (d : Desk) (c : Bool) (e : Desk)
      → (if b then on_terminal there else done false) d ≡ (ok c, e)
      → locked_host (c, e.terminal.host) ≡ relock_host b d.terminal.host
  probed_first true d c e x =
      let same : (available d.terminal.host).0 ≡ c = cc (ap (λ p. p.0) x) in
      let host : (available d.terminal.host).1 ≡ e.terminal.host = ap (λ p. p.1.terminal.host) x in
      ap locked_host
        (sym (ap (λ a. (a, (available d.terminal.host).1)) same ∙ ap (λ h. (c, h)) host))
  probed_first false d c e x =
      let same : false ≡ c = cc (ap (λ p. p.0) x) in
      let host : d.terminal.host ≡ e.terminal.host = ap (λ p. p.1.terminal.host) x in
      ap locked_host (sym (ap (λ a. (a, d.terminal.host)) same ∙ ap (λ h. (c, h)) host))

  pub with_vault-says :
      (base : Answer) (s : AuthSession) (b : Bool) (d : Desk) (r : Answer)
      → (with_vault empty values fallback now base b s d).0 ≡ ok r
      → agent_says (relock_host b d.terminal.host) ≡ ok (flag_at (lit "unlocked") r)
  unfolding with_vault agent_says
  with_vault-says base s b d r q =
      let Q : Type 0 =
        agent_says (relock_host b d.terminal.host) ≡ ok (flag_at (lit "unlocked") r) in
      then_go-gives Q _ ((if b then on_terminal there else done false) d) q (λ c e x q.
        then_go-gives Q _ (relocked empty values fallback now c e) q (λ u e2 y q.
          then_go-gives Q _
            (ask_unlocked empty values fallback now (available e2.terminal.host).0 (record e2 {
              terminal = record e2.terminal { host = (available e2.terminal.host).1 };
            }))
            q
            (λ v e3 z q.
              let host : e2.terminal.host ≡ relock_host b d.terminal.host =
                ap (λ p. p.1.terminal.host) (sym y) ∙ relocked-host c e ∙ probed_first b d c e x in
              ap agent_says (sym host)
              ∙ ask_unlocked-asked (available e2.terminal.host).0 _ v (ap (λ p. p.0) z)
              ∙ ap ok (sym (finish_start-unlocked base s v e3 r q)))))
