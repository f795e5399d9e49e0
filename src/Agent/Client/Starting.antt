-- ===== src/Agent/Client/Starting.antt =====
-- When the start of the agent succeeds, and what it leaves.
use nox_vault.Agent.Client.Probing.{
  answers-take-suc, poll-IsProbed, IsProbed, answers, available-IsProbed,
}
use nox_vault.Libraries.Json.{JsonLib}
use nox_vault.Common.{
  not, message, sym, if◌then◌else◌, ap, true, arith, suc, ◌∙◌, refl, drop, Option, Bool, ℕ, List,
  take, ◌≡◌, ◌+◌, false, ◌≤◌,
}
use nox_vault.Errors.{nox_error, Result, ok, err}
use nox_vault.Agent.Channel.{Socket}
use nox_vault.Agent.Client.{
  Host, available, poll, ended, coordinated, starting, ensure_running, release,
}

module _ ⦃C : Socket⦄ ⦃J : JsonLib⦄ where
  -- The state at the end, against the one before.
  abbrev IsBalanced : Host → Host → Type 0
  IsBalanced h k = (k.held ≡ h.held) × (k.started ≤ h.started + 1) × (k.opened ≤ h.opened + 52)

  either-IsBalanced :
      {X : Type 0} (h : Host) (b : Bool) (x y : X × Host)
      → IsBalanced h x.1
      → IsBalanced h y.1
      → IsBalanced h (if b then x else y).1
  either-IsBalanced h true x y v w = v
  either-IsBalanced h false x y v w = w

  ended-IsBalanced :
      (h k : Host) (p : Bool × Host)
      → k.held ≡ h.held + 1
      → k.started ≡ h.started + 1
      → k.opened ≤ h.opened + 2
      → IsProbed 50 k p.1
      → IsBalanced h (ended p).1
  unfolding ended release
  ended-IsBalanced h k (true, l) a b c v =
      (omega (arith, a, v.held), omega (arith, b, v.started), omega (arith, c, v.opened))
  ended-IsBalanced h k (false, l) a b c v =
      (omega (arith, a, v.held), omega (arith, b, v.started), omega (arith, c, v.opened))

  coordinated-IsBalanced :
      (h k : Host) (p : Bool × Host)
      → k.held ≡ h.held + 1
      → k.started ≡ h.started
      → k.opened ≤ h.opened + 1
      → IsProbed 1 k p.1
      → IsBalanced h (coordinated p).1
  unfolding coordinated release
  coordinated-IsBalanced h k (true, l) a b c v =
      (omega (arith, a, v.held), omega (arith, b, v.started), omega (arith, c, v.opened))
  coordinated-IsBalanced h k (false, l) a b c v =
      let m = record l { started = l.started + 1 } in
      either-IsBalanced h (not l.forks) _ (ended (poll 50 m))
        (omega (arith, a, v.held), omega (arith, b, v.started), omega (arith, c, v.opened))
        (ended-IsBalanced h m (poll 50 m) (omega (arith, a, v.held)) (omega (arith, b, v.started))
          (omega (arith, c, v.opened)) (poll-IsProbed 50 m).1)

  starting-IsBalanced :
      (h : Host) (p : Bool × Host) → IsProbed 1 h p.1 → IsBalanced h (starting p).1
  unfolding starting
  starting-IsBalanced h (true, l) v = (v.held, omega (arith, v.started), omega (arith, v.opened))
  starting-IsBalanced h (false, l) v =
      let m = record l { held = l.held + 1 } in
      either-IsBalanced h (not l.locks) _ (coordinated (available m))
        (v.held, omega (arith, v.started), omega (arith, v.opened))
        (coordinated-IsBalanced h m (available m) (omega (arith, v.held)) v.started v.opened
          (available-IsProbed m).2)

  -- Starting the agent gives the lock back on every branch, starts at most one process and opens at
  -- most 52 channels.
  ensure_running-balanced :
      (h : Host)
      → ((ensure_running h).1.held ≡ h.held)
        × ((ensure_running h).1.started ≤ h.started + 1)
        × ((ensure_running h).1.opened ≤ h.opened + 52)
  unfolding ensure_running
  ensure_running-balanced h = starting-IsBalanced h (available h) (available-IsProbed h).2

  abbrev verdict : Bool → Result (Unit {0})
  verdict b = if b then ok tt else err (nox_error (message "Local vault agent did not start"))

  ended_lem : (p : Bool × Host) → (ended p).0 ≡ verdict p.0
  unfolding ended
  ended_lem (true, l) = refl
  ended_lem (false, l) = refl

  if_not : {X : Type 0} (b : Bool) (x y : X) → b ≡ true → (if not b then x else y) ≡ y
  if_not true x y e = refl
  if_not false x y e = absurd (cc e)

  -- When the first channel does not answer, the others decide.
  answers_behind :
      (n : ℕ) (l rest : List (Option C.State))
      → false ≡ answers (take 1 l)
      → rest ≡ drop 1 l
      → answers (take (suc n) l) ≡ answers (take n rest)
  answers_behind n l rest a c = rw (answers-take-suc n l, ← a, ← c) refl

  coordinated_lem :
      (h : Host) (p : Bool × Host)
      → p.1.forks ≡ true
      → p.0 ≡ answers (take 1 h.channels)
      → p.1.channels ≡ drop 1 h.channels
      → (coordinated p).0 ≡ verdict (answers (take 51 h.channels))
  unfolding coordinated
  coordinated_lem h (true, l) f a c = rw (answers-take-suc 50 h.channels, ← a) refl
  coordinated_lem h (false, l) f a c =
      let m = record l { started = l.started + 1 } in
      ap (λ r. r.0) (if_not l.forks _ (ended (poll 50 m)) f)
      ∙ (ended_lem (poll 50 m)
          ∙ (ap verdict (poll-IsProbed 50 m).0
              ∙ ap verdict (sym (answers_behind 50 h.channels l.channels a c))))

  starting_lem :
      (h : Host) (p : Bool × Host)
      → p.1.locks ≡ true
      → p.1.forks ≡ true
      → p.0 ≡ answers (take 1 h.channels)
      → p.1.channels ≡ drop 1 h.channels
      → (starting p).0 ≡ verdict (answers (take 52 h.channels))
  unfolding starting
  starting_lem h (true, l) k f a c = rw (answers-take-suc 51 h.channels, ← a) refl
  starting_lem h (false, l) k f a c =
      let m = record l { held = l.held + 1 } in
      let (told, rest, v) = available-IsProbed m in
      ap (λ r. r.0) (if_not l.locks _ (coordinated (available m)) k)
      ∙ (coordinated_lem m (available m) (v.forks ∙ f) told rest
          ∙ ap verdict (sym (answers_behind 51 h.channels l.channels a c)))

  -- When the lock is acquired and the process starts, `ensure_running` succeeds exactly when one of
  -- the next 52 connections leads to an agent that answers: one probe before the lock, one with it and
  -- fifty after the start.
  pub ensure_running-answers :
      (h : Host)
      → h.locks ≡ true
      → h.forks ≡ true
      → (ensure_running h).0 ≡ (
          if answers (take 52 h.channels)
          then ok tt
          else err (nox_error (message "Local vault agent did not start")))
  unfolding ensure_running
  ensure_running-answers h a b =
      let (told, rest, v) = available-IsProbed h in
      starting_lem h (available h) (v.locks ∙ a) (v.forks ∙ b) told rest
