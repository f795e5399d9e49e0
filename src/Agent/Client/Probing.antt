-- ===== src/Agent/Client/Probing.antt =====
-- A probe of the agent, and the loop of probes.
use nox_vault.Libraries.Json.{JsonLib}
use nox_vault.Common.{
  sym, inl, Bool-cases, ap, inr, zero, true, arith, suc, ◌∙◌, refl, lit, drop, Option, Bool, ℕ,
  List, take, ◌≡◌, ◌||◌, none, some, ◌∷◌, ◌+◌, [], false, ◌≤◌,
}
use nox_vault.Errors.{Result, ok, err}
use nox_vault.Agent.Channel.{Socket}
use nox_vault.Agent.Client.{
  Host, exchange, available, value_at, connected, connect_channel, probe, probed, says_ok,
  status_query, poll, close_channel,
}

module _ ⦃C : Socket⦄ ⦃J : JsonLib⦄ where
  -- What a probe of one channel tells.
  tells : Result J.Json → Bool
  unfolding says_ok
  tells (err e) = false
  tells (ok r) = says_ok (value_at J.as_bool false r (lit "ok"))

  -- One of the channels leads to an agent that answers the status query with success.
  unfoldable pub answers : List (Option C.State) → Bool
  unfolding tells
  answers [] = false
  answers (none ∷ l) = answers l
  answers (some s ∷ l) = tells (exchange status_query s).0 || answers l

  -- What is the same but for the probes.
  pub record IsProbed (n : ℕ) (h k : Host) : Type 0 where
    pub held : k.held ≡ h.held
    pub started : k.started ≡ h.started
    pub locks : k.locks ≡ h.locks
    pub forks : k.forks ≡ h.forks
    pub opened : k.opened ≤ h.opened + n

  probed-IsProbed :
      (r : Result J.Json) (h k : Host)
      → IsProbed 1 h k
      → ((probed r k).0 ≡ tells r)
        × ((probed r k).1.channels ≡ k.channels)
        × IsProbed 1 h (probed r k).1
  unfolding probed tells close_channel
  probed-IsProbed (err e) h k v = (refl, refl, v)
  probed-IsProbed (ok r) h k v = (
    refl,
    refl,
    record {
      held = v.held;
      started = v.started;
      locks = v.locks;
      forks = v.forks;
      opened = v.opened;
    },
  )

  or_false : (b : Bool) → b ≡ (b || false)
  or_false true = refl
  or_false false = refl

  probe-IsProbed :
      (h : Host) (l : List (Option C.State))
      → h.channels ≡ l
      → ((probe (connected h l)).0 ≡ answers (take 1 l))
        × ((probe (connected h l)).1.channels ≡ drop 1 l)
        × IsProbed 1 h (probe (connected h l)).1
  unfolding probe connected answers
  probe-IsProbed h [] e = (
    refl,
    e,
    record { held = refl; started = refl; locks = refl; forks = refl; opened = omega arith },
  )
  probe-IsProbed h (none ∷ l) e = (
    refl,
    refl,
    record { held = refl; started = refl; locks = refl; forks = refl; opened = omega arith },
  )
  probe-IsProbed h (some s ∷ l) e =
      let r = (exchange status_query s).0 in
      let (told, rest, v) =
        probed-IsProbed r h (record h { channels = l; opened = h.opened + 1 })
          (record {
            held = refl;
            started = refl;
            locks = refl;
            forks = refl;
            opened = omega arith;
          }) in
      (told ∙ or_false (tells r), rest, v)

  pub available-IsProbed :
      (h : Host)
      → ((available h).0 ≡ answers (take 1 h.channels))
        × ((available h).1.channels ≡ drop 1 h.channels)
        × IsProbed 1 h (available h).1
  unfolding available connect_channel
  available-IsProbed h = probe-IsProbed h h.channels refl

  pub answers-take-suc :
      (n : ℕ) (l : List (Option C.State))
      → answers (take (suc n) l) ≡ (answers (take 1 l) || answers (take n (drop 1 l)))
  unfolding answers
  answers-take-suc zero [] = refl
  answers-take-suc (suc n) [] = refl
  answers-take-suc n (none ∷ l) = refl
  answers-take-suc n (some s ∷ l) =
      ap (λ b. b || answers (take n l)) (or_false (tells (exchange status_query s).0))

  IsProbed-trans :
      (m n t : ℕ) (h k l : Host) → m + n ≤ t → IsProbed m h k → IsProbed n k l → IsProbed t h l
  IsProbed-trans m n t h k l b v w = record {
    held = w.held ∙ v.held;
    started = w.started ∙ v.started;
    locks = w.locks ∙ v.locks;
    forks = w.forks ∙ v.forks;
    opened = omega (arith, v.opened, w.opened, b);
  }

  IsProbed-more : (m n : ℕ) (h k : Host) → m ≤ n → IsProbed m h k → IsProbed n h k
  IsProbed-more m n h k l v = record {
    held = v.held;
    started = v.started;
    locks = v.locks;
    forks = v.forks;
    opened = omega (arith, v.opened, l);
  }

  pub poll-IsProbed :
      (n : ℕ) (h : Host) → ((poll n h).0 ≡ answers (take n h.channels)) × IsProbed n h (poll n h).1
  unfolding poll answers
  poll-IsProbed zero h = (
    refl,
    record { held = refl; started = refl; locks = refl; forks = refl; opened = omega arith },
  )
  poll-IsProbed (suc n) h =
      let (told, rest, v) = available-IsProbed h in
      let (later, w) = poll-IsProbed n (available h).1 in
      let split : answers (take (suc n) h.channels)
          ≡ ((available h).0 || (poll n (available h).1).0) =
        rw (told, later, rest) (answers-take-suc n h.channels) in
      elim (Bool-cases (available h).0) [
        | inl y ↦ rw y (
          sym (split ∙ ap (λ b. b || (poll n (available h).1).0) y),
          IsProbed-more 1 (suc n) h (available h).1 (omega arith) v,
        )
        | inr z ↦ rw z (
          sym (split ∙ ap (λ b. b || (poll n (available h).1).0) z),
          IsProbed-trans 1 n (suc n) h (available h).1 (poll n (available h).1).1 (omega arith) v w,
        )
      ]
