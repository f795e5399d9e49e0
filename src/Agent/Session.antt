-- ===== src/Agent/Session.antt =====
-- The unlock session of the agent: its invariant, its time-outs and what a request may change.
use nox_vault.Agent.{
  key_of, lock_request, second, status_request, is_empty, vault_request, Agent, watchdog, Timeouts,
  unlock_request, dispatch,
}
use nox_vault.Libraries.Json.{JsonLib}
use nox_vault.Errors.{Result-cases, Error, nox_error, ok, err}
use nox_vault.Libraries.Sodium.{Random, Sodium}
use nox_vault.Common.{
  message, length, lit, arith, Text, Bytes, eq_text, List, ℕ, true, ◌<◌, ◌+◌, ◌∷◌, false, [], inr,
  ◌≤◌, ◌≡◌, ◌-◌, ◌∙◌, inl, if◌then◌else◌, refl, ◌*◌, ◌⊎◌,
}
use nox_vault.Effects.{World, Api}

module _ ⦃S : Sodium⦄ ⦃J : JsonLib⦄ ⦃R : Random⦄ ⦃A : Api⦄ where
  -- The key is empty or whole, and the session did not start after its last use.
  pub record IsAgent (a : Agent) : Type 0 where
    pub key : is_empty a.key ≡ false → length a.key ≡ 32
    pub times : a.started ≤ a.last

  watchdog-IsAgent : (t : Timeouts) (now : ℕ) (a : Agent) → IsAgent a → IsAgent (watchdog t now a)
  unfolding watchdog
  watchdog-IsAgent t now a v = record { key = ground (arith, v.key); times = ground arith }

  dispatch-IsAgent :
      (t : Timeouts) (now : ℕ) (op : Text) (q : J.Json) (a : Agent) (w : World)
      → a.last ≤ now
      → IsAgent a
      → IsAgent (dispatch t now op q a w).1
  unfolding dispatch unlock_request status_request lock_request vault_request
  dispatch-IsAgent t now op q a w h v = record { key = ground (arith, v.key); times = ground arith }

  -- The start of the session moves only in a request to unlock.
  started-dispatch :
      (t : Timeouts) (now : ℕ) (op : Text) (q : J.Json) (a : Agent) (w : World)
      → eq_text op (lit "unlock") ≡ false
      → (dispatch t now op q a w).1.started ≡ a.started
  unfolding dispatch status_request lock_request vault_request
  started-dispatch t now op q a w h = ground arith

  -- A key appears only by a request to unlock.
  locked-dispatch :
      (t : Timeouts) (now : ℕ) (op : Text) (q : J.Json) (a : Agent) (w : World)
      → eq_text op (lit "unlock") ≡ false
      → is_empty (dispatch t now op q a w).1.key ≡ false
      → is_empty a.key ≡ false
  unfolding dispatch status_request lock_request vault_request
  locked-dispatch t now op q a w h k = ground arith

  -- A timed request: its arrival, its operation and the rest of it.
  pub record Timed : Type 0 where
    pub now : ℕ
    pub op : Text
    pub query : J.Json

  -- Requests in the order in which they take the lock.
  unfoldable pub run_requests : Timeouts → List Timed → Agent → World → Agent × World
  run_requests t [] a w = (a, w)
  run_requests t (r ∷ rs) a w =
      let (reply, a', w') = dispatch t r.now r.op r.query a w in run_requests t rs a' w'

  abbrev pub NoUnlock : List Timed → Type 0
  NoUnlock [] = Unit {0}
  NoUnlock (r ∷ rs) = (eq_text r.op (lit "unlock") ≡ false) × NoUnlock rs

  run-started :
      (t : Timeouts) (rs : List Timed) (a : Agent) (w : World)
      → NoUnlock rs
      → is_empty (run_requests t rs a w).0.key ≡ false
      → (is_empty a.key ≡ false) × ((run_requests t rs a w).0.started ≡ a.started)
  unfolding run_requests
  run-started t [] a w n k = (k, refl)
  run-started t (r ∷ rs) a w n k =
      let d = dispatch t r.now r.op r.query a w in
      let (k', s) = run-started t rs d.1 d.2 n.1 k in
      (
        locked-dispatch t r.now r.op r.query a w n.0 k',
        s ∙ started-dispatch t r.now r.op r.query a w n.0,
      )

  watchdog_bounds :
      (t : Timeouts) (now : ℕ) (a : Agent)
      → is_empty (watchdog t now a).key ≡ false
      → (now ≤ (watchdog t now a).last + t.idle * second)
        × (now ≤ (watchdog t now a).started + t.absolute * second)
  unfolding watchdog
  watchdog_bounds t now a k = ground arith

  -- No use of the vault stretches the absolute time-out: whatever requests but unlocking come after
  -- a round of the watchdog, the vault is unlocked after them only if that round was within the
  -- absolute time-out of the session.
  pub absolute_timeout :
      (t : Timeouts) (now : ℕ) (rs : List Timed) (a : Agent) (w : World)
      → NoUnlock rs
      → is_empty (run_requests t rs (watchdog t now a) w).0.key ≡ false
      → now ≤ (run_requests t rs (watchdog t now a) w).0.started + t.absolute * second
  absolute_timeout t now rs a w n k =
      let (k', s) = run-started t rs (watchdog t now a) w n k in
      let b = watchdog_bounds t now a k' in omega (arith, s, b.1)

  -- Every request and every round of the watchdog keeps a key of 32 bytes or none, and the order of
  -- the times; the clock of a request is not before the last use.
  pub step-IsAgent :
      (t : Timeouts) (now : ℕ) (op : Text) (q : J.Json) (a : Agent) (w : World)
      → a.last ≤ now
      → IsAgent a
      → IsAgent (dispatch t now op q a w).1 × IsAgent (watchdog t now a)
  step-IsAgent t now op q a w h v =
      (dispatch-IsAgent t now op q a w h v, watchdog-IsAgent t now a v)

  -- While the agent is locked a vault operation is refused with the message that tells to unlock,
  -- and neither the agent, nor the server, nor the random generator is touched.
  pub dispatch-locked :
      (t : Timeouts) (now : ℕ) (op : Text) (q : J.Json) (a : Agent) (w : World)
      → is_empty a.key ≡ true
      → eq_text op (lit "unlock") ≡ false
      → eq_text op (lit "status") ≡ false
      → eq_text op (lit "lock") ≡ false
      → dispatch t now op q a w
        ≡ (err (nox_error (message "Vault session expired. Run 'nox unlock'.")), a, w)
  unfolding dispatch vault_request
  dispatch-locked t now op q a w k u s l = ground arith

  key_of-length : (q : J.Json) (k : Bytes) → key_of q ≡ ok k → length k ≡ 32
  unfolding key_of
  key_of-length q k h = ground arith

  -- A request to unlock replaces the key and restarts both time-outs if it brings 32 bytes, and else
  -- leaves the session as it was.
  pub unlock_request_cases :
      (now : ℕ) (q : J.Json) (a : Agent)
      → ((key : Bytes) × (length key ≡ 32)
          × (unlock_request now q a ≡ (ok [], record a { key = key; started = now; last = now })))
        ⊎ ((e : Error) × (unlock_request now q a ≡ (err e, a)))
  unfolding unlock_request
  unlock_request_cases now q a = elim (Result-cases (key_of q)) [
    | inl (k, h) ↦ inl (k, key_of-length q k h, rw (h, unlock_request))
    | inr (e, h) ↦ inr (e, rw (h, unlock_request))
  ]

  -- The idle time-out is enforced by the watchdog alone: a vault operation that comes after the idle
  -- time-out but before the next round of the watchdog still runs with the key, and prolongs the
  -- session, which the next round of the watchdog then keeps.
  late_request :
      (t : Timeouts) (now : ℕ) (op : Text) (q : J.Json) (a : Agent) (w : World)
      → is_empty a.key ≡ false
      → t.idle * second < now - a.last
      → now - a.started ≤ t.absolute * second
      → eq_text op (lit "unlock") ≡ false
      → eq_text op (lit "status") ≡ false
      → eq_text op (lit "lock") ≡ false
      → (is_empty (watchdog t now a).key ≡ true)
        × (watchdog t now (dispatch t now op q a w).1 ≡ record a { last = now })
  unfolding dispatch vault_request watchdog
  late_request t now op q a w k i b u s l = (ground arith, ground arith)

  -- Locking empties the key and ends the loop; asking for the status changes nothing; and a vault
  -- operation that is refused by the server or by its input leaves the session as one that worked.
  pub session-dispatch :
      (t : Timeouts) (now : ℕ) (q : J.Json) (a : Agent) (w : World)
      → ((dispatch t now (lit "lock") q a w).1 ≡ record a { key = []; stop = true })
        × ((dispatch t now (lit "status") q a w).1 ≡ a)
        × ((dispatch t now (lit "get") q a w).1
            ≡ (if is_empty a.key then a else record a { last = now }))
  unfolding dispatch status_request lock_request vault_request
  session-dispatch t now q a w = (refl, refl, ground arith)
