-- ===== src/Agent/Client.antt =====
-- `exchange` and `AgentClient` of client/src/agent.cpp on Unix: the requests to the agent, and its
-- start. What the system gives is in the state: the channels that the next calls of `connect_channel`
-- give (`none` is an invalid one, as is any behind the last), whether the lock of the start is
-- acquired and whether `fork` succeeds. The child and the waits of the start are not modelled.
pub mod Exchange
pub mod Probing
pub mod Starting
use nox_vault.Libraries.Json.{JsonLib}
use nox_vault.Common.{
  ltb, Bytes, not, message, lit, Text, Bool, Option, List, ℕ, none, ◌+◌, ◌-◌, [], true, zero, some,
  suc, if◌then◌else◌, ◌∷◌, false,
}
use nox_vault.Agent.Channel.{Socket, max_frame, u32_value, send_request, read_all}
use nox_vault.Models.Wire.{member_or}
use nox_vault.Errors.{json_exception, Result, ok, err, nox_error, or_throw}

module _ ⦃J : JsonLib⦄ where
  -- j.value(key, fallback), which throws on what is not an object
  unfoldable pub value_at : {X : Type 0} → (J.Json → Option X) → X → J.Json → Text → Result X
  value_at reader d j k =
      if J.is_object j then member_or reader d (J.at j k) else err json_exception

module _ ⦃C : Socket⦄ ⦃J : JsonLib⦄ where
  parsed : Option Bytes × C.State → Result J.Json × C.State
  parsed (none, s) = (err (nox_error (message "Incomplete local agent response")), s)
  parsed (some t, s) = (or_throw json_exception (J.parse t), s)

  sized : Option Bytes × C.State → Result J.Json × C.State
  unfolding parsed
  sized (none, s) = (err (nox_error (message "Invalid local agent response")), s)
  sized (some b, s) =
      if ltb max_frame (u32_value b)
      then (err (nox_error (message "Invalid local agent response")), s)
      else parsed (read_all (u32_value b) (u32_value b) s)

  received : Bool × C.State → Result J.Json × C.State
  unfolding sized
  received (false, s) =
      (err (nox_error (message "Unable to communicate with local vault agent")), s)
  received (true, s) = sized (read_all 4 4 s)

  unfoldable pub exchange : J.Json → C.State → Result J.Json × C.State
  unfolding received
  exchange q s = received (send_request (J.dump q) s)

  -- The channels to come, the system's answers, and what the client has done: the channels opened,
  -- the calls of `close_channel`, the locks held and the processes started.
  pub record Host : Type 0 where
    pub channels : List (Option C.State)
    pub locks : Bool
    pub forks : Bool
    pub opened : ℕ
    pub closed : ℕ
    pub held : ℕ
    pub started : ℕ

  connected : Host → List (Option C.State) → Option C.State × Host
  connected h [] = (none, h)
  connected h (none ∷ l) = (none, record h { channels = l })
  connected h (some s ∷ l) = (some s, record h { channels = l; opened = h.opened + 1 })

  unfoldable pub connect_channel : Host → Option C.State × Host
  unfolding connected
  connect_channel h = connected h h.channels

  unfoldable pub close_channel : Host → Host
  close_channel h = record h { closed = h.closed + 1 }

  abbrev pub status_query : J.Json
  status_query = J.object ((lit "op", J.text (lit "status")) ∷ [])

  -- The value of `available` for a response; an exception gives false.
  unfoldable pub says_ok : Result Bool → Bool
  says_ok (ok b) = b
  says_ok (err e) = false

  probed : Result J.Json → Host → Bool × Host
  unfolding close_channel says_ok
  probed (err e) h = (false, h)
  probed (ok r) h = (says_ok (value_at J.as_bool false r (lit "ok")), close_channel h)

  probe : Option C.State × Host → Bool × Host
  unfolding probed
  probe (none, h) = (false, h)
  probe (some s, h) = probed (exchange status_query s).0 h

  unfoldable pub available : Host → Bool × Host
  unfolding probe
  available h = probe (connect_channel h)

  refused : Result Text → Result J.Json
  refused (ok t) = err (nox_error t)
  refused (err e) = err e

  -- What follows the first `close_channel`: each `throw` goes through the handler, which closes.
  judged : Result Bool → J.Json → Host → Result J.Json × Host
  unfolding refused close_channel
  judged (ok true) r h = (ok r, h)
  judged (ok false) r h = (
    refused (value_at J.as_text (message "Local agent request failed") r (lit "error")),
    close_channel h,
  )
  judged (err e) r h = (err e, close_channel h)

  replied : Result J.Json → Host → Result J.Json × Host
  unfolding judged close_channel
  replied (err e) h = (err e, close_channel h)
  replied (ok r) h = judged (value_at J.as_bool false r (lit "ok")) r (close_channel h)

  asking : J.Json → Option C.State × Host → Result J.Json × Host
  unfolding replied
  asking q (none, h) = (err (nox_error (message "Vault is locked. Run 'nox unlock'.")), h)
  asking q (some s, h) = replied (exchange q s).0 h

  unfoldable pub request : J.Json → Host → Result J.Json × Host
  unfolding asking
  request q h = asking q (connect_channel h)

  -- The loop over `available`, with the rounds left.
  unfoldable pub poll : ℕ → Host → Bool × Host
  poll zero h = (false, h)
  poll (suc n) h =
      let (b, next) = available h in let rest = poll n next in if b then (true, next) else rest

  release : Host → Host
  release h = record h { held = h.held - 1 }

  ended : Bool × Host → Result (Unit {0}) × Host
  unfolding release
  ended (true, h) = (ok tt, release h)
  ended (false, h) = (err (nox_error (message "Local vault agent did not start")), release h)

  -- With the lock: another client may have started the agent.
  coordinated : Bool × Host → Result (Unit {0}) × Host
  unfolding release ended
  coordinated (true, h) = (ok tt, release h)
  coordinated (false, h) =
      if not h.forks
      then (err (nox_error (message "Unable to start local vault agent")), release h)
      else ended (poll 50 (record h { started = h.started + 1 }))

  starting : Bool × Host → Result (Unit {0}) × Host
  unfolding coordinated
  starting (true, h) = (ok tt, h)
  starting (false, h) =
      if not h.locks
      then (err (nox_error (message "Unable to coordinate local vault agent startup")), h)
      else coordinated (available (record h { held = h.held + 1 }))

  unfoldable pub ensure_running : Host → Result (Unit {0}) × Host
  unfolding starting
  ensure_running h = starting (available h)
