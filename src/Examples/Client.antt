-- ===== src/Examples/Client.antt =====
-- The theorems on the client of the agent at concrete inputs.
use nox_vault.Agent.Client.Probing.{answers}
use nox_vault.Agent.Client.Exchange.{request_closes, closings, probe_closings, exchange-parse}
use nox_vault.Agent.Client.Starting.{ensure_running-answers}
use nox_vault.Errors.{nox_error, ok, err}
use nox_vault.Agent.Channel.{u32_value, read_all, write_all, both, u32_bytes, send_request}
use nox_vault.Common.{
  message, arith, take, lit, Option, some, refl, [], ◌∷◌, none, if◌then◌else◌, true, ◌≡◌, List,
}
use nox_vault.Examples.Toys.{
  toy_parse, of_option, to_option, toy_text, jbool, toy_bool, toy_object, toy_at, jnull,
  toy_is_object, ToyJson, toy_json,
}
use nox_vault.Examples.Agent.{toy_socket, Pipe, pipe_moves, pipe_takes, pipe_send}
use nox_vault.Agent.Client.{
  available, connect_channel, status_query, Host, exchange, request, value_at, ensure_running,
}

-- The channels of an agent that answers, and of one that refuses.
abbrev willing : Pipe
willing = ([], 3 ∷ 0 ∷ 0 ∷ 0 ∷ lit "yes")

abbrev unwilling : Pipe
unwilling = ([], 2 ∷ 0 ∷ 0 ∷ 0 ∷ lit "no")

abbrev cut : Pipe
cut = ([], [])

abbrev pub host : List (Option Pipe) → Host
host l = record {
  channels = l;
  locks = true;
  forks = true;
  opened = 0;
  closed = 0;
  held = 0;
  started = 0;
}

abbrev agreed : ToyJson
agreed = toy_object ((lit "ok", jbool true) ∷ [])

exchange_example : ((exchange jnull willing).0 ≡ ok agreed) × ((exchange jnull willing).1.1 ≡ [])
unfolding u32_bytes toy_parse
exchange_example =
    exchange-parse pipe_takes pipe_moves jnull agreed (lit "yes") [] willing (omega arith)
      (omega arith) refl refl

closes_example :
    ((request jnull (host (some unwilling ∷ []))).1.closed ≡ 2)
    × ((request jnull (host (some unwilling ∷ []))).1.opened ≡ 1)
    × ((available (host (some unwilling ∷ []))).1.closed ≡ 1)
    × ((available (host (some unwilling ∷ []))).1.opened ≡ 1)
unfolding value_at toy_is_object toy_at toy_object toy_bool toy_text to_option of_option exchange
    send_request both write_all read_all u32_bytes pipe_send toy_parse request connect_channel
    u32_value closings probe_closings
closes_example = request_closes jnull unwilling [] (host (some unwilling ∷ [])) refl

breaks : (exchange status_query cut).0 ≡ err (nox_error (message "Invalid local agent response"))
unfolding exchange send_request both write_all read_all u32_bytes pipe_send
breaks = refl

abbrev booting : Host
booting = host (none ∷ none ∷ some cut ∷ some willing ∷ [])

answers_example : (ensure_running booting).0 ≡ (
    if answers (take 52 booting.channels)
    then ok tt
    else err (nox_error (message "Local vault agent did not start")))
answers_example = ensure_running-answers booting refl refl
