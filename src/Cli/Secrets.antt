-- ===== src/Cli/Secrets.antt =====
-- The commands of client/src/main.cpp on secrets: one request to the agent. The result is the lines
-- that are printed at the end.
use nox_vault.Agent.Client.{request}
use nox_vault.Models.Wire.{read}
use nox_vault.Agent.Channel.{Socket}
use nox_vault.Models.{AuthSession}
use nox_vault.Libraries.Json.{JsonLib}
use nox_vault.Errors.{err, json_exception, Result, ok}
use nox_vault.Common.{
  message, eq_text, false, ◌||◌, Option, some, none, if◌then◌else◌, List, Bool, lit, ℤ, [], ◌∷◌,
  Text,
}
use nox_vault.Libraries.Sodium.{Random, Sodium}
use nox_vault.Cli.{hold_secret, drop_secret, ◌>>◌, read_line, on_agent, give, Cli, ◌>>=◌}
use nox_vault.Effects.{Api, plaintext}

pub data Command : Type 0 where
  listing : Command
  getting adding updating : Text → Command
  removing : Text → Bool → Command

-- The address and the time-out of the configuration, and the session.
pub record Account : Type 0 where
  pub server_url : Text
  pub timeout : ℤ
  pub session : AuthSession

module _ ⦃S : Sodium⦄ ⦃J : JsonLib⦄ ⦃R : Random⦄ ⦃A : Api⦄ ⦃C : Socket⦄ where
  unfoldable pub agent_request : Text → Account → J.Json
  agent_request op a = J.object (
      (lit "op", J.text op)
      ∷ (lit "server_url", J.text a.server_url)
      ∷ (lit "timeout", J.int a.timeout)
      ∷ (lit "token", J.text a.session.access_token)
      ∷ (lit "user_id", J.text a.session.user_id)
      ∷ [])

  -- The request before the value: all but `list` name the secret.
  unfoldable pub named_request : Account → Command → J.Json
  named_request a listing = agent_request (lit "list") a
  named_request a (getting name) = J.put (agent_request (lit "get") a) (lit "name") (J.text name)
  named_request a (adding name) = J.put (agent_request (lit "add") a) (lit "name") (J.text name)
  named_request a (updating name) =
      J.put (agent_request (lit "update") a) (lit "name") (J.text name)
  named_request a (removing name sure) =
      J.put (agent_request (lit "remove") a) (lit "name") (J.text name)

  -- n.get<std::string>() of every name; the agent sends an array.
  unfoldable pub texts : List J.Json → Result (List Text)
  texts [] = ok []
  texts (j ∷ js) = elim (J.as_text j) [
    | some t ↦ elim (texts js) [ ok ts ↦ ok (t ∷ ts) | err e ↦ err e ]
    | none ↦ err json_exception
  ]

  unfoldable pub names_of : Option J.Json → Result (List Text)
  names_of none = err json_exception
  names_of (some j) = elim (J.items j) [ some l ↦ texts l | none ↦ err json_exception ]

  abbrev pub lifted : {X : Type 0} → Result X → Cli X
  lifted r t = (r, t)

  -- `copy_to_clipboard` with --copy, which prints no value.
  shown_value : Option (Text → Result (Unit {0})) → Text → Cli (List Text)
  shown_value none value = give (value ∷ [])
  shown_value (some copy) value = do
    lifted (copy value)
    give (message "Secret copied. Clipboard managers may retain its contents." ∷ [])

  -- What follows the response.
  print_response : Option (Text → Result (Unit {0})) → Command → J.Json → Cli (List Text)
  unfolding names_of shown_value
  print_response copy listing r = lifted (names_of (J.at r (lit "names")))
  print_response copy (getting name) r = do
    value ← lifted (read J.as_text r (lit "value"))
    hold_secret plaintext
    lines ← shown_value copy value
    drop_secret plaintext
    give lines
  print_response copy c r = give (message "Done." ∷ [])

  -- The value of `add` and `update`; a copy of it stays in the request.
  valued : Command → J.Json → Cli J.Json
  valued (adding name) q = do value ← read_line; give (J.put q (lit "value") (J.text value))
  valued (updating name) q = do value ← read_line; give (J.put q (lit "value") (J.text value))
  valued c q = give q

  unfoldable pub send_command :
      Option (Text → Result (Unit {0})) → Account → Command → Cli (List Text)
  unfolding print_response valued
  send_command copy a c = do
    q ← valued c (named_request a c)
    r ← on_agent (request q)
    print_response copy c r

  confirmed : Option (Text → Result (Unit {0})) → Account → Text → Text → Cli (List Text)
  confirmed copy a name answer =
      if eq_text answer (lit "y") || eq_text answer (lit "Y")
      then send_command copy a (removing name false)
      else give (message "Cancelled." ∷ [])

  unfoldable pub secret_command :
      Option (Text → Result (Unit {0})) → Account → Command → Cli (List Text)
  unfolding confirmed
  secret_command copy a (removing name false) = do answer ← read_line; confirmed copy a name answer
  secret_command copy a c = send_command copy a c
