-- ===== src/Gui/Operations.antt =====
-- The operations that client/src/gui/app_controller.cpp runs outside of the thread of the interface:
-- the start, a command of the agent, unlocking, locking and logging out, over the same state as the
-- program of the command line. Texts are not converted between UTF-8 and UTF-16. `empty` is j.empty()
-- and `values` the values of an object in the order of its keys, `fallback` the address that the
-- build sets, `now` the time.
pub mod Startup
pub mod Saying
pub mod Screens
use nox_vault.Models.Wire.{read}
use nox_vault.Vault.{list}
use nox_vault.Cli.{on_agent, there, on_vault}
use nox_vault.Config.Sessions.{list_sessions, load_session}
use nox_vault.Config.Settings.{ClientConfig}
use nox_vault.Cli.Secrets.{names_of, agent_request, Account}
use nox_vault.Agent.Channel.{Socket}
use nox_vault.Effects.{Api}
use nox_vault.Gui.Secrets.{Item}
use nox_vault.Config.Settings.Showing.{to_string}
use nox_vault.Models.{AuthSession, SecretRecord}
use nox_vault.Libraries.Json.{JsonLib}
use nox_vault.Libraries.Sodium.{Random, Sodium}
use nox_vault.Errors.{nox_error, authentication_error, Result, err, ok}
use nox_vault.Common.{
  not, message, ℕ, map, eq_text, Bool, String, negsuc, ltb, Text, ◌^◌, ℤ, List, ◌∷◌, some, true,
  Option, ◌%◌, none, [], if◌then◌else◌, pos, ◌++◌, ◌-◌, ◌||◌, false, lit,
}
use nox_vault.Cli.Program.{done, lock_agent, on_terminal, reading, Program, ◌>>=◌, ◌>>◌}
use nox_vault.Cli.Program.Main.{forget_session, with_session, configuration, effective_url, account}
use nox_vault.Agent.Client.{request}
use nox_vault.Gui.Answers.{Answer, text, flag, number, rows, sessions}

-- static_cast<int> of a long
unfoldable pub to_int : ℤ → ℤ
to_int (pos n) =
    if ltb (n % 2 ^ 32) (2 ^ 31) then pos (n % 2 ^ 32) else negsuc (2 ^ 32 - 1 - n % 2 ^ 32)
to_int (negsuc n) =
    if ltb (n % 2 ^ 32) (2 ^ 31) then negsuc (n % 2 ^ 32) else pos (2 ^ 32 - 1 - n % 2 ^ 32)

text_or : Option Text → Text
text_or none = []
text_or (some t) = t

unfoldable pub records_revision : List SecretRecord → Text
unfolding text_or
records_revision [] = []
records_revision (r ∷ rs) =
    r.id
    ++ (lit ":"
        ++ (to_string r.record_version
            ++ (lit ":" ++ (text_or r.updated_at ++ (lit ";" ++ records_revision rs)))))

-- The time of the last record of the name, or the one given.
timestamp : Text → Text → List SecretRecord → Text
timestamp name found [] = found
timestamp name found (r ∷ rs) = elim r.name [
  | none ↦ timestamp name found rs
  | some n ↦ elim r.updated_at [
    | none ↦ timestamp name found rs
    | some t ↦ timestamp name (if eq_text n name then t else found) rs
  ]
]

unfoldable pub records_with_timestamps : List Text → List SecretRecord → List Item
unfolding timestamp
records_with_timestamps names records =
    map (λ name. record { name = name; updated_at = timestamp name [] records }) names

abbrev pub active_in : Option AuthSession → AuthSession → Bool
active_in none s = false
active_in (some a) s = eq_text a.user_id s.user_id

module _ ⦃S : Sodium⦄ ⦃J : JsonLib⦄ ⦃R : Random⦄ ⦃A : Api⦄ ⦃C : Socket⦄ (empty : J.Json → Bool)
    (values : J.Json → List J.Json) (fallback : Text) (now : ℕ) where
  unfoldable pub settings_answer :
      ClientConfig → Text → Option AuthSession → List AuthSession → Answer
  settings_answer c url active saved =
      (lit "serverUrl", text url)
      ∷ (lit "requestTimeout", number (to_int c.timeout_seconds))
      ∷ (lit "autoLockTimeout", number (to_int c.unlock_timeout_seconds))
      ∷ (lit "clipboardTimeout", number (to_int c.clipboard_timeout_seconds))
      ∷ (lit "startLocked", flag c.start_locked)
      ∷ (lit "language", text c.language)
      ∷ (
        lit "accounts",
        sessions (
            map (λ s. record { user_id = s.user_id; email = s.email; active = active_in active s })
              saved),
      )
      ∷ []

  unfoldable pub add_settings : Program Answer
  unfolding settings_answer
  add_settings = do
    c ← configuration empty fallback now none
    url ← effective_url empty fallback now none
    active ← reading (λ d. load_session empty d.files)
    saved ← reading (λ d. list_sessions values d.files)
    done (settings_answer c url active saved)

  signed : Option AuthSession → Result AuthSession
  signed none = err (authentication_error (message "Not signed in"))
  signed (some s) = ok s

  unfoldable pub signed_in : Program AuthSession
  unfolding signed
  signed_in = do s ← reading (λ d. load_session empty d.files); reading (λ d. signed s)

  unfoldable pub operation_request : Account → Text → Text → Text → J.Json
  operation_request a operation name value =
      let named : J.Json =
        if eq_text name []
        then agent_request operation a
        else J.put (agent_request operation a) (lit "name") (J.text name) in
      if not (eq_text value []) || eq_text operation (lit "add") || eq_text operation (lit "update")
      then J.put named (lit "value") (J.text value)
      else named

  -- api.set_token(session->access_token)
  unfoldable pub with_token : AuthSession → Program (Unit {0})
  with_token s d = (ok tt, record d { token = some s.access_token })

  listed : AuthSession → Text → J.Json → Program Answer
  unfolding with_token
  listed s operation r =
      if eq_text operation (lit "list")
      then (do
        names ← reading (λ d. names_of (J.at r (lit "names")))
        c ← configuration empty fallback now none
        url ← effective_url empty fallback now none
        with_token s
        records ← on_terminal (on_vault list)
        done ((lit "records", rows (records_with_timestamps names records)) ∷ []))
      else if eq_text operation (lit "get")
      then (do
        value ← reading (λ d. read J.as_text r (lit "value"))
        done ((lit "value", text value) ∷ []))
      else done []

  with_agent : Bool → AuthSession → Text → Text → Text → Program Answer
  unfolding listed
  with_agent false s operation name value = (λ d. (err (nox_error (message "Vault is locked.")), d))
  with_agent true s operation name value = do
    a ← account empty fallback now none s
    r ← on_terminal (on_agent (request (operation_request a operation name value)))
    listed s operation r

  unfoldable pub agent_operation : Text → Text → Text → Program Answer
  unfolding with_agent
  agent_operation operation name value = do
    s ← signed_in
    running ← on_terminal there
    with_agent running s operation name value

  -- The operation of `lock`.
  unfoldable pub lock_operation : Program Answer
  lock_operation = do lock_agent; done []

  -- The operation of `logout`.
  unfoldable pub logout_operation : Program Answer
  logout_operation = do
    lock_agent
    c ← configuration empty fallback now none
    url ← effective_url empty fallback now none
    forget_session empty fallback now none
    done []
