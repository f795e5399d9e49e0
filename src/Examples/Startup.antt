-- ===== src/Examples/Startup.antt =====
-- The start of the graphical client with the toy libraries.
use nox_vault.Config.Url.{split_authority, validate_server_url}
use nox_vault.Config.Settings.{
  url_or, effective_server_url, check_url, member, check_config, read_config, load,
}
use nox_vault.ApiClient.{health}
use nox_vault.Cli.Program.Main.{effective_url, configuration}
use nox_vault.Gui.Operations.Screens.{startup_snapshot-Opens, Opens, Tells}
use nox_vault.Gui.Operations.Saying.{agent_says, relock_host}
use nox_vault.Config.Settings.{ClientConfig}
use nox_vault.Config.Sessions.{read_session, list_sessions, load_session}
use nox_vault.Models.{AuthSession}
use nox_vault.Gui.Operations.{to_int, settings_answer, add_settings}
use nox_vault.Cli.Program.{compatible_after, check_server, Desk}
use nox_vault.Gui.Operations.Startup.{start_session, startup_snapshot}
use nox_vault.Errors.{ok}
use nox_vault.Common.{List, Option, true, ◌≡◌, false, ◌∷◌, refl, pos, [], lit}
use nox_vault.Examples.Toys.{
  toy_answer, toy_same, toy_int, toy_long, toy_bool, toy_text, toy_is_object, of_option, to_option,
  toy_at, jtext, jint, toy_object, ToyJson, toy_json, toy_sodium, toy_random, toy_api,
}
use nox_vault.Examples.Agent.{toy_socket}
use nox_vault.Examples.Sessions.{no_files}
use nox_vault.Examples.Program.{desk, home, lacks_token}
use nox_vault.Gui.Answers.{text, flag, number, sessions, Answer}

abbrev healthy : ToyJson
healthy = toy_object ((lit "api_version", jint (pos 1)) ∷ (lit "status", jtext (lit "ok")) ∷ [])

abbrev first_start : Desk
first_start = record desk {
  terminal = record desk.terminal { world = record desk.terminal.world { server = healthy ∷ [] } };
  files = no_files;
}

abbrev no_values : ToyJson → List ToyJson
no_values j = []

abbrev login_answer : Answer
login_answer =
    (lit "screen", text (lit "login"))
    ∷ (lit "healthy", flag true)
    ∷ (lit "serverUrl", text home)
    ∷ (lit "requestTimeout", number (pos 15))
    ∷ (lit "autoLockTimeout", number (pos 900))
    ∷ (lit "clipboardTimeout", number (pos 30))
    ∷ (lit "startLocked", flag false)
    ∷ (lit "language", text (lit "en"))
    ∷ (lit "accounts", sessions [])
    ∷ []

starts : (startup_snapshot lacks_token no_values home 5 first_start).0 ≡ ok login_answer
unfolding startup_snapshot add_settings settings_answer to_int configuration effective_url
    check_server compatible_after health start_session list_sessions load read_config check_config
    member check_url effective_server_url url_or validate_server_url split_authority load_session
    read_session toy_at toy_object to_option of_option toy_is_object toy_text toy_bool toy_long
    toy_int toy_same toy_answer
starts = refl

startup_example :
    (s : Option AuthSession) × (load_session lacks_token no_files ≡ ok s)
    × Opens s login_answer
    × (c : ClientConfig) × (load first_start.settings ≡ ok c)
    × Tells (agent_says (relock_host c.start_locked first_start.terminal.host)) login_answer
startup_example =
    startup_snapshot-Opens lacks_token no_values home 5 first_start login_answer starts
