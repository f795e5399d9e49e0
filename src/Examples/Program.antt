-- ===== src/Examples/Program.antt =====
-- Runs of the program with the toy libraries.
use nox_vault.Config.Sessions.{read_session, load_session, clear_session}
use nox_vault.Auth.{logout}
use nox_vault.Agent.Client.{connect_channel, available}
use nox_vault.Config.Url.{split_authority, validate_server_url}
use nox_vault.Config.Settings.{
  url_or, effective_server_url, check_url, member, check_config, read_config, load,
}
use nox_vault.Examples.Sessions.{logged_in}
use nox_vault.Cli.Program.LoggedOut.{logout-IsRefused}
use nox_vault.Examples.Vault.{opened}
use nox_vault.Examples.Client.{host}
use nox_vault.Cli.Program.Configured.{runs-IsConfigured, IsConfigured}
use nox_vault.Cli.Program.Main.{logout_command, runs, run}
use nox_vault.Cli.Program.Refusing.{IsRefused}
use nox_vault.Errors.{ok}
use nox_vault.Common.{message, is_some, not, Bool, true, Text, ◌∷◌, [], ◌≡◌, refl, lit, none}
use nox_vault.Examples.Toys.{
  toy_long, toy_bool, toy_text, to_option, of_option, toy_object, toy_is_object, ToyJson, toy_at,
  toy_json, toy_sodium, toy_random, toy_api,
}
use nox_vault.Examples.Agent.{toy_socket}
use nox_vault.Examples.Settings.{dark, dark_settings, dark_loads}
use nox_vault.Cli.Program.{lock_agent, Desk, config_set, locking, logging_out, unlocking}

-- j.empty() of the library, as far as the files of the sessions need it
abbrev pub lacks_token : ToyJson → Bool
lacks_token j = not (is_some (toy_at j (lit "access_token")))

abbrev pub desk : Desk
desk = record {
  terminal = record { world = opened; host = host []; lines = lit "password" ∷ [] };
  settings = dark;
  files = logged_in;
  token = none;
  size = none;
  document = none;
  written = none;
}

abbrev pub home : Text
home = lit "https://nox.example"

is_object_dark : toy_is_object dark ≡ true
unfolding toy_is_object toy_object
is_object_dark = refl

stays_valid_example :
    IsConfigured
      (runs lacks_token home 5 none
        (config_set (lit "language") (lit "pl") ∷ logging_out ∷ [])
        desk).settings
stays_valid_example =
    runs-IsConfigured lacks_token home 5 none
      (config_set (lit "language") (lit "pl") ∷ logging_out ∷ []) desk
      (record { config = dark_settings; object = is_object_dark; loads = dark_loads })

vacant_empty : lacks_token (toy_object []) ≡ true
unfolding toy_at toy_object of_option to_option
vacant_empty = refl

logs_out_desk : (run lacks_token home 5 none logging_out desk).0 ≡ ok (message "Logged out." ∷ [])
unfolding run logout_command lock_agent load read_config check_config member check_url
    effective_server_url url_or validate_server_url split_authority available connect_channel logout
    clear_session load_session read_session toy_at toy_object to_option of_option toy_is_object
    toy_text toy_bool toy_long
logs_out_desk = refl

refused_example :
    IsRefused
      (runs lacks_token home 5 none (locking ∷ []) (run lacks_token home 5 none logging_out desk).1)
      (run lacks_token home 5 none unlocking (
        runs lacks_token home 5 none
          (locking ∷ [])
          (run lacks_token home 5 none logging_out desk).1))
refused_example =
    logout-IsRefused lacks_token home 5 none vacant_empty (locking ∷ []) unlocking desk
      (message "Logged out." ∷ []) logs_out_desk refl refl
