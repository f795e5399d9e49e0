-- ===== src/Examples/Settings.antt =====
-- Settings that are changed, dropped and displayed, with the toy library of JSON values.
use nox_vault.Config.Settings.Restating.{set-get}
use nox_vault.Config.Settings.Numbers.{number_or}
use nox_vault.Errors.{ok}
use nox_vault.Config.Settings.Changing.{set-load, updated}
use nox_vault.Config.Settings.Showing.{get, get-set, to_string, displayed}
use nox_vault.Common.{◌≡◌, false, pos, [], refl, ◌∷◌, lit, none}
use nox_vault.Examples.Toys.{
  toy_bool, toy_long, toy_text, toy_at, to_option, jtext, of_option, toy_object, jint, ToyJson,
  toy_put, toy_json,
}
use nox_vault.Examples.Toys.{toy_is_object}
use nox_vault.Config.Settings.{
  check_url, member, check_config, parse_positive, setting, read_config, ClientConfig, stol, set,
  load,
}

abbrev pub dark : ToyJson
dark = toy_object ((lit "color", jtext (lit "never")) ∷ [])

abbrev pub dark_settings : ClientConfig
dark_settings = record {
  server_url = none;
  timeout_seconds = pos 15;
  color = lit "never";
  unlock_timeout_seconds = pos 900;
  clipboard_timeout_seconds = pos 30;
  start_locked = false;
  language = lit "en";
}

abbrev slower : ToyJson
slower = toy_put dark (lit "timeout_seconds") (jint (pos 30))

pub dark_loads : load dark ≡ ok dark_settings
unfolding load read_config check_config member check_url toy_at toy_object of_option to_option
    toy_is_object toy_text toy_long toy_bool
dark_loads = refl

takes : set (lit "timeout_seconds") (lit " 30s") dark ≡ ok slower
unfolding set setting parse_positive stol toy_put toy_object of_option to_option
takes = refl

set_example : load slower ≡ ok (record dark_settings { timeout_seconds = pos 30 })
unfolding updated number_or stol toy_is_object toy_object
set_example =
    set-load (lit "timeout_seconds") (lit " 30s") dark slower dark_settings refl dark_loads takes

displayed_example : get (lit "https://vault") (lit "timeout_seconds") slower ≡ ok (lit "30")
unfolding toy_is_object toy_object displayed to_string number_or stol
displayed_example =
    get-set (lit "https://vault") (lit "timeout_seconds") (lit " 30s") dark slower dark_settings
      refl dark_loads takes

shows : get (lit "https://vault") (lit "color") dark ≡ ok (lit "never")
unfolding get load read_config check_config member check_url toy_at toy_object of_option to_option
    toy_text toy_long toy_bool toy_is_object
shows = refl

restated_setting_example :
    (j' : ToyJson) × (set (lit "color") (lit "never") dark ≡ ok j') × (load j' ≡ ok dark_settings)
unfolding toy_is_object toy_object
restated_setting_example =
    set-get (lit "https://vault") (lit "color") (lit "never") dark dark_settings refl dark_loads
      refl shows
