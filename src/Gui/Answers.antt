-- ===== src/Gui/Answers.antt =====
-- The QVariantMap that an operation of client/src/gui/app_controller.cpp hands to the interface, and
-- the map that stands for an exception.
use nox_vault.Common.{
  starts_with, eq_text, Bool, lookup, message, some, List, ℤ, pos, false, ◌∷◌, true, if◌then◌else◌,
  [], Text, none, lit, ◌||◌, Option,
}
use nox_vault.Gui.Secrets.{Item}
use nox_vault.Errors.{
  Error, nox_error, network_error, authentication_error, crypto_error, invalid_master_password,
  secret_not_found, configuration_error, api_compatibility_error, server_error, version_conflict,
  json_exception, std_exception,
}

pub record Account : Type 0 where
  pub user_id : Text
  pub email : Text
  pub active : Bool

pub data Variant : Type 0 where
  text : Text → Variant
  flag : Bool → Variant
  number : ℤ → Variant
  rows : List Item → Variant
  sessions : List Account → Variant

abbrev pub Answer : Type 0
Answer = List (Text × Variant)

-- value(key, fallback).toString(), toBool(), toInt() and toList(); a value of another kind gives the
-- empty value of the kind that is asked for.
to_text : Text → Option Variant → Text
to_text d none = d
to_text d (some (text t)) = t
to_text d (some v) = []

to_flag : Option Variant → Bool
to_flag (some (flag b)) = b
to_flag o = false

to_number : ℤ → Option Variant → ℤ
to_number d none = d
to_number d (some (number n)) = n
to_number d (some v) = pos 0

to_rows : Option Variant → List Item
to_rows (some (rows l)) = l
to_rows o = []

to_sessions : Option Variant → List Account
to_sessions (some (sessions l)) = l
to_sessions o = []

unfoldable pub text_at : Text → Text → Answer → Text
unfolding to_text
text_at k d r = to_text d (lookup k r)

unfoldable pub flag_at : Text → Answer → Bool
unfolding to_flag
flag_at k r = to_flag (lookup k r)

unfoldable pub number_at : Text → ℤ → Answer → ℤ
unfolding to_number
number_at k d r = to_number d (lookup k r)

unfoldable pub rows_at : Text → Answer → List Item
unfolding to_rows
rows_at k r = to_rows (lookup k r)

unfoldable pub sessions_at : Text → Answer → List Account
unfolding to_sessions
sessions_at k r = to_sessions (lookup k r)

-- message.find(part) != npos
unfoldable pub has_part : Text → Text → Bool
has_part part [] = eq_text part []
has_part part (c ∷ s) = starts_with part (c ∷ s) || has_part part s

failed : Text → Answer
failed t = (lit "error", text t) ∷ []

-- The handlers of `dispatch`, in their order; `AuthenticationError` also clears the session and locks
-- the agent, which is outside of the interface.
unfoldable pub report : Error → Answer
unfolding failed
report (authentication_error m) =
    (lit "error", text (message "Session expired. Please sign in again."))
    ∷ (lit "sessionExpired", flag true)
    ∷ []
report (network_error m) = failed (
    if has_part (lit "timed out") m
    then message "Request timed out."
    else message "Unable to reach NOX Vault server.")
report (invalid_master_password m) =
    failed (message "Incorrect master password or damaged vault metadata.")
report (version_conflict status code m) =
    failed (message "Secret changed on another client. Refresh and try again.")
report (secret_not_found m) = failed (message "Secret not found.")
report (nox_error m) = failed m
report (crypto_error m) = failed m
report (configuration_error m) = failed m
report (api_compatibility_error m) = failed m
report (server_error status code m) = failed m
report json_exception = failed (message "Unexpected client failure.")
report std_exception = failed (message "Unexpected client failure.")
