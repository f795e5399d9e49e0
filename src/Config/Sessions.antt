-- ===== src/Config/Sessions.antt =====
-- The stored sessions of client/src/config_manager.cpp, lines 215 to 270, on the JSON values of the
-- files session.json and accounts.json: an empty object stands for a file that is not there. A file
-- that cannot be read or written is not modelled. The accounts are listed with their keys by the
-- library.
pub mod Switching
use nox_vault.Common.{message, ◌∷◌, lit, Bool, Option, List, some, none, Text, if◌then◌else◌, []}
use nox_vault.Models.{AuthSession}
use nox_vault.Models.Wire.{read}
use nox_vault.Libraries.Json.{JsonLib}
use nox_vault.Errors.{configuration_error, rethrow, Result, err, ok, ◌>>=◌}

module _ ⦃J : JsonLib⦄ where
  pub record Files : Type 0 where
    pub session : J.Json
    pub accounts : J.Json

  -- `AuthSession{j.at("access_token"), ...}`; `empty` is j.empty() of the library.
  unfoldable pub read_session : J.Json → Result AuthSession
  read_session j = do
    access_token ← read J.as_text j (lit "access_token")
    user_id ← read J.as_text j (lit "user_id")
    email ← read J.as_text j (lit "email")
    expires_at ← read J.as_long j (lit "expires_at")
    ok (record {
      access_token = access_token;
      user_id = user_id;
      email = email;
      expires_at = expires_at;
    })

  abbrev pub session_fields : AuthSession → List (Text × J.Json)
  session_fields s =
      (lit "access_token", J.text s.access_token)
      ∷ (lit "user_id", J.text s.user_id)
      ∷ (lit "email", J.text s.email)
      ∷ (lit "expires_at", J.int s.expires_at)
      ∷ []

  found : AuthSession → Option AuthSession
  found s = some s

  unfoldable pub load_session : (J.Json → Bool) → Files → Result (Option AuthSession)
  unfolding found
  load_session empty f =
      if empty f.session
      then ok none
      else rethrow (λ _. configuration_error (message "Stored authentication session is invalid"))
          (do s ← read_session f.session; ok (found s))

  accounts_of : Files → J.Json
  accounts_of f = if J.is_object f.accounts then f.accounts else J.object []

  unfoldable pub save_session : AuthSession → Files → Files
  unfolding accounts_of
  save_session s f = record {
    session = J.object (session_fields s);
    accounts = J.put (accounts_of f) s.user_id (J.object (session_fields s));
  }

  forget : Option AuthSession → Files → J.Json
  forget none f = f.accounts
  forget (some s) f = if J.is_object f.accounts then J.erase f.accounts s.user_id else f.accounts

  unfoldable pub clear_session : (J.Json → Bool) → Files → Result Files
  unfolding forget
  clear_session empty f = do
    active ← load_session empty f
    ok (record { session = J.object []; accounts = forget active f })

  unfoldable pub activate_session : Text → Files → Result Files
  activate_session user_id f =
      if J.is_object f.accounts
      then elim (J.at f.accounts user_id) [
        | none ↦ err (configuration_error (message "Stored account not found"))
        | some j ↦ ok (record f { session = j })
      ]
      else err (configuration_error (message "Stored account not found"))

  read_all : List J.Json → Result (List AuthSession)
  read_all [] = ok []
  read_all (j ∷ l) = do s ← read_session j; rest ← read_all l; ok (s ∷ rest)

  -- `values` gives the values of an object in the order of its keys.
  unfoldable pub list_sessions : (J.Json → List J.Json) → Files → Result (List AuthSession)
  unfolding read_all
  list_sessions values f =
      if J.is_object f.accounts
      then rethrow (λ _. configuration_error (message "Stored accounts are invalid"))
          (read_all (values f.accounts))
      else ok []
