-- ===== src/Auth.antt =====
-- client/src/auth_manager.cpp. The time is an argument, in seconds since the epoch.
use nox_vault.Common.{
  ltb, ◌+◌, arith, ℕ, suc, ◌-◌, negsuc, message, lit, leb, Option, pos, false, ◌≡◌, ◌∷◌, Bool, some,
  true, none, Text, ℤ, if◌then◌else◌, [],
}
use nox_vault.Config.Sessions.{Files, load_session, save_session, clear_session}
use nox_vault.Effects.{Method, Request}
use nox_vault.Libraries.Json.{JsonLib}
use nox_vault.Models.{AuthSession}
use nox_vault.Models.Wire.{read}
use nox_vault.Errors.{
  json_exception, or_throw, authentication_error, server_error, rethrow, Result, err, ok, ◌>>=◌,
}

-- a <= b
unfoldable pub at_most : ℤ → ℤ → Bool
at_most (pos a) (pos b) = leb a b
at_most (pos a) (negsuc b) = false
at_most (negsuc a) (pos b) = true
at_most (negsuc a) (negsuc b) = leb b a

-- now + expires_in, short of an overflow of 64 bits
later : ℕ → ℤ → ℤ
later now (pos m) = pos (now + m)
later now (negsuc m) = if ltb m now then pos (now - suc m) else negsuc (m - now)

module _ ⦃J : JsonLib⦄ where
  abbrev pub auth_request : Text → Text → Bool → Request
  auth_request email secret registration = record {
    method = Method.post;
    path = if registration then lit "/auth/register" else lit "/auth/login";
    body = some (J.object ((lit "email", J.text email) ∷ (lit "password", J.text secret) ∷ []));
  }

  checked : ℤ → Option AuthSession → Result AuthSession
  checked now none = err (authentication_error (message "Please log in first"))
  checked now (some s) =
      if at_most s.expires_at now
      then err
          (authentication_error (message "Authentication session expired; please log in again"))
      else ok s

  unfoldable pub require_session : (J.Json → Bool) → ℤ → Files → Result AuthSession
  unfolding checked
  require_session empty now f = do s ← load_session empty f; checked now s

  new_session : ℕ → J.Json → Result AuthSession
  new_session now body = do
    access_token ← read J.as_text body (lit "access_token")
    user ← or_throw json_exception (J.at body (lit "user"))
    user_id ← read J.as_text user (lit "id")
    email ← read J.as_text user (lit "email")
    expires_in ← read J.as_long body (lit "expires_in")
    ok (record {
      access_token = access_token;
      user_id = user_id;
      email = email;
      expires_at = later now expires_in;
    })

  -- The answer of the server becomes the active session and the token of the API client.
  unfoldable pub authenticate :
      ℕ → Result J.Json → Files → Result (AuthSession × (Files × Option Text))
  unfolding new_session later
  authenticate now answer f = do
    body ← answer
    s ←
        rethrow
          (λ _.
            server_error 0 (lit "invalid_response")
              (message "Server returned invalid authentication data"))
          (new_session now body)
    ok (s, (save_session s f, some s.access_token))

  -- The files and the token of the API client.
  unfoldable pub logout : (J.Json → Bool) → Files × Option Text → Result (Files × Option Text)
  logout empty (f, token) = do f' ← clear_session empty f; ok (f', none)

  -- A request for a session that returns hands out the stored session, which has not expired: a
  -- session that expires now is refused.
  pub require_session-unexpired :
      (empty : J.Json → Bool) (now : ℤ) (f : Files) (s : AuthSession)
      → require_session empty now f ≡ ok s
      → (load_session empty f ≡ ok (some s)) × (at_most s.expires_at now ≡ false)
  unfolding require_session checked
  require_session-unexpired empty now f s h = split (load_session empty f) h
    where
      split :
          (r : Result (Option AuthSession))
          → (r >>= checked now) ≡ ok s
          → (r ≡ ok (some s)) × (at_most s.expires_at now ≡ false)
      split (ok none) q = absurd (cc q)
      split (err e) q = absurd (cc q)
      split (ok (some z)) q = (ground (arith, q), ground (arith, q))
