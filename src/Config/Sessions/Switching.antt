-- ===== src/Config/Sessions/Switching.antt =====
-- Saving sessions, and switching between accounts.
use nox_vault.Common.{
  ◌∙◌, eq_text_refl, ℕ, eq_text, Bool-cases, ◌^◌, Text, false, Bool, some, ◌≡◌, inr, pos, ◌<◌, [],
  true, inl,
}
use nox_vault.Config.Sessions.{
  Files, read_session, session_fields, accounts_of, load_session, save_session, activate_session,
}
use nox_vault.Models.{AuthSession}
use nox_vault.Libraries.Json.{JsonLib}
use nox_vault.Errors.{ok, ◌>>=◌}

module _ ⦃J : JsonLib⦄ where
  read_session-fields :
      (token user_id email : Text) (n : ℕ)
      → n < 2 ^ 63
      → read_session (
          J.object (
            session_fields (record {
              access_token = token;
              user_id = user_id;
              email = email;
              expires_at = pos n;
            })))
        ≡ ok (record { access_token = token; user_id = user_id; email = email; expires_at = pos n })
  unfolding read_session
  read_session-fields token user_id email n h =
      simp (J.at-object, J.as_text-text, J.as_long-int n h)

  is_object-accounts_of : (f : Files) → J.is_object (accounts_of f) ≡ true
  unfolding accounts_of
  is_object-accounts_of f = elim (Bool-cases (J.is_object f.accounts)) [
    | inl y ↦ rw y y
    | inr n ↦ rw n (J.is_object-object [])
  ]

  is_object-saved : (s : AuthSession) (f : Files) → J.is_object (save_session s f).accounts ≡ true
  unfolding save_session
  is_object-saved s f = J.is_object-put _ _ _ (is_object-accounts_of f)

  at-saved :
      (s : AuthSession) (f : Files)
      → J.at (save_session s f).accounts s.user_id ≡ some (J.object (session_fields s))
  unfolding save_session
  at-saved s f = rw (
    J.at-put _ (J.object (session_fields s)) s.user_id s.user_id (is_object-accounts_of f),
    eq_text_refl s.user_id,
  )

  at-saved_other :
      (s : AuthSession) (f : Files) (id : Text)
      → J.is_object f.accounts ≡ true
      → eq_text s.user_id id ≡ false
      → J.at (save_session s f).accounts id ≡ J.at f.accounts id
  unfolding save_session accounts_of
  at-saved_other s f id o h =
      rw (J.at-put _ (J.object (session_fields s)) s.user_id id (is_object-accounts_of f), h, o)

  -- An account that was saved is there after another user logged in: activating it makes its session
  -- the active one again, with its token, user and expiry. `empty` tells no object with members
  -- empty, and the expiry fits 64 bits.
  pub load_session-activate_session :
      (empty : J.Json → Bool) (token user_id email : Text) (n : ℕ) (other : AuthSession) (f : Files)
      → n < 2 ^ 63
      → eq_text other.user_id user_id ≡ false
      → ((s : AuthSession) → empty (J.object (session_fields s)) ≡ false)
      → (activate_session user_id (
            save_session other (
              save_session
                (record {
                  access_token = token;
                  user_id = user_id;
                  email = email;
                  expires_at = pos n;
                })
                f))
          >>= load_session empty)
        ≡ ok (
            some (record {
              access_token = token;
              user_id = user_id;
              email = email;
              expires_at = pos n;
            }))
  unfolding activate_session load_session
  load_session-activate_session empty token user_id email n other f h d e =
      let s : AuthSession = record {
        access_token = token;
        user_id = user_id;
        email = email;
        expires_at = pos n;
      } in
      let there =
        at-saved_other other (save_session s f) user_id (is_object-saved s f) d ∙ at-saved s f in
      rw (
        is_object-saved other (save_session s f),
        there,
        e s,
        read_session-fields token user_id email n h,
      )
