-- ===== src/Examples/Sessions.antt =====
-- The theorems on sessions at concrete inputs.
use nox_vault.Config.Sessions.Switching.{load_session-activate_session}
use nox_vault.Errors.{◌>>=◌}
use nox_vault.Config.Sessions.{save_session, session_fields, load_session, activate_session, Files}
use nox_vault.Errors.{ok}
use nox_vault.Common.{arith, lit, [], ◌≡◌, some, pos, false, refl}
use nox_vault.Models.{AuthSession}
use nox_vault.Examples.Toys.{jnull, toy_object, toy_json}

abbrev alice : AuthSession
alice = record {
  access_token = lit "t1";
  user_id = lit "u1";
  email = lit "a@b";
  expires_at = pos 10;
}

abbrev bob : AuthSession
bob = record { access_token = lit "t2"; user_id = lit "u2"; email = lit "c@d"; expires_at = pos 20 }

abbrev pub no_files : Files
no_files = record { session = toy_object []; accounts = jnull }

switching_example :
    (activate_session (lit "u1") (save_session bob (save_session alice no_files))
      >>= load_session (λ j. false))
    ≡ ok (some alice)
switching_example =
    load_session-activate_session (λ j. false) (lit "t1") (lit "u1") (lit "a@b") 10 bob no_files
      (omega arith) refl (λ s. refl)

abbrev pub logged_in : Files
logged_in = record { session = toy_object (session_fields alice); accounts = jnull }
