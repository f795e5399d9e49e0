-- ===== src/Agent/Connection.antt =====
-- The fields of a request from which client/src/agent.cpp builds the client of the server.
use nox_vault.Models.Wire.{member_or, read}
use nox_vault.Common.{lit, pos}
use nox_vault.Libraries.Json.{JsonLib}
use nox_vault.Errors.{Result, ok, ◌>>=◌}

module _ ⦃J : JsonLib⦄ where
  -- The client that the request asks for is built before its operation is looked at.
  unfoldable pub connection : J.Json → Result (Unit {0})
  connection q = do
    url ← read J.as_text q (lit "server_url")
    timeout ← member_or J.as_long (pos 15) (J.at q (lit "timeout"))
    token ← read J.as_text q (lit "token")
    user_id ← read J.as_text q (lit "user_id")
    ok tt
