-- ===== src/Cli/Status.antt =====
-- `print_agent_status` of client/src/main.cpp; the result is the lines that are printed.
use nox_vault.Models.Wire.{read}
use nox_vault.Agent.Client.{request, status_query}
use nox_vault.Backup.{part}
use nox_vault.Agent.Channel.{Socket}
use nox_vault.Effects.{Api}
use nox_vault.Libraries.Json.{JsonLib}
use nox_vault.Libraries.Sodium.{Random, Sodium}
use nox_vault.Common.{message, Text, List, Bool, ◌∷◌, true, [], ◌++◌, false, lit}
use nox_vault.Cli.{on_agent, give, there, Cli, ◌>>=◌}
use nox_vault.Cli.Secrets.{lifted}

module _ ⦃S : Sodium⦄ ⦃J : JsonLib⦄ ⦃R : Random⦄ ⦃A : Api⦄ ⦃C : Socket⦄ where
  status_text : Bool → J.Json → Cli (List Text)
  status_text false r = give (message "Vault session: locked" ∷ [])
  status_text true r = do
    idle ← lifted (part r (lit "idle_seconds"))
    absolute ← lifted (part r (lit "absolute_seconds"))
    give (
        (message "Vault session: unlocked (idle "
          ++ J.dump idle
          ++ message "s, absolute "
          ++ J.dump absolute
          ++ message "s remaining)")
        ∷ [])

  status_lines : Bool → Cli (List Text)
  unfolding status_text
  status_lines false = give (message "Vault session: locked" ∷ [])
  status_lines true = do
    r ← on_agent (request status_query)
    unlocked ← lifted (read J.as_bool r (lit "unlocked"))
    status_text unlocked r

  unfoldable pub print_agent_status : Cli (List Text)
  unfolding status_lines
  print_agent_status = do running ← there; status_lines running
