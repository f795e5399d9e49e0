-- ===== src/Examples/Commands.antt =====
-- The theorems on the commands at concrete inputs.
use nox_vault.Common.{[], lit, ◌∷◌, true, refl}
use nox_vault.Examples.Toys.{toy_sodium, toy_json, toy_random, toy_api}
use nox_vault.Examples.Agent.{toy_socket}
use nox_vault.Examples.Vault.{opened}
use nox_vault.Examples.Client.{host}
use nox_vault.Cli.{Terminal, init_command, unlock_command, passwd_command}
use nox_vault.Cli.Leaving.{IsClean, commands-IsClean}

abbrev typed : Terminal
typed = record { world = opened; host = host []; lines = lit "password" ∷ lit "password" ∷ [] }

commands_example :
    IsClean (init_command (lit "u") true typed)
    × IsClean (unlock_command (lit "u") typed)
    × IsClean (passwd_command (lit "u") typed)
commands_example = commands-IsClean (lit "u") true typed refl
