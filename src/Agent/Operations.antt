-- ===== src/Agent/Operations.antt =====
-- The operations of client/src/agent.cpp on an unlocked vault, and the replies that they return.
use nox_vault.Errors.{nox_error}
use nox_vault.Models.Wire.{read}
use nox_vault.Vault.Unlocked.{
  update_unlocked, remove_unlocked, get_unlocked, add_unlocked, list_unlocked,
}
use nox_vault.Libraries.Json.{JsonLib}
use nox_vault.Libraries.Sodium.{Random, Sodium}
use nox_vault.Common.{message, map, lit, eq_text, List, Bytes, Text, [], if◌then◌else◌, ◌∷◌}
use nox_vault.Agent.Connection.{connection}
use nox_vault.Effects.{Api, Eff, lift, throw, pure, ◌>>=◌, ◌>>◌}

module _ ⦃S : Sodium⦄ ⦃J : JsonLib⦄ ⦃R : Random⦄ ⦃A : Api⦄ where
  list_operation : Bytes → Eff (List (Text × J.Json))
  list_operation key = do
    names ← list_unlocked key
    pure ((lit "names", J.array (map J.text names)) ∷ [])

  get_operation : J.Json → Bytes → Eff (List (Text × J.Json))
  get_operation q key = do
    name ← lift (read J.as_text q (lit "name"))
    value ← get_unlocked name key
    pure ((lit "value", J.text value) ∷ [])

  add_operation : J.Json → Bytes → Eff (List (Text × J.Json))
  add_operation q key = do
    value ← lift (read J.as_text q (lit "value"))
    name ← lift (read J.as_text q (lit "name"))
    add_unlocked name value key
    pure []

  update_operation : J.Json → Bytes → Eff (List (Text × J.Json))
  update_operation q key = do
    value ← lift (read J.as_text q (lit "value"))
    name ← lift (read J.as_text q (lit "name"))
    update_unlocked name value key
    pure []

  remove_operation : J.Json → Bytes → Eff (List (Text × J.Json))
  remove_operation q key = do
    name ← lift (read J.as_text q (lit "name"))
    remove_unlocked name key
    pure []

  unfoldable pub run_operation : Text → J.Json → Bytes → Eff (List (Text × J.Json))
  unfolding list_operation get_operation add_operation update_operation remove_operation
  run_operation op q key = do
    lift (connection q)
    if eq_text op (lit "list")
        then list_operation key
        else if eq_text op (lit "get")
        then get_operation q key
        else if eq_text op (lit "add")
        then add_operation q key
        else if eq_text op (lit "update")
        then update_operation q key
        else if eq_text op (lit "remove")
        then remove_operation q key
        else throw (nox_error (message "Unknown local agent operation"))
