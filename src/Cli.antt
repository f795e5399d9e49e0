-- ===== src/Cli.antt =====
-- The commands of client/src/main.cpp that work on the vault, for a session that is given: init,
-- unlock, lock, passwd and, in Secrets, the operations on secrets. They run over the services of
-- the other modules; Program has the whole of `main`. Parsing the arguments and the prompts are not
-- modelled. The lines that the user types are in the state; behind the last one a line is empty, as
-- `std::getline` leaves it. A string that is moved into a service stays tracked there.
pub mod Secrets
pub mod Leaving
pub mod Status
pub mod Program
use nox_vault.Agent.Channel.{Socket}
use nox_vault.Libraries.Json.{JsonLib}
use nox_vault.Libraries.Sodium.{Random, Sodium}
use nox_vault.Common.{
  message, eq_text, lit, not, Text, Bool, List, Bytes, ℕ, false, if◌then◌else◌, true, ◌∷◌, [],
}
use nox_vault.Effects.{
  Eff, World, Buffer, Api, password, new_password, confirmation, plaintext, vault_key, erase_buffer,
}
use nox_vault.Agent.Client.{Host, available, request, ensure_running}
use nox_vault.Vault.Password.{initialize, unlock_with_password, rotate_password}
use nox_vault.Models.{base64_encode}
use nox_vault.Errors.{
  Error, Result, ok, err, nox_error, version_conflict, invalid_master_password, or_throw,
  json_exception,
}

module _ ⦃S : Sodium⦄ ⦃J : JsonLib⦄ ⦃R : Random⦄ ⦃A : Api⦄ ⦃C : Socket⦄ where
  pub record Terminal : Type 0 where
    pub world : World
    pub host : Host
    pub lines : List Text

  abbrev pub Cli : Type 0 → Type 0
  Cli X = Terminal → Result X × Terminal

  abbrev pub then_run : {X Y : Type 0} → (X → Cli Y) → Result X × Terminal → Result Y × Terminal
  then_run f (ok x, t) = f x t
  then_run f (err e, t) = (err e, t)

  infixl 5 ◌>>=◌ ◌>>◌
  abbrev pub ◌>>=◌ : {X Y : Type 0} → Cli X → (X → Cli Y) → Cli Y
  ◌>>=◌ m f t = then_run f (m t)

  abbrev pub ◌>>◌ : {Y : Type 0} → Cli (Unit {0}) → Cli Y → Cli Y
  m >> k = m >>= λ _. k

  abbrev pub give : {X : Type 0} → X → Cli X
  give x t = (ok x, t)

  abbrev pub fail : {X : Type 0} → Error → Cli X
  fail e t = (err e, t)

  abbrev in_world : {X : Type 0} → Terminal → Result X × World → Result X × Terminal
  in_world t (r, w) = (r, record t { world = w })

  -- A call of the vault service.
  abbrev pub on_vault : {X : Type 0} → Eff X → Cli X
  on_vault m t = in_world t (m t.world)

  abbrev in_host : {X : Type 0} → Terminal → Result X × Host → Result X × Terminal
  in_host t (r, h) = (r, record t { host = h })

  -- A call of the client of the agent.
  abbrev pub on_agent : {X : Type 0} → (Host → Result X × Host) → Cli X
  on_agent m t = in_host t (m t.host)

  abbrev probing : Bool × Host → Result Bool × Host
  probing (b, h) = (ok b, h)

  abbrev pub there : Cli Bool
  there = on_agent (λ h. probing (available h))

  abbrev take_line : Terminal → List Text → Result Text × Terminal
  take_line t [] = (ok [], t)
  take_line t (l ∷ ls) = (ok l, record t { lines = ls })

  abbrev pub read_line : Cli Text
  read_line t = take_line t t.lines

  -- A line that holds a secret, in a buffer of its own.
  abbrev pub hold_secret : Buffer → Cli (Unit {0})
  hold_secret b t = (ok tt, record t { world = record t.world { live = b ∷ t.world.live } })

  -- CryptoService::wipe, or a move into a service, which holds the buffer again.
  abbrev pub drop_secret : Buffer → Cli (Unit {0})
  drop_secret b t =
      (ok tt, record t { world = record t.world { live = erase_buffer b t.world.live } })

  abbrev pub op_query : Text → J.Json
  op_query op = J.object ((lit "op", J.text op) ∷ [])

  lock_if : Bool → Cli (Unit {0})
  lock_if true = do r ← on_agent (request (op_query (lit "lock"))); give tt
  lock_if false = give tt

  unfoldable pub lock_command : Cli (Unit {0})
  unfolding lock_if
  lock_command = do running ← there; lock_if running

  -- The rest of `init` with both lines read.
  init_lines : Text → Bool → Text → Text → Cli (Unit {0})
  init_lines user_id private_metadata a b =
      if not (eq_text a b)
      then (do
        drop_secret password
        drop_secret confirmation
        fail (nox_error (message "Master passwords do not match")))
      else (do
        drop_secret confirmation
        drop_secret password
        key ← on_vault (initialize user_id a private_metadata)
        drop_secret vault_key)

  init_confirmed : Text → Bool → Text → Text → Cli (Unit {0})
  unfolding init_lines
  init_confirmed user_id private_metadata a b = do
    hold_secret confirmation
    init_lines user_id private_metadata a b

  init_first : Text → Bool → Text → Cli (Unit {0})
  unfolding init_confirmed
  init_first user_id private_metadata a = do
    hold_secret password
    b ← read_line
    init_confirmed user_id private_metadata a b

  unfoldable pub init_command : Text → Bool → Cli (Unit {0})
  unfolding init_first
  init_command user_id private_metadata = do a ← read_line; init_first user_id private_metadata a

  unfoldable pub unlock_query : Bytes → J.Json
  unlock_query key =
      J.object ((lit "op", J.text (lit "unlock")) ∷ (lit "key", J.text (base64_encode key)) ∷ [])

  unlock_line : Text → Text → Cli (Unit {0})
  unfolding unlock_query
  unlock_line user_id secret = do
    key ← on_vault (unlock_with_password user_id secret)
    on_agent ensure_running
    r ← on_agent (request (unlock_query key))
    drop_secret vault_key

  unfoldable pub unlock_command : Text → Cli (Unit {0})
  unfolding unlock_line
  unlock_command user_id = do secret ← read_line; unlock_line user_id secret

  passwd_lines : Text → Text → Text → Text → Cli (Unit {0})
  unfolding lock_if
  passwd_lines user_id old next confirm =
      if not (eq_text next confirm)
      then (do
        drop_secret password
        drop_secret new_password
        drop_secret confirmation
        fail (nox_error (message "New master passwords do not match")))
      else (do
        drop_secret confirmation
        drop_secret new_password
        drop_secret password
        on_vault (rotate_password user_id old next)
        running ← there
        lock_if running)

  passwd_confirmed : Text → Text → Text → Text → Cli (Unit {0})
  unfolding passwd_lines
  passwd_confirmed user_id old next confirm = do
    hold_secret confirmation
    passwd_lines user_id old next confirm

  passwd_next : Text → Text → Text → Cli (Unit {0})
  unfolding passwd_confirmed
  passwd_next user_id old next = do
    hold_secret new_password
    confirm ← read_line
    passwd_confirmed user_id old next confirm

  passwd_old : Text → Text → Cli (Unit {0})
  unfolding passwd_next
  passwd_old user_id old = do hold_secret password; next ← read_line; passwd_next user_id old next

  unfoldable pub passwd_command : Text → Cli (Unit {0})
  unfolding passwd_old
  passwd_command user_id = do old ← read_line; passwd_old user_id old

  -- The handlers of `main`.
  unfoldable pub exit_code : {X : Type 0} → Result X → ℕ
  exit_code (ok x) = 0
  exit_code (err (version_conflict status code m)) = 3
  exit_code (err (invalid_master_password m)) = 2
  exit_code (err e) = 1
