-- ===== src/Cli/Program.antt =====
-- `main` of client/src/main.cpp with the arguments parsed: one run of the program. The state holds
-- the JSON values of the files of the configuration, the token of the API client, what the commands
-- run on, and the backup that was written. The result is the lines that are printed. CLI11, the
-- prompts, `agent --serve` and the shell are not modelled here.
pub mod Main
pub mod Keeping
pub mod Kept
pub mod Configured
pub mod Refusing
pub mod LoggedOut
use nox_vault.Backup.{import_file, export_file}
use nox_vault.Cli.Status.{print_agent_status}
use nox_vault.Config.Settings.{unset, load, ClientConfig, has_server_override, effective_server_url}
use nox_vault.Agent.Client.{request}
use nox_vault.Models.{AuthSession}
use nox_vault.ApiClient.{strip_slashes, health}
use nox_vault.Config.Sessions.{load_session, Files}
use nox_vault.Agent.Channel.{Socket}
use nox_vault.Effects.{password, send, api_get, World, Api}
use nox_vault.Libraries.Json.{JsonLib}
use nox_vault.Libraries.Sodium.{Random, Sodium}
use nox_vault.Errors.{nox_error, Result, ok, err}
use nox_vault.Common.{
  pos, is_some, not, ◌&&◌, eq_text, none, if◌then◌else◌, some, ℕ, message, Option, List, Bool, [],
  true, ◌++◌, Text, false, ◌∷◌, lit,
}
use nox_vault.Cli.{
  passwd_command, unlock_command, init_command, drop_secret, hold_secret, read_line, on_vault,
  op_query, on_agent, there, Cli, Terminal,
}
use nox_vault.Cli.Secrets.{secret_command, Account, Command}
use nox_vault.Auth.{require_session, logout, auth_request, authenticate}

pub data Action : Type 0 where
  config_get config_unset : Text → Action
  config_set : Text → Text → Action
  locking logging_out diagnosing reporting unlocking changing exporting : Action
  -- the e-mail address, which may be empty, and whether the account is new
  logging_in : Text → Bool → Action
  -- --private-metadata
  initializing : Bool → Action
  -- --replace and --yes
  importing : Bool → Bool → Action
  on_secrets : Command → Action

module _ ⦃S : Sodium⦄ ⦃J : JsonLib⦄ ⦃R : Random⦄ ⦃A : Api⦄ ⦃C : Socket⦄ where
  pub record Desk : Type 0 where
    pub terminal : Terminal
    pub settings : J.Json
    pub files : Files
    pub token : Option Text
    -- the size and the document of the file that `import` names, and what `export` wrote
    pub size : Option ℕ
    pub document : Option J.Json
    pub written : Option J.Json

  abbrev pub Program : Type 0 → Type 0
  Program X = Desk → Result X × Desk

  abbrev pub then_go : {X Y : Type 0} → (X → Program Y) → Result X × Desk → Result Y × Desk
  then_go f (ok x, d) = f x d
  then_go f (err e, d) = (err e, d)

  infixl 5 ◌>>=◌ ◌>>◌
  abbrev pub ◌>>=◌ : {X Y : Type 0} → Program X → (X → Program Y) → Program Y
  ◌>>=◌ m f d = then_go f (m d)

  abbrev pub ◌>>◌ : {Y : Type 0} → Program (Unit {0}) → Program Y → Program Y
  m >> k = m >>= λ _. k

  abbrev pub done : {X : Type 0} → X → Program X
  done x d = (ok x, d)

  -- A part of the program that reads the configuration.
  abbrev pub reading : {X : Type 0} → (Desk → Result X) → Program X
  reading f d = (f d, d)

  abbrev in_terminal : {X : Type 0} → Desk → Result X × Terminal → Result X × Desk
  in_terminal d (r, t) = (r, record d { terminal = t })

  abbrev pub on_terminal : {X : Type 0} → Cli X → Program X
  on_terminal m d = in_terminal d (m d.terminal)

  -- The configuration as `set` and `unset` store it.
  abbrev pub storing : Desk → Result J.Json → Result (Unit {0}) × Desk
  storing d (ok j) = (ok tt, record d { settings = j })
  storing d (err e) = (err e, d)

  abbrev pub filing : {X : Type 0} → Desk → Result (X × (Files × Option Text)) → Result X × Desk
  filing d (ok (x, (f, t))) = (ok x, record d { files = f; token = t })
  filing d (err e) = (err e, d)

  abbrev pub print_line : Text → Program (List Text)
  print_line t = done (t ∷ [])

  unfoldable pub compatible_after : Result J.Json × World → Result (Unit {0}) × World
  compatible_after (r, w) = (health r, w)

  -- api.check_compatibility()
  unfoldable pub check_server : Cli (Unit {0})
  unfolding compatible_after
  check_server = on_vault (λ w. compatible_after (api_get (lit "/health") w))

  unfoldable pub token_of : Option AuthSession → Option Text
  token_of none = none
  token_of (some s) = some s.access_token

  unfoldable pub attached : Desk → Result (Option AuthSession) → Result (Unit {0}) × Desk
  unfolding token_of
  attached d (ok s) = (ok tt, record d { token = token_of s })
  attached d (err e) = (err e, d)

  unfoldable pub answered : ℕ → Desk → Result J.Json × World → Result AuthSession × Desk
  answered now d (r, w) =
      filing (record d { terminal = record d.terminal { world = w } }) (authenticate now r d.files)

  -- auth.authenticate(email, password, reg->parsed())
  unfoldable pub authenticating : ℕ → Text → Text → Bool → Program AuthSession
  unfolding answered
  authenticating now email secret registration d =
      answered now d (send (auth_request email secret registration) d.terminal.world)

  unfoldable pub lock_running : Bool → Program (Unit {0})
  lock_running true = do r ← on_terminal (on_agent (request (op_query (lit "lock")))); done tt
  lock_running false = done tt

  -- if (agent.available()) (void)agent.request({{"op", "lock"}})
  unfoldable pub lock_agent : Program (Unit {0})
  unfolding lock_running
  lock_agent = do running ← on_terminal there; lock_running running

  unfoldable pub email_or : Text → Program Text
  email_or email = if eq_text email [] then on_terminal read_line else done email

  unfoldable pub login_text : Bool → AuthSession → Text
  login_text registration s =
      (if registration then message "Account created" else message "Logged in")
      ++ message " as "
      ++ s.email
      ++ message "."

  unfoldable pub logging : ℕ → Bool → Text → Text → Program (List Text)
  unfolding authenticating lock_agent
  logging now registration email secret = do
    on_terminal (hold_secret password)
    s ← authenticating now email secret registration
    on_terminal (drop_secret password)
    lock_agent
    print_line (login_text registration s)

  unfoldable pub login_command : ℕ → Text → Bool → Program (List Text)
  unfolding email_or logging
  login_command now email registration = do
    address ← email_or email
    secret ← on_terminal read_line
    logging now registration address secret
