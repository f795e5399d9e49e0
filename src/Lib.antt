-- ===== src/Lib.antt =====
-- NOX Vault: the C++ client under client/, a password vault whose server sees ciphertext only.
--
-- The parts and how they interact. `VaultService` (client/src/vault_service.cpp) encrypts and
-- decrypts secrets with `CryptoService` (client/src/crypto_service.cpp), exchanges the records of
-- client/src/models.cpp with the server through `ApiClient` (client/src/api_client.cpp), and is
-- called by the command line with the master password, or by the agent (client/src/agent.cpp) with
-- the vault key that the agent keeps between commands. The command line and the graphical client
-- (client/src/gui/app_controller.cpp) reach the agent through `AgentClient`. `ConfigManager`
-- (client/src/config_manager.cpp) validates the settings, which name the server.
--
-- The files.
--   Common, Errors   lists, texts and Booleans; the exceptions of client/include/nox/errors.hpp as
--                    values, `Result` for code that may throw.
--   Libraries        libsodium, its random generator and nlohmann::json: records of the calls that
--                    the client makes with the documented laws that the proofs use.
--   Models           the structs, base64, names of private secrets (pack_encrypted_name,
--                    unpack_encrypted_name), random_uuid; Models/Wire has parse_vault, parse_secret,
--                    serialize_vault_create and serialize_secret.
--   Crypto           CryptoService: key derivation, encrypt, decrypt, the additional data.
--   Effects          the monad of the vault operations: random generator, server, the requests sent
--                    and the list of live buffers that hold secrets; `hold` and `wipe` stand where
--                    the code fills a buffer and calls CryptoService::wipe.
--   Vault            VaultService: Vault/Password has initialize, unlock_with_password and
--                    rotate_password, Vault/Secrets the operations with a password, Vault/Unlocked
--                    those with a key; Vault/Contents states what they do to the contents, the list
--                    of names and secrets that the records of the server hold.
--   Agent            run_agent: the shared state, a round of the watchdog and the handling of a
--                    request as steps under the mutex; Agent/Channel the loops over the socket and
--                    the frames; Agent/Client the requests of AgentClient and the start of the
--                    agent.
--   Config           ConfigManager: Config/Url has validate_server_url, Config/Sessions the stored
--                    sessions, Config/Settings load, set and unset, and Config/Settings/Showing get,
--                    all on the JSON values of the files; the modules below Config/Settings show
--                    how these compose.
--   ApiClient        the receive callback, the request and how a response is judged.
--   Auth, Backup     AuthManager (client/src/auth_manager.cpp) and BackupService
--                    (client/src/backup_service.cpp) over the documents of the files;
--                    Backup/Documents, Exporting and Restoring follow a backup from its export to
--                    its import.
--   Cli              the commands of client/src/main.cpp on the vault, over VaultService and
--                    AgentClient; Cli/Secrets has those on secrets, Cli/Leaving what they leave.
--                    Cli/Program is one run of the program, Cli/Program/Main its commands in
--                    the order of `main`.
--   Clipboard        client/src/clipboard.cpp over the state of the clipboard.
--   Gui              Gui/Generator has client/src/gui/password_generator.cpp, Gui/Secrets the list of
--                    client/src/gui/secrets_model.cpp, Gui/Controller the state of AppController
--                    (client/src/gui/app_controller.cpp), whose slots, timers and finished operations
--                    are events; Gui/Answers the maps that operations hand over; Gui/Operations
--                    the operations of the start, of the agent, of locking and logging out.
--   Examples         concrete libraries and the theorems at concrete inputs.
--
-- Fuel. `write_all` and `read_all` take the number of bytes left as fuel: each round that goes on
-- moves at least one byte, so that fuel never ends the loop before the source does.
--
-- `poll` takes the number of rounds of the loop in `ensure_running`. `to_string` writes at most 19
-- digits, which are enough for a `long` of 64 bits.
--
-- Not modelled: the server (Python), the views of the Qt interface and what its operations other than
-- the start, the commands of the agent, locking and logging out do on other threads, the parsing of
-- the command line and its shell, terminal input, the creation of sockets, processes and files, and
-- the branches for Windows except the clipboard; most of them are glue around calls of other
-- libraries or of the operating system. libsodium, libcurl,
-- nlohmann::json and the comparisons and sorts of Qt are parameters.
pub mod Common
pub mod Errors
pub mod Libraries
pub mod Models
pub mod Crypto
pub mod Effects
pub mod Vault
pub mod Agent
pub mod Config
pub mod ApiClient
pub mod Auth
pub mod Backup
pub mod Cli
pub mod Clipboard
pub mod Gui
pub mod Examples
