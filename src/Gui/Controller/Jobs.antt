-- ===== src/Gui/Controller/Jobs.antt =====
-- What each operation of client/src/gui/app_controller.cpp does to the interface when it has finished.
use nox_vault.Common.{
  drop, ◌∷◌, lookup, pos, none, List, some, true, [], false, message, lit, if◌then◌else◌,
}
use nox_vault.Gui.Controller.{
  Job, Controller, Desktop, starting, authenticating, initializing, unlocking, locking, leaving,
  switching, refreshing, adding, updating, deleting, revealing, copying, exporting, importing,
  changing, diagnosing, saving, set_notice, hide_sensitive, dispatch, start, clear_sensitive,
  keep_copy, apply_startup, lock, expire,
}
use nox_vault.Gui.Answers.{Account, Answer, text_at, flag_at, number_at, rows_at}
use nox_vault.Gui.Secrets.{Qt, set_records}
use nox_vault.Clipboard.{Calls}
use nox_vault.Errors.{Result, ok, err}

module _ ⦃Q : Qt⦄ ⦃D : Desktop⦄ where
  unfoldable pub refresh_secrets : Controller → Controller
  refresh_secrets c = dispatch refreshing c

  initialized : Answer → Controller → Controller
  initialized r c =
      let unlocked = flag_at (lit "unlocked") r in
      let d = record c {
        unlocked = unlocked;
        screen = if unlocked then lit "app" else lit "unlock";
        page = lit "secrets";
      } in
      let e =
        if flag_at (lit "vaultExists") r
        then set_notice (message "Vault already exists. Unlock it with its master password.") d
        else set_notice
            (if unlocked
              then message "Encrypted vault created and unlocked"
              else message "Encrypted vault created")
            d in
      if unlocked then refresh_secrets e else e

  unlocked_vault : Answer → Controller → Controller
  unlocked_vault r c =
      if flag_at (lit "vaultMissing") r
      then set_notice (message "Create a master password for this new vault.")
          (record c { unlocked = false; screen = lit "setup" })
      else refresh_secrets (record c { unlocked = true; screen = lit "app"; page = lit "secrets" })

  -- The settings are read again, which may throw.
  left : Result (List Account) → Controller → Controller
  left (ok accounts) c = record c {
    unlocked = false;
    email = [];
    user_id = [];
    revision = [];
    screen = lit "login";
    accounts = accounts;
  }
  left (err e) c = record c {
    unlocked = false;
    email = [];
    user_id = [];
    revision = [];
    screen = lit "login";
    crashed = true;
  }

  saved : Answer → Controller → Controller
  saved r c = set_notice (message "Settings saved") (record c {
    server_url = text_at (lit "serverUrl") [] r;
    request_timeout = number_at (lit "requestTimeout") (pos 0) r;
    auto_lock_timeout = number_at (lit "autoLockTimeout") (pos 0) r;
    clipboard_timeout = number_at (lit "clipboardTimeout") (pos 0) r;
    start_locked = flag_at (lit "startLocked") r;
    language = text_at (lit "language") (lit "en") r;
  })

  -- The completions, one for each place that dispatches.
  unfoldable pub complete : Calls → Result (List Account) → Job → Answer → Controller → Controller
  unfolding initialized unlocked_vault left saved
  complete k reread starting r c = apply_startup r c
  complete k reread (authenticating email password registration) r c =
      start (record c { adding_account = false })
  complete k reread (initializing password private_metadata) r c = initialized r c
  complete k reread (unlocking password) r c = unlocked_vault r c
  complete k reread locking r c = record c { unlocked = false; screen = lit "unlock" }
  complete k reread leaving r c = left reread c
  complete k reread (switching id) r c = apply_startup r (record c { adding_account = false })
  complete k reread refreshing r c = record c {
    model = set_records (rows_at (lit "records") r) c.model;
  }
  complete k reread (adding name value) r c =
      refresh_secrets (set_notice (message "Secret added") c)
  complete k reread (updating name value) r c =
      refresh_secrets (set_notice (message "Secret updated") (hide_sensitive c))
  complete k reread (deleting name) r c =
      refresh_secrets
        (set_notice (message "Secret deleted") (record (hide_sensitive c) { selected = [] }))
  complete k reread (revealing name) r c = record c {
    revealed = text_at (lit "value") [] r;
    reveal_timer = true;
  }
  complete k reread (copying name) r c =
      keep_copy k (text_at (lit "value") [] r)
        (message "Secret copied. Clipboard will clear automatically.") c
  complete k reread (exporting path password) r c =
      set_notice (message "Encrypted backup exported") c
  complete k reread (importing path password) r c =
      set_notice (message "Backup restored. Unlock the restored vault.") (lock k c)
  complete k reread (changing current next) r c =
      set_notice (message "Master password changed")
        (record (clear_sensitive k c) { unlocked = false; screen = lit "unlock" })
  complete k reread diagnosing r c = record c {
    diagnostics = text_at (lit "diagnostics") [] r;
    healthy = true;
  }
  complete k reread saving r c = saved r c

  unfoldable pub answered :
      Calls → Result (List Account) → List Job → Answer → Controller → Controller
  answered k reread [] r c = c
  answered k reread (job ∷ jobs) r c = elim (lookup (lit "error") r) [
    | some v ↦ record c { error = text_at (lit "error") [] r }
    | none ↦ complete k reread job r c
  ]

  -- The end of `dispatch`, on the thread of the interface.
  unfoldable pub finished : Calls → Result (List Account) → Answer → Controller → Controller
  unfolding answered
  finished k reread r c =
      if c.shutting_down
      then c
      else answered k reread c.pending r (
          if flag_at (lit "sessionExpired") r
          then expire k (record c { busy = false; pending = drop 1 c.pending })
          else record c { busy = false; pending = drop 1 c.pending })
