-- ===== src/Gui/Controller/Sync.antt =====
-- The two operations of client/src/gui/app_controller.cpp that run beside `dispatch`: the check of the
-- server's health and the synchronisation with the other clients.
use nox_vault.Common.{
  is_some, lookup, not, lit, eq_text, none, true, ◌||◌, Bool, some, [], false, ◌==◌, if◌then◌else◌,
}
use nox_vault.Gui.Controller.{Controller, Desktop, apply_startup, clear_sensitive, empty_list}
use nox_vault.Gui.Answers.{Answer, text_at, flag_at, rows_at, sessions_at}
use nox_vault.Gui.Secrets.{Qt, set_records}
use nox_vault.Clipboard.{Calls}

unfoldable pub check_health : Controller → Controller
check_health c =
    if c.health_running || c.shutting_down then c else record c { health_running = true }

unfoldable pub health_checked : Bool → Controller → Controller
health_checked healthy c =
    if c.shutting_down
    then record c { health_running = false }
    else record c { health_running = false; healthy = healthy }

-- The guards, and what the lambda captures.
unfoldable pub sync_shared_state : Controller → Controller
sync_shared_state c =
    if c.sync_running || c.busy || c.shutting_down || c.adding_account
    then c
    else record c { sync_running = true; captured = c.state_generation }

module _ ⦃Q : Qt⦄ ⦃D : Desktop⦄ where
  -- The branches of the result, in their order.
  signed_out : Calls → Controller → Controller
  signed_out k c = if eq_text c.user_id [] then c else record (empty_list (clear_sensitive k c)) {
    user_id = [];
    email = [];
    revision = [];
    unlocked = false;
    screen = lit "login";
  }

  no_vault : Calls → Controller → Controller
  no_vault k c = record (empty_list (clear_sensitive k c)) {
    revision = [];
    unlocked = false;
    screen = lit "setup";
  }

  found_locked : Calls → Controller → Controller
  found_locked k c =
      let d = if c.unlocked then empty_list (clear_sensitive k c) else c in
      record d { unlocked = false; screen = lit "unlock" }

  found_unlocked : Answer → Controller → Controller
  found_unlocked r c = record c {
    unlocked = true;
    screen = lit "app";
    model = elim (lookup (lit "records") r) [
      | none ↦ c.model
      | some v ↦ set_records (rows_at (lit "records") r) c.model
    ];
    revision = text_at (lit "revision") c.revision r;
  }

  applied : Calls → Answer → Controller → Controller
  unfolding signed_out no_vault found_locked found_unlocked
  applied k r c =
      if not (flag_at (lit "hasSession") r)
      then signed_out k c
      else if flag_at (lit "missingVault") r
      then no_vault k c
      else if flag_at (lit "fullStartup") r
      then apply_startup r c
      else if not (flag_at (lit "unlocked") r)
      then found_locked k (record c { email = text_at (lit "email") [] r })
      else found_unlocked r (record c { email = text_at (lit "email") [] r })

  unfoldable pub synced : Calls → Answer → Controller → Controller
  unfolding applied
  synced k r c =
      if c.shutting_down
        || not (c.captured == c.state_generation)
        || is_some (lookup (lit "error") r)
      then record c { sync_running = false }
      else applied k r (record c {
        sync_running = false;
        accounts = sessions_at (lit "accounts") r;
        language = text_at (lit "language") c.language r;
      })
