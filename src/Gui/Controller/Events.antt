-- ===== src/Gui/Controller/Events.antt =====
-- The events of the interface: what the user does, the timers, the ends of the operations on other
-- threads, and the destructor. Every event is one step on the thread of the interface.
pub mod Careful
pub mod Safety
pub mod Ordering
pub mod Generations
pub mod Ticking
pub mod Superseding
use nox_vault.Agent.{what}
use nox_vault.Common.{
  not, lit, Bool, eq_text, ◌&&◌, List, ◌∷◌, true, false, [], if◌then◌else◌, Text, ◌||◌, message,
}
use nox_vault.Gui.Controller.{
  Job, Controller, Desktop, starting, authenticating, initializing, unlocking, leaving, switching,
  adding, updating, deleting, revealing, copying, exporting, importing, changing, diagnosing,
  saving, set_error, set_notice, hide_sensitive, dispatch, start, clear_sensitive, keep_copy,
  empty_list, lock,
}
use nox_vault.Gui.Controller.Jobs.{refresh_secrets, finished}
use nox_vault.Gui.Controller.Sync.{check_health, health_checked, sync_shared_state, synced}
use nox_vault.Gui.Answers.{Account, Answer}
use nox_vault.Gui.Secrets.{Qt}
use nox_vault.Clipboard.{Calls, clear_clipboard_if_matches}
use nox_vault.Errors.{Error, Result, ok, err, json_exception, std_exception}

pub data Event : Type 0 where
  start_up retry : Event
  sign_in : Text → Text → Bool → Event
  initialize_vault : Text → Text → Bool → Event
  unlock_vault : Text → Event
  lock_vault log_out : Event
  add_account cancel_add_account : Event
  switch_account : Text → Event
  refresh : Event
  add_secret update_secret : Text → Text → Event
  delete_secret reveal_secret copy_secret : Text → Event
  generate : Result Text → Event
  copy_generated : Event
  export_backup import_backup : Text → Text → Event
  change_password : Text → Text → Text → Event
  run_diagnostics save_settings : Event
  -- a supported language that is not the current one, and how storing it ends
  set_language : Text → Result (Unit {0}) → Event
  set_page select : Text → Event
  clear_message hide : Event
  reveal_timeout clipboard_timeout health_tick sync_tick health_now : Event
  health_done : Bool → Event
  sync_done job_done : Answer → Event
  shut_down : Event

abbrev pub supported : List Text
supported = lit "en" ∷ lit "ru" ∷ lit "pl" ∷ lit "de" ∷ lit "cs" ∷ []

abbrev pub among_texts : Text → List Text → Bool
among_texts t [] = false
among_texts t (u ∷ us) = eq_text u t || among_texts t us

abbrev pub text_of_error : Error → Text
text_of_error e = what [] e

-- `catch (const NoxError &)`: the exceptions of the libraries leave the slot.
stored : Text → Result (Unit {0}) → Controller → Controller
stored language (ok u) c = record c { language = language }
stored language (err json_exception) c = record c { crashed = true }
stored language (err std_exception) c = record c { crashed = true }
stored language (err e) c = set_error (text_of_error e) c

generated_password : Result Text → Controller → Controller
generated_password (ok t) c = record c { generated = t; error = [] }
generated_password (err json_exception) c = record c { crashed = true }
generated_password (err std_exception) c = record c { crashed = true }
generated_password (err e) c = set_error (text_of_error e) c

unfoldable pub set_current_page : Text → Controller → Controller
set_current_page page c =
    if eq_text c.page page then c else record (hide_sensitive c) { generated = []; page = page }

unfoldable pub select_secret : Text → Controller → Controller
select_secret name c =
    if eq_text c.selected name then c else record (hide_sensitive c) { selected = name }

module _ ⦃Q : Qt⦄ ⦃D : Desktop⦄ where
  -- clearSensitiveState(); model_.clear(); selected_.clear();
  abbrev pub forget : Calls → Controller → Controller
  forget k c = empty_list (clear_sensitive k c)

  clipboard_expired : Calls → Controller → Controller
  clipboard_expired k c = set_notice (message "Clipboard cleared") (record c {
    board = (clear_clipboard_if_matches D.platform D.convert k c.copied c.board).1;
    copied = [];
    clipboard_timer = false;
  })

  destroy : Calls → Controller → Controller
  destroy k c = clear_sensitive k (record c {
    shutting_down = true;
    health_timer = false;
    sync_timer = false;
    reveal_timer = false;
    clipboard_timer = false;
  })

  -- The event handlers. A timer that does not run does not fire, and an answer comes only from an
  -- operation that runs. Of the text that stands for running diagnostics only the first words are
  -- kept.
  unfoldable pub handle_event : Calls → Result (List Account) → Event → Controller → Controller
  unfolding stored generated_password clipboard_expired destroy
  handle_event k reread start_up c = start c
  handle_event k reread retry c = dispatch starting c
  handle_event k reread (sign_in email password registration) c =
      dispatch (authenticating email password registration) c
  handle_event k reread (initialize_vault password confirmation private_metadata) c =
      if eq_text password confirmation
      then dispatch (initializing password private_metadata) c
      else set_error (message "Master passwords do not match.") c
  handle_event k reread (unlock_vault password) c = dispatch (unlocking password) c
  handle_event k reread lock_vault c = lock k c
  handle_event k reread log_out c = dispatch leaving (forget k c)
  handle_event k reread add_account c = record (forget k c) {
    adding_account = true;
    screen = lit "login";
  }
  handle_event k reread cancel_add_account c =
      if c.adding_account then start (record c { adding_account = false }) else c
  handle_event k reread (switch_account id) c =
      if eq_text id c.user_id then c else dispatch (switching id) (forget k c)
  handle_event k reread refresh c = refresh_secrets c
  handle_event k reread (add_secret name value) c = dispatch (adding name value) c
  handle_event k reread (update_secret name value) c = dispatch (updating name value) c
  handle_event k reread (delete_secret name) c = dispatch (deleting name) c
  handle_event k reread (reveal_secret name) c = dispatch (revealing name) (hide_sensitive c)
  handle_event k reread (copy_secret name) c = dispatch (copying name) c
  handle_event k reread (generate r) c = generated_password r c
  handle_event k reread copy_generated c =
      if eq_text c.generated []
      then set_error (message "Generate a value first.") c
      else keep_copy k c.generated
          (message "Generated value copied. Clipboard will clear automatically.") c
  handle_event k reread (export_backup path password) c = dispatch (exporting path password) c
  handle_event k reread (import_backup path password) c = dispatch (importing path password) c
  handle_event k reread (change_password current next confirmation) c =
      if eq_text next confirmation
      then dispatch (changing current next) c
      else set_error (message "New master passwords do not match.") c
  handle_event k reread run_diagnostics c =
      dispatch diagnosing (record c { diagnostics = message "Running diagnostics" })
  handle_event k reread save_settings c = dispatch saving c
  handle_event k reread (set_language language r) c =
      if not (among_texts language supported) || eq_text c.language language
      then c
      else stored language r c
  handle_event k reread (set_page page) c = set_current_page page c
  handle_event k reread (select name) c = select_secret name c
  handle_event k reread clear_message c = record c { error = []; notice = [] }
  handle_event k reread hide c = hide_sensitive c
  handle_event k reread reveal_timeout c = if c.reveal_timer then hide_sensitive c else c
  handle_event k reread clipboard_timeout c = if c.clipboard_timer then clipboard_expired k c else c
  handle_event k reread health_tick c =
      if c.health_timer && not c.busy && eq_text c.screen (lit "app") then check_health c else c
  handle_event k reread sync_tick c = if c.sync_timer then sync_shared_state c else c
  handle_event k reread health_now c = check_health c
  handle_event k reread (health_done healthy) c =
      if c.health_running then health_checked healthy c else c
  handle_event k reread (sync_done r) c = if c.sync_running then synced k r c else c
  handle_event k reread (job_done r) c = if c.busy then finished k reread r c else c
  handle_event k reread shut_down c = destroy k c

  -- Nothing happens in a program that has ended.
  unfoldable pub step : Calls → Result (List Account) → Event → Controller → Controller
  step k reread e c = if c.crashed then c else handle_event k reread e c

  -- An event with what the calls of the system give in it.
  pub record Occurrence : Type 0 where
    pub event : Event
    pub calls : Calls
    pub reread : Result (List Account)

  unfoldable pub run_events : List Occurrence → Controller → Controller
  run_events [] c = c
  run_events (o ∷ os) c = run_events os (step o.calls o.reread o.event c)
