-- ===== src/Gui/Controller/Events/Ticking.antt =====
-- An event while a synchronisation runs: the generation of the state moves by one at most.
use nox_vault.Gui.Controller.Events.Generations.{
  finished-Ticks, keep_copy-Ticks, calm, dispatch-Ticks, either-Ticks, Since, is_other,
}
use nox_vault.Gui.Controller.Events.{
  handle_event, Occurrence, step, Event, select_secret, set_current_page, start_up, retry, sign_in,
  initialize_vault, unlock_vault, lock_vault, log_out, add_account, cancel_add_account,
  switch_account, refresh, add_secret, update_secret, delete_secret, reveal_secret, copy_secret,
  generate, copy_generated, export_backup, import_backup, change_password, run_diagnostics,
  save_settings, set_language, set_page, select, clear_message, hide, reveal_timeout,
  clipboard_timeout, health_tick, sync_tick, health_now, health_done, sync_done, job_done,
  shut_down, among_texts, supported,
}
use nox_vault.Gui.Answers.{Account, Answer}
use nox_vault.Clipboard.{Calls}
use nox_vault.Gui.Controller.Jobs.{refresh_secrets}
use nox_vault.Gui.Controller.Sync.{sync_shared_state, health_checked, check_health, synced}
use nox_vault.Gui.Secrets.{Qt}
use nox_vault.Errors.{Result}
use nox_vault.Common.{
  sym, subst, ap, ◌≢◌, not, ◌+◌, ◌^◌, ◌%◌, ◌&&◌, lit, if◌then◌else◌, eq_text, true, ◌||◌, List,
  refl, [], false, ◌≡◌, arith,
}
use nox_vault.Gui.Controller.{
  set_error, set_notice, empty_list, clear_sensitive, lock, Desktop, start, hide_sensitive, Job,
  Controller, dispatch,
}

module _ ⦃Q : Qt⦄ ⦃D : Desktop⦄ where
  check_health-Ticks : (c : Controller) → Since c (check_health c)
  unfolding check_health
  check_health-Ticks c =
      either-Ticks (c.health_running || c.shutting_down) c _ (calm c c refl refl refl)
        (calm c _ refl refl refl)

  handle_event-Ticks :
      (k : Calls) (reread : Result (List Account)) (e : Event) (c : Controller)
      → c.sync_running ≡ true
      → is_other e ≡ true
      → Since c (handle_event k reread e c)
  unfolding handle_event hide_sensitive set_error set_notice refresh_secrets check_health
      health_checked sync_shared_state set_current_page select_secret clear_sensitive start lock
      empty_list is_other
  handle_event-Ticks k reread start_up c h o = dispatch-Ticks _ _
  handle_event-Ticks k reread retry c h o = dispatch-Ticks _ _
  handle_event-Ticks k reread (sign_in a b d) c h o = dispatch-Ticks _ _
  handle_event-Ticks k reread (initialize_vault a b d) c h o =
      either-Ticks (eq_text a b) _ _ (dispatch-Ticks _ _) (calm c _ refl refl refl)
  handle_event-Ticks k reread (unlock_vault a) c h o = dispatch-Ticks _ _
  handle_event-Ticks k reread lock_vault c h o = dispatch-Ticks _ _
  handle_event-Ticks k reread log_out c h o = dispatch-Ticks _ _
  handle_event-Ticks k reread add_account c h o = calm c _ refl refl refl
  handle_event-Ticks k reread cancel_add_account c h o =
      either-Ticks c.adding_account _ c (dispatch-Ticks _ _) (calm c c refl refl refl)
  handle_event-Ticks k reread (switch_account a) c h o =
      either-Ticks (eq_text a c.user_id) c _ (calm c c refl refl refl) (dispatch-Ticks _ _)
  handle_event-Ticks k reread refresh c h o = dispatch-Ticks _ _
  handle_event-Ticks k reread (add_secret a b) c h o = dispatch-Ticks _ _
  handle_event-Ticks k reread (update_secret a b) c h o = dispatch-Ticks _ _
  handle_event-Ticks k reread (delete_secret a) c h o = dispatch-Ticks _ _
  handle_event-Ticks k reread (reveal_secret a) c h o = dispatch-Ticks _ _
  handle_event-Ticks k reread (copy_secret a) c h o = dispatch-Ticks _ _
  handle_event-Ticks k reread (generate r) c h o = ground arith
  handle_event-Ticks k reread copy_generated c h o =
      either-Ticks (eq_text c.generated []) _ _ (calm c _ refl refl refl)
        (keep_copy-Ticks k c.generated _ c)
  handle_event-Ticks k reread (export_backup a b) c h o = dispatch-Ticks _ _
  handle_event-Ticks k reread (import_backup a b) c h o = dispatch-Ticks _ _
  handle_event-Ticks k reread (change_password a b d) c h o =
      either-Ticks (eq_text b d) _ _ (dispatch-Ticks _ _) (calm c _ refl refl refl)
  handle_event-Ticks k reread run_diagnostics c h o = dispatch-Ticks _ _
  handle_event-Ticks k reread save_settings c h o = dispatch-Ticks _ _
  handle_event-Ticks k reread (set_language a r) c h o =
      either-Ticks (not (among_texts a supported) || eq_text c.language a) c _
        (calm c c refl refl refl) (ground arith)
  handle_event-Ticks k reread (set_page a) c h o =
      either-Ticks (eq_text c.page a) c _ (calm c c refl refl refl) (calm c _ refl refl refl)
  handle_event-Ticks k reread (select a) c h o =
      either-Ticks (eq_text c.selected a) c _ (calm c c refl refl refl) (calm c _ refl refl refl)
  handle_event-Ticks k reread clear_message c h o = calm c _ refl refl refl
  handle_event-Ticks k reread hide c h o = calm c _ refl refl refl
  handle_event-Ticks k reread reveal_timeout c h o =
      either-Ticks c.reveal_timer _ c (calm c _ refl refl refl) (calm c c refl refl refl)
  handle_event-Ticks k reread clipboard_timeout c h o =
      either-Ticks c.clipboard_timer _ c (calm c _ refl refl refl) (calm c c refl refl refl)
  handle_event-Ticks k reread health_tick c h o =
      either-Ticks (c.health_timer && not c.busy && eq_text c.screen (lit "app")) _ c
        (check_health-Ticks c) (calm c c refl refl refl)
  handle_event-Ticks k reread sync_tick c h o =
      let waits : sync_shared_state c ≡ c =
        ap
          (λ b.
            if b || c.busy || c.shutting_down || c.adding_account
            then c
            else record c { sync_running = true; captured = c.state_generation })
          h in
      either-Ticks c.sync_timer _ c (subst (Since c) (sym waits) (calm c c refl refl refl))
        (calm c c refl refl refl)
  handle_event-Ticks k reread health_now c h o = check_health-Ticks c
  handle_event-Ticks k reread (health_done b) c h o =
      either-Ticks c.health_running _ c
        (either-Ticks c.shutting_down _ _ (calm c _ refl refl refl) (calm c _ refl refl refl))
        (calm c c refl refl refl)
  handle_event-Ticks k reread (sync_done r) c h o = absurd (cc o)
  handle_event-Ticks k reread (job_done r) c h o =
      either-Ticks c.busy _ c (finished-Ticks k reread r c) (calm c c refl refl refl)
  handle_event-Ticks k reread shut_down c h o = calm c _ refl refl refl

  pub step_once :
      (o : Occurrence) (c : Controller)
      → c.sync_running ≡ true
      → is_other o.event ≡ true
      → Since c (step o.calls o.reread o.event c)
  unfolding step
  step_once o c h f =
      either-Ticks c.crashed c _ (calm c c refl refl refl)
        (handle_event-Ticks o.calls o.reread o.event c h f)

  pub begun :
      (j : Job) (c : Controller)
      → c.sync_running ≡ false
      → c.busy ≡ false
      → c.shutting_down ≡ false
      → c.adding_account ≡ false
      → ((dispatch j (sync_shared_state c)).sync_running ≡ true)
        × ((dispatch j (sync_shared_state c)).captured ≡ c.state_generation)
        × ((dispatch j (sync_shared_state c)).state_generation ≡ (c.state_generation + 1) % 2 ^ 64)
  unfolding dispatch sync_shared_state
  begun j c a b d e = ground (arith, a, b, d, e)

  pub late :
      (k : Calls) (r : Answer) (c : Controller)
      → c.captured ≢ c.state_generation
      → synced k r c ≡ record c { sync_running = false }
  unfolding synced
  late k r c n = ground (arith, n)
