-- ===== src/Gui/Controller/Events/Safety.antt =====
-- What the interface keeps of a secret, after any sequence of events.
use nox_vault.Gui.Controller.Events.Careful.{
  keep_copy-IsCareful, hide-IsCareful, dispatch-IsCareful, expire-IsCareful, lock-IsCareful,
  at_most_one, length-drop_one, start-IsCareful, complete-IsCareful, clear-IsCareful, fits, all_fit,
  event_fits, IsCareful,
}
use nox_vault.Gui.Controller.Events.{
  handle_event, run_events, Occurrence, step, Event, select_secret, set_current_page, forget,
  start_up, lock_vault, log_out, add_account, cancel_add_account, switch_account, reveal_secret,
  copy_generated, sync_done, job_done,
}
use nox_vault.Gui.Answers.{number_at, text_at, Variant, flag_at, Account, Answer}
use nox_vault.Clipboard.{Board, Calls}
use nox_vault.Gui.Controller.Jobs.{answered, finished, refresh_secrets, complete}
use nox_vault.Gui.Controller.Sync.{sync_shared_state, health_checked, check_health, synced}
use nox_vault.Gui.Secrets.{Qt}
use nox_vault.Errors.{Result}
use nox_vault.Common.{
  and_true, drop, pos, message, lookup, lit, Option, none, Bool, some, ◌∷◌, if◌then◌else◌, eq_text,
  true, List, refl, [], false, ◌≡◌, arith,
}
use nox_vault.Gui.Controller.{
  fresh_controller, set_error, leaving, set_notice, empty_list, apply_startup, clear_sensitive,
  Desktop, start, hide_sensitive, Job, Controller, dispatch,
}

module _ ⦃Q : Qt⦄ ⦃D : Desktop⦄ where
  synced-IsCareful :
      (k : Calls) (r : Answer) (c : Controller)
      → fits (number_at (lit "clipboardTimeout") (pos 30) r) ≡ true
      → IsCareful c
      → IsCareful (synced k r c)
  unfolding synced clear_sensitive hide_sensitive empty_list apply_startup
  synced-IsCareful k r c f v = ground (arith, f, v.hidden, v.cleared, v.one_job, v.ranged)

  forget-IsCareful : (k : Calls) (c : Controller) → IsCareful c → IsCareful (forget k c)
  unfolding empty_list
  forget-IsCareful k c v =
      let w = clear-IsCareful k c v in
      record { hidden = w.hidden; cleared = w.cleared; one_job = w.one_job; ranged = w.ranged }

  answered-IsCareful :
      (k : Calls) (reread : Result (List Account)) (l : List Job) (r : Answer) (c : Controller)
      → fits (number_at (lit "clipboardTimeout") (pos 30) r) ≡ true
      → IsCareful c
      → IsCareful (answered k reread l r c)
  unfolding answered
  answered-IsCareful k reread [] r c f v = v
  answered-IsCareful k reread (j ∷ l) r c f v = reported (lookup (lit "error") r)
    where
      reported :
          (o : Option Variant)
          → IsCareful (elim o [
            | some x ↦ record c { error = text_at (lit "error") [] r }
            | none ↦ complete k reread j r c
          ])
      reported (some x) = record {
        hidden = v.hidden;
        cleared = v.cleared;
        one_job = v.one_job;
        ranged = v.ranged;
      }
      reported none = complete-IsCareful k reread j r c f v

  either-IsCareful :
      (b : Bool) (c d : Controller) → IsCareful c → IsCareful d → IsCareful (if b then c else d)
  either-IsCareful true c d v w = v
  either-IsCareful false c d v w = w

  finished-IsCareful :
      (k : Calls) (reread : Result (List Account)) (r : Answer) (c : Controller)
      → fits (number_at (lit "clipboardTimeout") (pos 30) r) ≡ true
      → IsCareful c
      → IsCareful (finished k reread r c)
  unfolding finished
  finished-IsCareful k reread r c f v =
      let idle : IsCareful (record c { busy = false; pending = drop 1 c.pending }) = record {
        hidden = v.hidden;
        cleared = v.cleared;
        one_job = length-drop_one c.pending (at_most_one c.busy c.pending v.one_job);
        ranged = v.ranged;
      } in
      either-IsCareful c.shutting_down c _ v (
        answered-IsCareful k reread c.pending r _ f (
          either-IsCareful (flag_at (lit "sessionExpired") r) _ _ (expire-IsCareful k _ idle) idle))

  handle_event-IsCareful :
      (k : Calls) (reread : Result (List Account)) (e : Event) (c : Controller)
      → event_fits e ≡ true
      → IsCareful c
      → IsCareful (handle_event k reread e c)
  unfolding handle_event dispatch hide_sensitive set_error set_notice refresh_secrets check_health
      event_fits health_checked sync_shared_state set_current_page select_secret clear_sensitive
      start
  handle_event-IsCareful k reread start_up c f v = start-IsCareful c v
  handle_event-IsCareful k reread lock_vault c f v = lock-IsCareful k c v
  handle_event-IsCareful k reread log_out c f v =
      dispatch-IsCareful leaving _ (forget-IsCareful k c v)
  handle_event-IsCareful k reread add_account c f v =
      let w = forget-IsCareful k c v in
      record { hidden = w.hidden; cleared = w.cleared; one_job = w.one_job; ranged = w.ranged }
  handle_event-IsCareful k reread cancel_add_account c f v =
      either-IsCareful c.adding_account _ c
        (start-IsCareful (record c { adding_account = false })
          (record {
            hidden = v.hidden;
            cleared = v.cleared;
            one_job = v.one_job;
            ranged = v.ranged;
          }))
        v
  handle_event-IsCareful k reread (switch_account id) c f v =
      either-IsCareful (eq_text id c.user_id) c _ v
        (dispatch-IsCareful _ _ (forget-IsCareful k c v))
  handle_event-IsCareful k reread (reveal_secret name) c f v =
      dispatch-IsCareful _ _ (hide-IsCareful c v)
  handle_event-IsCareful k reread copy_generated c f v =
      either-IsCareful (eq_text c.generated []) (set_error (message "Generate a value first.") c) _
        (record { hidden = v.hidden; cleared = v.cleared; one_job = v.one_job; ranged = v.ranged })
        (keep_copy-IsCareful k c.generated
          (message "Generated value copied. Clipboard will clear automatically.") c v)
  handle_event-IsCareful k reread (sync_done r) c f v =
      either-IsCareful c.sync_running _ c (synced-IsCareful k r c f v) v
  handle_event-IsCareful k reread (job_done r) c f v =
      either-IsCareful c.busy _ c (finished-IsCareful k reread r c f v) v
  handle_event-IsCareful k reread e c f v = ground (arith, v.hidden, v.cleared, v.one_job, v.ranged)

  run_events-IsCareful :
      (os : List Occurrence) (c : Controller)
      → all_fit os ≡ true
      → IsCareful c
      → IsCareful (run_events os c)
  unfolding run_events step all_fit
  run_events-IsCareful [] c f v = v
  run_events-IsCareful (o ∷ os) c f v =
      run_events-IsCareful os (if c.crashed then c else handle_event o.calls o.reread o.event c)
        (and_true (event_fits o.event) (all_fit os) f).1
        (either-IsCareful c.crashed c _ v (
          handle_event-IsCareful o.calls o.reread o.event c
            (and_true (event_fits o.event) (all_fit os) f).0 v))

  -- After any sequence of events whose answers hold a time-out of the clipboard that fits an int in
  -- milliseconds, whatever else the operations answer and whatever calls of the system fail, a revealed secret has a running timer that hides it, a copied secret has a running timer that
  -- clears it, and one operation is pending while the interface is busy and none else.
  pub run_events-fresh-IsCareful :
      (b : Board) (os : List Occurrence)
      → all_fit os ≡ true
      → IsCareful (run_events os (fresh_controller b))
  unfolding fresh_controller fits
  run_events-fresh-IsCareful b os f =
      run_events-IsCareful os (fresh_controller b) f
        (record { hidden = refl; cleared = refl; one_job = refl; ranged = refl })
