-- ===== src/Examples/Interface.antt =====
-- The theorems on the graphical client at concrete inputs: a comparison that makes no difference, and
-- a desktop that has no clipboard. The clipboard alone is run as on Windows.
use mathlib.Core.List.{Perm}
use mathlib.Core.List.Perm.{refl as same_perm}
use nox_vault.Gui.Controller.Events.Superseding.{synced-dispatch, others}
use nox_vault.Gui.Answers.{number_at, flag, text}
use nox_vault.Clipboard.Clearing.{clear_clipboard_if_matches-copy_to_clipboard, IsPlain}
use mathlib.Core.List.{filter}
use nox_vault.Gui.Controller.Events.Careful.{all_fit, event_fits, fits, IsCareful}
use nox_vault.Gui.Controller.Events.Generations.{is_other}
use nox_vault.Gui.Secrets.Showing.{matches, filter_after, given_after}
use nox_vault.Errors.{ok}
use nox_vault.Gui.Secrets.Showing.{filtering, run_shows, recording, Op, by_name, run_ops}
use nox_vault.Gui.Controller.Events.{
  reveal_secret, job_done, start_up, Occurrence, run_events, Event,
}
use nox_vault.Clipboard.{
  windows, clear_clipboard_if_matches, utf8_to_wide, Calls, until_zero, copy_to_clipboard, Board,
  unix,
}
use nox_vault.Gui.Controller.Events.Safety.{run_events-fresh-IsCareful}
use nox_vault.Common.{
  negsuc, Bool, pos, ℤ, arith, starts_with, ◌∷◌, [], ◌≡◌, none, List, false, refl, true, some, lit,
}
use nox_vault.Gui.Controller.Sync.{sync_shared_state, synced}
use nox_vault.Gui.Secrets.{NoneLess, Qt, Item, IsOrdered, empty_model}
use nox_vault.Gui.Controller.{Desktop, Controller, dispatch, adding, revealing, fresh_controller}

always-IsOrdered : {X : Type 0} (l : List X) → IsOrdered (λ (a b : X). false) l
always-IsOrdered [] = tt
always-IsOrdered (x ∷ xs) = (none_less x xs, always-IsOrdered xs)
  where
    none_less : {X : Type 0} (x : X) (l : List X) → NoneLess (λ (a b : X). false) x l
    none_less x [] = tt
    none_less x (y ∷ ys) = (refl, none_less x ys)

same_items : (l : List Item) → Perm l l
same_items l = same_perm l

instance abbrev toy_qt : Qt
toy_qt = record {
  less = λ a b. false;
  holds = λ n f. starts_with f n;
  sort_names = λ l. l;
  sort_items = λ l. l;
  sort_names-IsOrdered = always-IsOrdered;
  sort_items-IsOrdered = always-IsOrdered;
  sort_names-Perm = λ l. same_perm l;
  sort_items-Perm = same_items;
}

abbrev not_negative : ℤ → Bool
not_negative (pos n) = true
not_negative (negsuc n) = false

instance abbrev toy_desktop : Desktop
toy_desktop = record {
  platform = unix;
  convert = λ t. some t;
  timer_starts = not_negative;
  timer_starts-pos = λ n. refl;
}

abbrev no_board : Board
no_board = record { opened = false; content = none }

abbrev working : Calls
working = record { opens = true; empties = true; allocates = true; sets = true; locks = true }

abbrev listing : List Op
listing = recording (record { name = lit "mail"; updated_at = [] } ∷ []) ∷ filtering (lit "m") ∷ []

run_shows_example :
    Perm
      (run_ops listing empty_model).visible
      (filter (matches (filter_after listing [])) (given_after listing []))
    × IsOrdered by_name (run_ops listing empty_model).visible
run_shows_example = run_shows listing

abbrev happens : Event → Occurrence
happens e = record { event = e; calls = working; reread = ok [] }

abbrev morning : List Occurrence
morning =
    happens start_up
    ∷ happens (job_done ((lit "unlocked", flag true) ∷ []))
    ∷ happens (reveal_secret (lit "mail"))
    ∷ happens (job_done ((lit "value", text (lit "pw")) ∷ []))
    ∷ []

morning_example : IsCareful (run_events morning (fresh_controller no_board))
unfolding all_fit event_fits fits number_at
morning_example = run_events-fresh-IsCareful no_board morning refl

-- The operation finishes before the answer.
abbrev between : List Occurrence
between = happens (job_done []) ∷ []

synced_example :
    synced working [] (
      run_events between
        (dispatch (adding (lit "a") (lit "b")) (sync_shared_state (fresh_controller no_board))))
    ≡ record (run_events between
        (dispatch (adding (lit "a") (lit "b")) (sync_shared_state (fresh_controller no_board)))) {
          sync_running = false;
        }
unfolding fresh_controller others is_other
synced_example =
    synced-dispatch working [] (adding (lit "a") (lit "b")) (fresh_controller no_board) between
      (omega arith) refl refl refl refl refl (omega arith)

-- An unlocked interface that shows a secret and reveals another.
abbrev waiting : Controller
waiting = record (dispatch (revealing (lit "mail")) (fresh_controller no_board)) {
  screen = lit "app";
  unlocked = true;
  selected = lit "bank";
  revealed = lit "pin";
}

copies :
    copy_to_clipboard windows (λ t. some t) working (lit "pw") no_board
    ≡ (ok tt, record { opened = false; content = some (lit "pw") })
unfolding copy_to_clipboard utf8_to_wide
copies = refl

pw-IsPlain : IsPlain (lit "pw")
unfolding IsPlain
pw-IsPlain = (omega arith, (omega arith, tt))

clearing_example :
    (clear_clipboard_if_matches windows
        (λ t. some t)
        working
        (lit "pw")
        (record { opened = false; content = some (lit "pw") })
      ≡ (true, record { opened = false; content = none }))
    × (clear_clipboard_if_matches windows
          (λ t. some t)
          working
          (lit "pw")
          (record { opened = false; content = some (lit "text") })
        ≡ (false, record { opened = false; content = some (lit "text") }))
unfolding until_zero
clearing_example =
    clear_clipboard_if_matches-copy_to_clipboard (λ t. some t) working working (lit "pw") (lit "pw")
      (lit "text") no_board (record { opened = false; content = some (lit "pw") }) refl pw-IsPlain
      copies refl refl refl refl
