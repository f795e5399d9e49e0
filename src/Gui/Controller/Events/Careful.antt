-- ===== src/Gui/Controller/Events/Careful.antt =====
-- What the interface keeps of a secret, and that the completion of an operation keeps it.
use nox_vault.Gui.Controller.Events.{Occurrence, Event, sync_done, job_done}
use nox_vault.Gui.Answers.{number_at, Variant, Account, Answer}
use nox_vault.Clipboard.{copy_to_clipboard, Board, Calls}
use nox_vault.Gui.Controller.Jobs.{refresh_secrets, complete}
use nox_vault.Gui.Secrets.{Qt}
use nox_vault.Errors.{Result, err, ok}
use nox_vault.Common.{
  negsuc, drop, ltb, leb, ◌≤◌, ◌*◌, pos, ◌^◌, ◌%◌, length, ℤ, ◌&&◌, lookup, lit, Option, Bool, ◌∷◌,
  if◌then◌else◌, eq_text, true, ◌||◌, List, Text, refl, [], false, ◌≡◌, arith,
}
use nox_vault.Gui.Controller.{
  milliseconds, starting, authenticating, initializing, unlocking, locking, leaving, switching,
  refreshing, adding, updating, deleting, revealing, copying, exporting, importing, changing,
  diagnosing, saving, changing, importing, exporting, copying, revealing, deleting, updating,
  adding, switching, unlocking, initializing, authenticating, set_notice, empty_list, held,
  apply_startup, clear_sensitive, keep_copy, expire, lock, Desktop, start, hide_sensitive, Job,
  Controller, dispatch,
}

-- A time-out in seconds whose milliseconds fit an int.
unfoldable pub fits : ℤ → Bool
fits (pos n) = leb n 2147483
fits (negsuc n) = false

-- The time-out of the clipboard in an answer fits.
unfoldable pub event_fits : Event → Bool
event_fits (sync_done r) = fits (number_at (lit "clipboardTimeout") (pos 30) r)
event_fits (job_done r) = fits (number_at (lit "clipboardTimeout") (pos 30) r)
event_fits e = true

-- A revealed secret has a running timer that hides it, a copied one a timer that clears it, one
-- operation is pending while the interface is busy and none else, and the time-out fits.
pub record IsCareful (c : Controller) : Type 0 where
  pub hidden : (c.reveal_timer || eq_text c.revealed []) ≡ true
  pub cleared : (c.clipboard_timer || eq_text c.copied []) ≡ true
  pub one_job : length c.pending ≡ (if c.busy then 1 else 0)
  pub ranged : fits c.clipboard_timeout ≡ true

pub length-drop_one : {X : Type 0} (l : List X) → length l ≤ 1 → length (drop 1 l) ≡ 0
length-drop_one [] h = refl
length-drop_one (x ∷ []) h = refl
length-drop_one (x ∷ y ∷ l) h = absurd (omega (arith, h))

pub at_most_one :
    {X : Type 0} (b : Bool) (l : List X) → length l ≡ (if b then 1 else 0) → length l ≤ 1
at_most_one true l h = omega (arith, h)
at_most_one false l h = omega (arith, h)

number_at-fits :
    (k : Text) (r : Answer)
    → fits (number_at k (pos 30) r) ≡ true
    → fits (number_at k (pos 0) r) ≡ true
unfolding number_at fits
number_at-fits k r h = go (lookup k r) h
  where
    go :
        (o : Option Variant)
        → fits (number_at k (pos 30) r) ≡ true
        → fits (number_at k (pos 0) r) ≡ true
    go o h = ground (arith, h)

pub dispatch-IsCareful : (j : Job) (c : Controller) → IsCareful c → IsCareful (dispatch j c)
unfolding dispatch
dispatch-IsCareful j c v = ground (arith, v.hidden, v.cleared, v.one_job, v.ranged)

pub hide-IsCareful : (c : Controller) → IsCareful c → IsCareful (hide_sensitive c)
unfolding hide_sensitive
hide-IsCareful c v = record {
  hidden = refl;
  cleared = v.cleared;
  one_job = v.one_job;
  ranged = v.ranged;
}

pub start-IsCareful : (c : Controller) → IsCareful c → IsCareful (start c)
unfolding start
start-IsCareful c v =
    dispatch-IsCareful _ _
      (record { hidden = v.hidden; cleared = v.cleared; one_job = v.one_job; ranged = v.ranged })

module _ ⦃Q : Qt⦄ ⦃D : Desktop⦄ where
  unfoldable pub all_fit : List Occurrence → Bool
  all_fit [] = true
  all_fit (o ∷ os) = event_fits o.event && all_fit os

  milliseconds-runs : (z : ℤ) → fits z ≡ true → D.timer_starts (milliseconds z) ≡ true
  unfolding fits milliseconds
  milliseconds-runs (pos n) h =
      let small : (ltb (n * 1000 % 2 ^ 32) (2 ^ 31)) ≡ true = ground (arith, h) in
      rw small (D.timer_starts-pos (n * 1000 % 2 ^ 32))
  milliseconds-runs (negsuc n) h = absurd (cc h)

  pub clear-IsCareful : (k : Calls) (c : Controller) → IsCareful c → IsCareful (clear_sensitive k c)
  unfolding clear_sensitive hide_sensitive
  clear-IsCareful k c v = record {
    hidden = refl;
    cleared = refl;
    one_job = v.one_job;
    ranged = v.ranged;
  }

  pub keep_copy-IsCareful :
      (k : Calls) (t said : Text) (c : Controller) → IsCareful c → IsCareful (keep_copy k t said c)
  unfolding keep_copy held
  keep_copy-IsCareful k t said c v = go (copy_to_clipboard D.platform D.convert k t c.board)
    where
      go : (p : Result (Unit {0}) × Board) → IsCareful (held t said c p)
      go (ok u, b) = record {
        hidden = v.hidden;
        cleared = rw (milliseconds-runs c.clipboard_timeout v.ranged) refl;
        one_job = v.one_job;
        ranged = v.ranged;
      }
      go (err e, b) = record {
        hidden = v.hidden;
        cleared = v.cleared;
        one_job = v.one_job;
        ranged = v.ranged;
      }

  pub lock-IsCareful : (k : Calls) (c : Controller) → IsCareful c → IsCareful (lock k c)
  unfolding lock empty_list
  lock-IsCareful k c v =
      let w = clear-IsCareful k c v in
      dispatch-IsCareful _ _
        (record { hidden = w.hidden; cleared = w.cleared; one_job = w.one_job; ranged = w.ranged })

  pub expire-IsCareful : (k : Calls) (c : Controller) → IsCareful c → IsCareful (expire k c)
  unfolding expire empty_list
  expire-IsCareful k c v =
      let w = clear-IsCareful k c v in
      record { hidden = w.hidden; cleared = w.cleared; one_job = w.one_job; ranged = w.ranged }

  pub complete-IsCareful :
      (k : Calls) (reread : Result (List Account)) (j : Job) (r : Answer) (c : Controller)
      → fits (number_at (lit "clipboardTimeout") (pos 30) r) ≡ true
      → IsCareful c
      → IsCareful (complete k reread j r c)
  unfolding complete apply_startup start dispatch set_notice hide_sensitive refresh_secrets
  complete-IsCareful k reread starting r c f v =
      ground (arith, f, v.hidden, v.cleared, v.one_job, v.ranged)
  complete-IsCareful k reread (authenticating a b d) r c f v =
      ground (arith, v.hidden, v.cleared, v.one_job, v.ranged)
  complete-IsCareful k reread (initializing a b) r c f v =
      ground (arith, v.hidden, v.cleared, v.one_job, v.ranged)
  complete-IsCareful k reread (unlocking a) r c f v =
      ground (arith, v.hidden, v.cleared, v.one_job, v.ranged)
  complete-IsCareful k reread locking r c f v =
      ground (arith, v.hidden, v.cleared, v.one_job, v.ranged)
  complete-IsCareful k reread leaving r c f v =
      ground (arith, v.hidden, v.cleared, v.one_job, v.ranged)
  complete-IsCareful k reread (switching a) r c f v =
      ground (arith, f, v.hidden, v.cleared, v.one_job, v.ranged)
  complete-IsCareful k reread refreshing r c f v =
      ground (arith, v.hidden, v.cleared, v.one_job, v.ranged)
  complete-IsCareful k reread (adding a b) r c f v =
      ground (arith, v.hidden, v.cleared, v.one_job, v.ranged)
  complete-IsCareful k reread (updating a b) r c f v =
      ground (arith, v.hidden, v.cleared, v.one_job, v.ranged)
  complete-IsCareful k reread (deleting a) r c f v =
      ground (arith, v.hidden, v.cleared, v.one_job, v.ranged)
  complete-IsCareful k reread (revealing a) r c f v =
      ground (arith, v.hidden, v.cleared, v.one_job, v.ranged)
  complete-IsCareful k reread (copying a) r c f v = keep_copy-IsCareful k _ _ c v
  complete-IsCareful k reread (exporting a b) r c f v =
      ground (arith, v.hidden, v.cleared, v.one_job, v.ranged)
  complete-IsCareful k reread (importing a b) r c f v =
      let w = lock-IsCareful k c v in
      record { hidden = w.hidden; cleared = w.cleared; one_job = w.one_job; ranged = w.ranged }
  complete-IsCareful k reread (changing a b) r c f v =
      let w = clear-IsCareful k c v in
      record { hidden = w.hidden; cleared = w.cleared; one_job = w.one_job; ranged = w.ranged }
  complete-IsCareful k reread diagnosing r c f v =
      ground (arith, v.hidden, v.cleared, v.one_job, v.ranged)
  complete-IsCareful k reread saving r c f v =
      ground (
        arith,
        number_at-fits (lit "clipboardTimeout") r f,
        v.hidden,
        v.cleared,
        v.one_job,
        v.ranged,
      )
