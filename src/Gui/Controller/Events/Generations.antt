-- ===== src/Gui/Controller/Events/Generations.antt =====
-- The completion of an operation while a synchronisation runs: the generation of the state.
use nox_vault.Gui.Controller.Events.{Event, sync_done}
use nox_vault.Gui.Answers.{text_at, Variant, flag_at, Account, Answer}
use nox_vault.Clipboard.{copy_to_clipboard, Board, Calls}
use nox_vault.Gui.Controller.Jobs.{answered, finished, refresh_secrets, complete}
use nox_vault.Gui.Secrets.{Qt}
use nox_vault.Errors.{Result, err, ok}
use nox_vault.Common.{
  ◌+◌, ℕ, ◌==◌, drop, ◌^◌, ◌%◌, message, lookup, lit, Option, none, Bool, some, ◌∷◌, if◌then◌else◌,
  true, ◌||◌, List, Text, refl, [], false, ◌≡◌, arith,
}
use nox_vault.Gui.Controller.{
  starting, authenticating, initializing, unlocking, locking, leaving, switching, refreshing,
  adding, updating, deleting, revealing, copying, exporting, importing, changing, diagnosing,
  saving, changing, importing, exporting, copying, revealing, deleting, updating, adding, switching,
  unlocking, initializing, authenticating, set_notice, empty_list, held, apply_startup,
  clear_sensitive, keep_copy, expire, lock, Desktop, start, hide_sensitive, Job, Controller,
  dispatch,
}

-- The event is not the answer of a synchronisation.
unfoldable pub is_other : Event → Bool
is_other (sync_done r) = false
is_other e = true

-- `d` keeps the synchronisation that runs, and the generation moves by one at most.
pub record Ticks (running : Bool) (captured generation : ℕ) (d : Controller) : Type 0 where
  pub kept : d.sync_running ≡ running
  pub same : d.captured ≡ captured
  pub ticks :
      ((d.state_generation == generation) || (d.state_generation == (generation + 1) % 2 ^ 64))
      ≡ true

abbrev pub Since : Controller → Controller → Type 0
Since c d = Ticks c.sync_running c.captured c.state_generation d

equal_self : (n : ℕ) → (n == n) ≡ true
equal_self n = ground arith

or_true : (b : Bool) → (b || true) ≡ true
or_true true = refl
or_true false = refl

-- Where the three fields are the same.
pub calm :
    (c d : Controller)
    → d.sync_running ≡ c.sync_running
    → d.captured ≡ c.captured
    → d.state_generation ≡ c.state_generation
    → Since c d
calm c d x y z = record {
  kept = x;
  same = y;
  ticks = rw z (rw (equal_self c.state_generation) refl);
}

pub either-Ticks :
    {r : Bool} {n g : ℕ} (b : Bool) (c d : Controller)
    → Ticks r n g c
    → Ticks r n g d
    → Ticks r n g (if b then c else d)
either-Ticks true c d v w = v
either-Ticks false c d v w = w

pub dispatch-Ticks : (j : Job) (c : Controller) → Since c (dispatch j c)
unfolding dispatch
dispatch-Ticks j c =
    either-Ticks (c.busy || c.shutting_down) c _ (calm c c refl refl refl) (record {
      kept = refl;
      same = refl;
      ticks = rw (equal_self ((c.state_generation + 1) % 2 ^ 64)) (or_true _);
    })

module _ ⦃Q : Qt⦄ ⦃D : Desktop⦄ where
  pub keep_copy-Ticks :
      (k : Calls) (t said : Text) (c : Controller) → Since c (keep_copy k t said c)
  unfolding keep_copy held
  keep_copy-Ticks k t said c = go (copy_to_clipboard D.platform D.convert k t c.board)
    where
      go : (p : Result (Unit {0}) × Board) → Since c (held t said c p)
      go (ok u, b) = calm c _ refl refl refl
      go (err e, b) = calm c _ refl refl refl

  complete-Ticks :
      (k : Calls) (reread : Result (List Account)) (j : Job) (r : Answer) (c : Controller)
      → Since c (complete k reread j r c)
  unfolding complete apply_startup start set_notice hide_sensitive refresh_secrets lock empty_list
      clear_sensitive
  complete-Ticks k reread starting r c = calm c _ refl refl refl
  complete-Ticks k reread (authenticating a b d) r c = dispatch-Ticks _ _
  complete-Ticks k reread (initializing a b) r c =
      go (flag_at (lit "unlocked") r) (flag_at (lit "vaultExists") r)
    where
      go :
          (u v : Bool)
          → Since c (
              let d = record c {
                unlocked = u;
                screen = if u then lit "app" else lit "unlock";
                page = lit "secrets";
              } in
              let e =
                if v
                then set_notice
                    (message "Vault already exists. Unlock it with its master password.")
                    d
                else set_notice
                    (if u
                      then message "Encrypted vault created and unlocked"
                      else message "Encrypted vault created")
                    d in
              if u then refresh_secrets e else e)
      go true true = dispatch-Ticks _ _
      go true false = dispatch-Ticks _ _
      go false true = calm c _ refl refl refl
      go false false = calm c _ refl refl refl
  complete-Ticks k reread (unlocking a) r c =
      either-Ticks (flag_at (lit "vaultMissing") r) _ _ (calm c _ refl refl refl)
        (dispatch-Ticks _ _)
  complete-Ticks k reread locking r c = calm c _ refl refl refl
  complete-Ticks k (ok x) leaving r c = calm c _ refl refl refl
  complete-Ticks k (err e) leaving r c = calm c _ refl refl refl
  complete-Ticks k reread (switching a) r c = calm c _ refl refl refl
  complete-Ticks k reread refreshing r c = calm c _ refl refl refl
  complete-Ticks k reread (adding a b) r c = dispatch-Ticks _ _
  complete-Ticks k reread (updating a b) r c = dispatch-Ticks _ _
  complete-Ticks k reread (deleting a) r c = dispatch-Ticks _ _
  complete-Ticks k reread (revealing a) r c = calm c _ refl refl refl
  complete-Ticks k reread (copying a) r c = keep_copy-Ticks k _ _ c
  complete-Ticks k reread (exporting a b) r c = calm c _ refl refl refl
  complete-Ticks k reread (importing a b) r c =
      let w = dispatch-Ticks locking (empty_list (clear_sensitive k c)) in
      record { kept = w.kept; same = w.same; ticks = w.ticks }
  complete-Ticks k reread (changing a b) r c = calm c _ refl refl refl
  complete-Ticks k reread diagnosing r c = calm c _ refl refl refl
  complete-Ticks k reread saving r c = calm c _ refl refl refl

  answered-Ticks :
      (k : Calls) (reread : Result (List Account)) (l : List Job) (r : Answer) (c : Controller)
      → Since c (answered k reread l r c)
  unfolding answered
  answered-Ticks k reread [] r c = calm c c refl refl refl
  answered-Ticks k reread (j ∷ l) r c = reported (lookup (lit "error") r)
    where
      reported :
          (o : Option Variant)
          → Since c (elim o [
            | some x ↦ record c { error = text_at (lit "error") [] r }
            | none ↦ complete k reread j r c
          ])
      reported (some x) = calm c _ refl refl refl
      reported none = complete-Ticks k reread j r c

  pub finished-Ticks :
      (k : Calls) (reread : Result (List Account)) (r : Answer) (c : Controller)
      → Since c (finished k reread r c)
  unfolding finished expire empty_list clear_sensitive hide_sensitive
  finished-Ticks k reread r c =
      either-Ticks c.shutting_down c _ (calm c c refl refl refl)
        (go (flag_at (lit "sessionExpired") r))
    where
      go :
          (b : Bool)
          → Since c (
              answered k reread c.pending r (
                if b
                then expire k (record c { busy = false; pending = drop 1 c.pending })
                else record c { busy = false; pending = drop 1 c.pending }))
      go true =
          answered-Ticks k reread c.pending r
            (expire k (record c { busy = false; pending = drop 1 c.pending }))
      go false =
          answered-Ticks k reread c.pending r
            (record c { busy = false; pending = drop 1 c.pending })
