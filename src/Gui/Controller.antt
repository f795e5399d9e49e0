-- ===== src/Gui/Controller.antt =====
-- client/src/gui/app_controller.cpp: the state of the interface. An operation runs on another thread:
-- `dispatch` leaves it pending, and the event that it has finished brings its answer. Signals are not
-- modelled, nor the moment at which a timer fires; a timer runs or not. An exception that leaves a slot of Qt
-- ends the program: `crashed`.
pub mod Jobs
pub mod Sync
pub mod Events
use nox_vault.Common.{
  negsuc, ◌∷◌, ltb, ◌*◌, ◌≡◌, ◌-◌, ℕ, ℤ, List, Option, Bool, eq_text, lit, Text, ◌^◌, some, false,
  pos, true, if◌then◌else◌, ◌%◌, none, ◌+◌, [], ◌||◌,
}
use nox_vault.Clipboard.{Platform, Board, Calls, copy_to_clipboard, clear_clipboard_if_matches}
use nox_vault.Gui.Answers.{Account, Answer, text_at, flag_at, number_at, rows_at, sessions_at}
use nox_vault.Gui.Secrets.{Qt, SecretsModel, empty_model, set_records, clear}
use nox_vault.Errors.{Result, ok, err}

-- The operations that `dispatch` runs, by the function that dispatches them.
pub data Job : Type 0 where
  starting : Job
  authenticating : Text → Text → Bool → Job
  initializing : Text → Bool → Job
  unlocking : Text → Job
  locking leaving : Job
  switching : Text → Job
  refreshing : Job
  adding updating : Text → Text → Job
  deleting revealing copying : Text → Job
  exporting importing : Text → Text → Job
  changing : Text → Text → Job
  diagnosing : Job
  saving : Job

pub record Controller : Type 0 where
  pub model : SecretsModel
  pub reveal_timer : Bool
  pub clipboard_timer : Bool
  pub health_timer : Bool
  pub sync_timer : Bool
  pub screen : Text
  pub page : Text
  pub email : Text
  pub error : Text
  pub notice : Text
  pub selected : Text
  pub revealed : Text
  pub generated : Text
  pub copied : Text
  pub diagnostics : Text
  pub server_url : Text
  pub language : Text
  pub user_id : Text
  pub revision : Text
  pub accounts : List Account
  pub request_timeout : ℤ
  pub auto_lock_timeout : ℤ
  pub clipboard_timeout : ℤ
  pub start_locked : Bool
  pub busy : Bool
  pub healthy : Bool
  pub unlocked : Bool
  pub shutting_down : Bool
  pub sync_running : Bool
  pub health_running : Bool
  pub adding_account : Bool
  pub state_generation : ℕ
  -- the operations on other threads, the last that was dispatched first, the generation that a synchronisation has captured, the
  -- clipboard of the desktop
  pub pending : List Job
  pub captured : ℕ
  pub board : Board
  pub crashed : Bool

-- The desktop: the platform, its conversion to UTF-16, and whether `QTimer::start` of an interval in
-- milliseconds leaves the timer running, which Qt promises of one that is not negative.
pub record Desktop : Type 0 where
  pub platform : Platform
  pub convert : Text → Option (List ℕ)
  pub timer_starts : ℤ → Bool
  pub timer_starts-pos : (n : ℕ) → timer_starts (pos n) ≡ true

-- The int of 32 bits with the given residue.
as_int : ℕ → ℤ
as_int v = if ltb v (2 ^ 31) then pos v else negsuc (2 ^ 32 - 1 - v)

-- seconds * 1000 in an int, taken to wrap where it overflows.
unfoldable pub milliseconds : ℤ → ℤ
unfolding as_int
milliseconds (pos n) = as_int (n * 1000 % 2 ^ 32)
milliseconds (negsuc n) = as_int ((2 ^ 32 - (n + 1) * 1000 % 2 ^ 32) % 2 ^ 32)

unfoldable pub fresh_controller : Board → Controller
fresh_controller b = record {
  model = empty_model;
  reveal_timer = false;
  clipboard_timer = false;
  health_timer = false;
  sync_timer = false;
  screen = lit "loading";
  page = lit "secrets";
  email = [];
  error = [];
  notice = [];
  selected = [];
  revealed = [];
  generated = [];
  copied = [];
  diagnostics = [];
  server_url = [];
  language = lit "en";
  user_id = [];
  revision = [];
  accounts = [];
  request_timeout = pos 15;
  auto_lock_timeout = pos 900;
  clipboard_timeout = pos 30;
  start_locked = false;
  busy = false;
  healthy = false;
  unlocked = false;
  shutting_down = false;
  sync_running = false;
  health_running = false;
  adding_account = false;
  state_generation = 0;
  pending = [];
  captured = 0;
  board = b;
  crashed = false;
}

unfoldable pub set_error : Text → Controller → Controller
set_error m c = record c { error = m; notice = [] }

unfoldable pub set_notice : Text → Controller → Controller
set_notice m c = record c { notice = m; error = [] }

unfoldable pub hide_sensitive : Controller → Controller
hide_sensitive c = record c { reveal_timer = false; revealed = [] }

unfoldable pub dispatch : Job → Controller → Controller
dispatch job c = if c.busy || c.shutting_down then c else record c {
  state_generation = (c.state_generation + 1) % 2 ^ 64;
  busy = true;
  error = [];
  notice = [];
  pending = job ∷ c.pending;
}

unfoldable pub start : Controller → Controller
start c = dispatch starting (record c { screen = lit "loading" })

module _ ⦃D : Desktop⦄ where
  unfoldable pub clear_sensitive : Calls → Controller → Controller
  unfolding hide_sensitive
  clear_sensitive k c =
      let d = hide_sensitive c in
      record d {
        generated = [];
        board =
            if eq_text c.copied []
            then c.board
            else (clear_clipboard_if_matches D.platform D.convert k c.copied c.board).1;
        copied = [];
        clipboard_timer = false;
      }

  held : Text → Text → Controller → Result (Unit {0}) × Board → Controller
  held value said c (ok u, b) = record c {
    board = b;
    copied = value;
    clipboard_timer = D.timer_starts (milliseconds c.clipboard_timeout);
    notice = said;
    error = [];
  }
  held value said c (err e, b) = record c { board = b; crashed = true }

  -- copied_ = value; clipboardTimer_.start(...); setNotice(...), or the exception of the copy
  unfoldable pub keep_copy : Calls → Text → Text → Controller → Controller
  unfolding held
  keep_copy k value said c =
      held value said c (copy_to_clipboard D.platform D.convert k value c.board)

module _ ⦃Q : Qt⦄ ⦃D : Desktop⦄ where
  unfoldable pub empty_list : Controller → Controller
  empty_list c = record c { model = clear c.model; selected = [] }

  unfoldable pub apply_startup : Answer → Controller → Controller
  apply_startup r c = record c {
    healthy = flag_at (lit "healthy") r;
    screen = text_at (lit "screen") (lit "login") r;
    email = text_at (lit "email") [] r;
    user_id = text_at (lit "userId") [] r;
    unlocked = flag_at (lit "unlocked") r;
    server_url = text_at (lit "serverUrl") [] r;
    request_timeout = number_at (lit "requestTimeout") (pos 15) r;
    auto_lock_timeout = number_at (lit "autoLockTimeout") (pos 900) r;
    clipboard_timeout = number_at (lit "clipboardTimeout") (pos 30) r;
    start_locked = flag_at (lit "startLocked") r;
    language = text_at (lit "language") (lit "en") r;
    accounts = sessions_at (lit "accounts") r;
    revision = text_at (lit "revision") [] r;
    model = set_records (rows_at (lit "records") r) c.model;
    health_timer = true;
    sync_timer = true;
  }

  unfoldable pub lock : Calls → Controller → Controller
  lock k c = dispatch locking (empty_list (clear_sensitive k c))

  -- The part of `dispatch` that runs when the session has expired.
  unfoldable pub expire : Calls → Controller → Controller
  expire k c = record (empty_list (clear_sensitive k c)) {
    email = [];
    unlocked = false;
    screen = lit "login";
  }
