-- ===== src/Examples/Agent.antt =====
-- The theorems on the agent and its channel at concrete inputs.
use nox_vault.Agent.Channel.Progress.{read_frame-progress}
use nox_vault.Examples.Crypto.{key_sample}
use nox_vault.Agent.Session.{absolute_timeout, step-IsAgent, Timed, run_requests, IsAgent}
use nox_vault.Effects.{World}
use nox_vault.Agent.{watchdog, status_request, second, Timeouts, dispatch, Agent}
use nox_vault.Common.{
  ◌<◌, some, take-append-drop, length-take, drop, arith, take, lit, length, ℕ, Bytes, ◌+◌, [], refl,
  ◌≤◌, false, ◌∷◌, ◌++◌, ◌*◌, ◌≡◌,
}
use nox_vault.Agent.Channel.{u32_bytes, read_frame, Socket}
use nox_vault.Examples.Toys.{jnull, repeat, toy_sodium, toy_json, toy_random, toy_api}
use mathlib.Core.List.{append-nil}

abbrev limits : Timeouts
limits = record { idle = 900; absolute = 3600 }

-- Unlocked at one second and used at two.
abbrev unlocked_sample : Agent
unlocked_sample = record { key = key_sample; started = second; last = 2 * second; stop = false }

abbrev quiet : World
quiet = record { random = tt; server = []; sent = []; live = [] }

abbrev asks : Timed
asks = record { now = 10 * second; op = lit "status"; query = jnull }

absolute_timeout_example :
    3 * second
    ≤ (run_requests limits
        (asks ∷ [])
        (watchdog limits (3 * second) unlocked_sample)
        quiet).0.started
      + 3600 * second
unfolding run_requests dispatch status_request watchdog repeat
absolute_timeout_example =
    absolute_timeout limits (3 * second) (asks ∷ []) unlocked_sample quiet (refl, tt) refl

unlocked_sample-IsAgent : IsAgent unlocked_sample
unfolding repeat
unlocked_sample-IsAgent = record { key = λ _. refl; times = omega arith }

step_example :
    IsAgent (dispatch limits (3 * second) (lit "lock") jnull unlocked_sample quiet).1
    × IsAgent (watchdog limits (3 * second) unlocked_sample)
step_example =
    step-IsAgent limits (3 * second) (lit "lock") jnull unlocked_sample quiet (omega arith)
      unlocked_sample-IsAgent

-- A socket that takes one byte at a time.
abbrev pub Pipe : Type 0
Pipe = Bytes × Bytes

unfoldable pub pipe_send : Bytes → Pipe → ℕ × Pipe
pipe_send [] s = (0, s)
pipe_send (x ∷ b) (w, u) = (1, (w ++ (x ∷ []), u))

pub pipe_send_le : (b : Bytes) (s : Pipe) → (pipe_send b s).0 ≤ length b
unfolding pipe_send
pipe_send_le [] s = omega arith
pipe_send_le (x ∷ b) s = omega arith

pub pipe_written : (b : Bytes) (s : Pipe) → (pipe_send b s).1.0 ≡ s.0 ++ take (pipe_send b s).0 b
unfolding pipe_send
pipe_written [] s = rw (append-nil s.0)
pipe_written (x ∷ b) s = refl

pub pipe_unread : (b : Bytes) (s : Pipe) → (pipe_send b s).1.1 ≡ s.1
unfolding pipe_send
pipe_unread [] s = refl
pipe_unread (x ∷ b) s = refl

pub pipe_recv_le : (n : ℕ) (s : Pipe) → length (take n s.1) ≤ n
pipe_recv_le n s = omega (arith, length-take n s.1)

pub pipe_recv : (n : ℕ) (s : Pipe) → s.1 ≡ take n s.1 ++ drop n s.1
pipe_recv n s = rw (take-append-drop n s.1)

instance abbrev pub toy_socket : Socket
toy_socket = record {
  State = Pipe;
  send = pipe_send;
  recv = λ n s. (take n s.1, (s.0, drop n s.1));
  written = λ s. s.0;
  unread = λ s. s.1;
  send_le = pipe_send_le;
  written-send = pipe_written;
  unread-send = pipe_unread;
  recv_le = pipe_recv_le;
  unread-recv = pipe_recv;
}

abbrev framed : Pipe
framed = ([], 2 ∷ 0 ∷ 0 ∷ 0 ∷ lit "{}!")

pub pipe_moves : (n : ℕ) (s : Pipe) → 0 < n → 0 < length s.1 → 0 < length (take n s.1)
pipe_moves n s h k = omega (arith, h, k, length-take n s.1)

read_frame_progress_example :
    ((read_frame framed).0 ≡ some (lit "{}")) × ((read_frame framed).1.1 ≡ lit "!")
unfolding u32_bytes
read_frame_progress_example =
    read_frame-progress pipe_moves (lit "{}") (lit "!") framed (omega arith) refl

pub pipe_takes : (b : Bytes) (s : Pipe) → 0 < length b → 0 < (pipe_send b s).0
unfolding pipe_send
pipe_takes [] s h = h
pipe_takes (x ∷ b) (w, u) h = omega arith
