-- ===== src/Agent/Channel.antt =====
-- `write_all`, `read_all` and the frames of client/src/agent.cpp over a local socket, which takes
-- and gives the bytes in pieces of any size.
pub mod Frames
pub mod Progress
use nox_vault.Common.{
  ltb, if◌then◌else◌, Text, ◌^◌, take, drop, length, Bool, Option, ℕ, ◌≡◌, none, [], ◌∷◌, ◌≤◌, ◌+◌,
  suc, some, zero, false, ◌%◌, ◌*◌, true, ◌-◌, ◌/◌, ◌++◌, Bytes,
}

-- `send` and `recv` on a connected socket: the number of bytes taken (0 stands for a failure and a
-- closed socket, which the loops treat alike), the bytes given, and what went out and is to come.
pub record Socket : Type 1 where
  pub State : Type 0
  pub send : Bytes → State → ℕ × State
  pub recv : ℕ → State → Bytes × State
  pub written : State → Bytes
  pub unread : State → Bytes
  pub send_le : (b : Bytes) (s : State) → (send b s).0 ≤ length b
  pub written-send :
      (b : Bytes) (s : State) → written (send b s).1 ≡ written s ++ take (send b s).0 b
  pub unread-send : (b : Bytes) (s : State) → unread (send b s).1 ≡ unread s
  pub recv_le : (n : ℕ) (s : State) → length (recv n s).0 ≤ n
  pub unread-recv : (n : ℕ) (s : State) → unread s ≡ (recv n s).0 ++ unread (recv n s).1

abbrev pub max_frame : ℕ
max_frame = 1024 * 1024

-- The four bytes of a `std::uint32_t`, least significant first.
unfoldable pub u32_bytes : ℕ → Bytes
u32_bytes n = (n % 256) ∷ (n / 256 % 256) ∷ (n / 65536 % 256) ∷ (n / 16777216 % 256) ∷ []

unfoldable pub u32_value : Bytes → ℕ
u32_value (a ∷ b ∷ c ∷ d ∷ []) = a + 256 * b + 65536 * c + 16777216 * d
u32_value _ = 0

module _ ⦃C : Socket⦄ where
  -- The fuel is the number of bytes left: every round that goes on takes at least one.
  unfoldable pub write_all : ℕ → Bytes → C.State → Bool × C.State
  write_all fuel [] s = (true, s)
  write_all zero (x ∷ b) s = (false, s)
  write_all (suc fuel) (x ∷ b) s =
      let (k, s') = C.send (x ∷ b) s in
      elim k [ zero ↦ (false, s') | suc j ↦ write_all fuel (drop j b) s' ]

  unfoldable pub read_more : Bytes → Option Bytes × C.State → Option Bytes × C.State
  read_more b (none, s) = (none, s)
  read_more b (some r, s) = (some (b ++ r), s)

  unfoldable pub read_all : ℕ → ℕ → C.State → Option Bytes × C.State
  unfolding read_more
  read_all fuel zero s = (some [], s)
  read_all zero (suc n) s = (none, s)
  read_all (suc fuel) (suc n) s =
      let (b, s') = C.recv (suc n) s in
      elim b [ [] ↦ (none, s') | x ∷ r ↦ read_more (x ∷ r) (read_all fuel (n - length r) s') ]

  unfoldable pub both : Bool × C.State → (C.State → Bool × C.State) → Bool × C.State
  both (true, s) f = f s
  both (false, s) f = (false, s)

  -- static_cast<std::uint32_t>(s.size())
  abbrev pub frame_size : Text → ℕ
  frame_size t = length t % 2 ^ 32

  -- The two calls of `send_response`, whose results are dropped.
  unfoldable pub send_response : Text → C.State → C.State
  send_response t s = (write_all (length t) t (write_all 4 (u32_bytes (frame_size t)) s).1).1

  -- The sending half of `exchange`; a failure of either call throws.
  unfoldable pub send_request : Text → C.State → Bool × C.State
  unfolding both
  send_request t s =
      if ltb max_frame (frame_size t)
      then (false, s)
      else both (write_all 4 (u32_bytes (frame_size t)) s) (write_all (length t) t)

  unfoldable pub read_body : Option Bytes × C.State → Option Text × C.State
  read_body (none, s) = (none, s)
  read_body (some h, s) =
      if ltb max_frame (u32_value h) then (none, s) else read_all (u32_value h) (u32_value h) s

  -- The receiving half of `exchange`, and of the request loop.
  unfoldable pub read_frame : C.State → Option Text × C.State
  unfolding read_body
  read_frame s = read_body (read_all 4 4 s)
