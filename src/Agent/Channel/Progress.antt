-- ===== src/Agent/Channel/Progress.antt =====
-- A socket that makes progress brings every frame over: the loops do not end early.
use nox_vault.Common.{
  ltb, sym, length-append, ap, length-drop, Text, arith, Bool, length, drop, is_some, ℕ, ◌∙◌, true,
  ◌≡◌, suc, zero, Bytes, ◌++◌, ◌≤◌, refl, ◌<◌, Option, none, false, [], ◌-◌, ◌∷◌, ◌+◌, some,
}
use nox_vault.Agent.Channel.{
  Socket, max_frame, u32_bytes, u32_value, frame_size, write_all, read_more, read_all, read_body,
  read_frame,
}
use nox_vault.Agent.Channel.Frames.{
  read_all-IsRead, u32_value-u32_bytes, append-cancel, length-u32_bytes, IsRead, read_frame_lem,
}

is_some_cases {ℓ} : {A : Type ℓ} (o : Option A) → is_some o ≡ true → (x : A) × (o ≡ some x)
is_some_cases none e = absurd (cc e)
is_some_cases (some x) e = (x, refl)

module _ ⦃C : Socket⦄ where
  write-round_progress :
      (fuel k x : ℕ) (b : Bytes) (z : C.State)
      → 0 < k
      → ((j : ℕ) → (write_all fuel (drop j b) z).0 ≡ true)
      → (elim k as (λ _. Bool × C.State) [
        | zero ↦ (false, z)
        | suc j ↦ write_all fuel (drop j b) z
      ]).0
        ≡ true
  write-round_progress fuel zero x b z h ih = absurd (omega arith)
  write-round_progress fuel (suc j) x b z h ih = ih j

  -- On a socket that takes at least one byte whenever there are some, writing succeeds with a round
  -- for each byte at most.
  pub write_all-progress :
      ((b : Bytes) (s : C.State) → 0 < length b → 0 < (C.send b s).0)
      → (fuel : ℕ) (b : Bytes) (s : C.State) → length b ≤ fuel
      → (write_all fuel b s).0 ≡ true
  unfolding write_all
  write_all-progress progress fuel [] s h = refl
  write_all-progress progress zero (x ∷ b) s h = absurd (omega arith)
  write_all-progress progress (suc fuel) (x ∷ b) s h =
      write-round_progress fuel (C.send (x ∷ b) s).0 x b (C.send (x ∷ b) s).1
        (progress (x ∷ b) s (omega arith))
        (λ j.
          write_all-progress progress fuel (drop j b) (C.send (x ∷ b) s).1
            (omega (arith, length-drop j b)))

  read-round_progress :
      (fuel n : ℕ) (b : Bytes) (z : C.State)
      → 0 < length b
      → ((m : ℕ) → m + length b ≡ suc n → is_some (read_all fuel m z).0 ≡ true)
      → length b ≤ suc n
      → is_some
          (elim b as (λ _. Option Bytes × C.State) [
            | [] ↦ (none, z)
            | x ∷ r ↦ read_more (x ∷ r) (read_all fuel (n - length r) z)
          ]).0
        ≡ true
  unfolding read_more
  read-round_progress fuel n [] z h ih l = absurd (omega arith)
  read-round_progress fuel n (x ∷ r) z h ih l =
      more (read_all fuel (n - length r) z) (ih (n - length r) (omega arith))
    where
      more :
          (p : Option Bytes × C.State) → is_some p.0 ≡ true → is_some (read_more (x ∷ r) p).0 ≡ true
      more (none, y) e = absurd (cc e)
      more (some t, y) e = refl

  read_all-progress :
      ((n : ℕ) (s : C.State) → 0 < n → 0 < length (C.unread s) → 0 < length (C.recv n s).0)
      → (fuel n : ℕ) (s : C.State) → n ≤ fuel
      → n ≤ length (C.unread s)
      → is_some (read_all fuel n s).0 ≡ true
  unfolding read_all
  read_all-progress progress fuel zero s h l = refl
  read_all-progress progress zero (suc n) s h l = absurd (omega arith)
  read_all-progress progress (suc fuel) (suc n) s h l =
      let b = (C.recv (suc n) s).0 in
      let z = (C.recv (suc n) s).1 in
      let some_bytes = progress (suc n) s (omega arith) (omega (arith, l)) in
      let total : length (C.unread s) ≡ length b + length (C.unread z) =
        ap length (C.unread-recv (suc n) s) ∙ length-append b (C.unread z) in
      read-round_progress fuel n b z some_bytes
        (λ m e.
          read_all-progress progress fuel m z (omega (arith, e, some_bytes))
            (omega (arith, e, total, l)))
        (C.recv_le (suc n) s)

  read_frame-is_some :
      ((n : ℕ) (s : C.State) → 0 < n → 0 < length (C.unread s) → 0 < length (C.recv n s).0)
      → (t : Text) (rest : Bytes) (s : C.State) → length t ≤ max_frame
      → C.unread s ≡ u32_bytes (frame_size t) ++ (t ++ rest)
      → is_some (read_frame s).0 ≡ true
  unfolding read_frame IsRead
  read_frame-is_some progress t rest s h e =
      headed (read_all 4 4 s)
        (read_all-progress progress 4 4 s (omega arith) (omega (arith, available)))
        (read_all-IsRead 4 4 s (omega arith))
    where
      available : length (C.unread s) ≡ 4 + length (t ++ rest)
      available = rw e (
          length-append (u32_bytes (frame_size t)) (t ++ rest)
          ∙ ap (λ n. n + length (t ++ rest)) (length-u32_bytes (frame_size t)))

      small : frame_size t ≡ length t
      small = omega arith

      headed :
          (p : Option Bytes × C.State)
          → is_some p.0 ≡ true
          → IsRead 4 s p
          → is_some (read_body p).0 ≡ true
      headed (none, z) q i = absurd (cc q)
      headed (some b, z) q i =
          let (head, behind) =
            append-cancel b (u32_bytes (frame_size t)) (C.unread z) (t ++ rest)
              (i.0 ∙ sym (length-u32_bytes (frame_size t))) (sym i.1 ∙ e) in
          let fits : ltb max_frame (length t) ≡ false = ground (arith, h) in
          let size : u32_value b ≡ length t =
            rw head (u32_value-u32_bytes (frame_size t) (omega arith) ∙ small) in
          let there : length (C.unread z) ≡ length t + length rest =
            rw behind (length-append t rest) in
          rw (size, fits)
            (read_all-progress progress (length t) (length t) z (omega arith)
              (omega (arith, there)))

  -- On a socket that gives at least one byte whenever some are to come, a frame of a text of at most
  -- `max_frame` bytes at the front of the stream is read as that text, and the bytes behind it stay.
  pub read_frame-progress :
      ((n : ℕ) (s : C.State) → 0 < n → 0 < length (C.unread s) → 0 < length (C.recv n s).0)
      → (t : Text) (rest : Bytes) (s : C.State) → length t ≤ max_frame
      → C.unread s ≡ u32_bytes (frame_size t) ++ (t ++ rest)
      → ((read_frame s).0 ≡ some t) × (C.unread (read_frame s).1 ≡ rest)
  read_frame-progress progress t rest s h e =
      let (u, r) = is_some_cases (read_frame s).0 (read_frame-is_some progress t rest s h e) in
      let (same, behind) = read_frame_lem t u rest s h e r in (r ∙ ap some same, behind)
