-- ===== src/Agent/Channel/Frames.antt =====
-- The loops over the socket move whole buffers, and a frame that was sent is the frame that is read.
use mathlib.Core.List.{append_assoc, append-nil}
use native.Mathlib.Nat.{zero-add, suc-add}
use nox_vault.Agent.Channel.{
  read_body, read_more, frame_size, max_frame, u32_value, read_frame, write_all, read_all,
  u32_bytes, Socket,
}
use nox_vault.Common.{
  ltb, length-append, take-append-drop, length-drop, ◌-◌, drop, ◌∙◌, none, ◌+◌, Bool, Option, sym,
  false, take, Bytes, arith, Text, length, ℕ, ◌∷◌, ◌^◌, ◌++◌, [], some, suc, ◌≤◌, ◌<◌, refl, ◌≡◌,
  List, zero, true,
}

take-all {ℓ} : {A : Type ℓ} (l : List A) (n : ℕ) → length l ≤ n → take n l ≡ l
take-all [] zero h = refl
take-all [] (suc n) h = refl
take-all (x ∷ l) zero h = absurd (omega arith)
take-all (x ∷ l) (suc n) h = rw (take-all l n (omega arith))

pub append-cancel {ℓ} :
    {A : Type ℓ} (a b c d : List A) → length a ≡ length b → a ++ c ≡ b ++ d → (a ≡ b) × (c ≡ d)
append-cancel [] [] c d h e = (refl, e)
append-cancel [] (y ∷ b) c d h e = absurd (omega arith)
append-cancel (x ∷ a) [] c d h e = absurd (omega arith)
append-cancel (x ∷ a) (y ∷ b) c d h e = ground (arith, append-cancel a b c d)

take-nil {ℓ} : {A : Type ℓ} (n : ℕ) → take {A = A} n [] ≡ []
take-nil zero = refl
take-nil (suc n) = refl

take-add {ℓ} : {A : Type ℓ} (j m : ℕ) (b : List A) → take (j + m) b ≡ take j b ++ take m (drop j b)
take-add zero m b = rw (zero-add m)
take-add (suc j) m [] = rw (take-nil (suc j + m), take-nil m)
take-add (suc j) m (x ∷ b) = rw (suc-add j m, take-add j m b)

module _ ⦃C : Socket⦄ where
  -- What `write_all` leaves behind: `n` bytes of the buffer went out.
  record IsWritten (b : Bytes) (s : C.State) (r : Bool × C.State) : Type 0 where
    n : ℕ
    bytes : C.written r.1 ≡ C.written s ++ take n b
    full : r.0 ≡ true → take n b ≡ b
    unread : C.unread r.1 ≡ C.unread s

  write_round :
      (fuel k x : ℕ) (b : Bytes) (s z : C.State)
      → C.written z ≡ C.written s ++ take k (x ∷ b)
      → C.unread z ≡ C.unread s
      → ((j : ℕ) → IsWritten (drop j b) z (write_all fuel (drop j b) z))
      → IsWritten (x ∷ b) s (elim k [ zero ↦ (false, z) | suc j ↦ write_all fuel (drop j b) z ])
  write_round fuel zero x b s z w u ih = record { n = 0; bytes = w; full = λ e. cc e; unread = u }
  write_round fuel (suc j) x b s z w u ih =
      let i = ih j in
      record {
        n = suc (j + i.n);
        bytes =
            rw (i.bytes, w, take-add j i.n b)
              (append_assoc (C.written s) (x ∷ take j b) (take i.n (drop j b)));
        full = λ e. rw (take-add j i.n b, i.full e, take-append-drop j b);
        unread = i.unread ∙ u;
      }

  write_all-IsWritten :
      (fuel : ℕ) (b : Bytes) (s : C.State) → length b ≤ fuel → IsWritten b s (write_all fuel b s)
  unfolding write_all
  write_all-IsWritten fuel [] s h = record {
    n = 0;
    bytes = sym (append-nil (C.written s));
    full = λ _. refl;
    unread = refl;
  }
  write_all-IsWritten zero (x ∷ b) s h = absurd (omega arith)
  write_all-IsWritten (suc fuel) (x ∷ b) s h =
      write_round fuel (C.send (x ∷ b) s).0 x b s (C.send (x ∷ b) s).1 (C.written-send (x ∷ b) s)
        (C.unread-send (x ∷ b) s)
        (λ j.
          write_all-IsWritten fuel (drop j b) (C.send (x ∷ b) s).1 (omega (arith, length-drop j b)))

  -- However the socket splits the buffer, `write_all` that succeeds has written the whole buffer, in
  -- order, and one that fails has written a part of it from the front; it reads nothing. The fuel of
  -- one round for each byte is enough.
  pub write_all_lem :
      (fuel : ℕ) (b : Bytes) (s : C.State)
      → length b ≤ fuel
      → (n : ℕ) × (C.written (write_all fuel b s).1 ≡ C.written s ++ take n b)
        × ((write_all fuel b s).0 ≡ true → take n b ≡ b)
        × (C.unread (write_all fuel b s).1 ≡ C.unread s)
  write_all_lem fuel b s h =
      let i = write_all-IsWritten fuel b s h in (i.n, i.bytes, i.full, i.unread)

  unfoldable pub IsRead : ℕ → C.State → Option Bytes × C.State → Type 0
  IsRead n s (none, z) = Unit {0}
  IsRead n s (some r, z) = (length r ≡ n) × (C.unread s ≡ r ++ C.unread z)

  IsRead-round :
      (fuel n : ℕ) (b : Bytes) (s z : C.State)
      → length b ≤ suc n
      → C.unread s ≡ b ++ C.unread z
      → ((m : ℕ) → m ≤ n → IsRead m z (read_all fuel m z))
      → IsRead
          (suc n)
          s
          (elim b [ [] ↦ (none, z) | x ∷ r ↦ read_more (x ∷ r) (read_all fuel (n - length r) z) ])
  unfolding IsRead read_more
  IsRead-round fuel n [] s z h u ih = tt
  IsRead-round fuel n (x ∷ r) s z h u ih =
      joined (read_all fuel (n - length r) z) (ih (n - length r) (omega arith))
    where
      joined :
          (p : Option Bytes × C.State)
          → IsRead (n - length r) z p
          → IsRead (suc n) s (read_more (x ∷ r) p)
      joined (none, y) i = tt
      joined (some t, y) i = (
        omega (arith, i.0, length-append r t),
        rw (u, i.1) (sym (append_assoc (x ∷ r) t (C.unread y))),
      )

  pub read_all-IsRead : (fuel n : ℕ) (s : C.State) → n ≤ fuel → IsRead n s (read_all fuel n s)
  unfolding read_all IsRead
  read_all-IsRead fuel zero s h = (refl, refl)
  read_all-IsRead zero (suc n) s h = absurd (omega arith)
  read_all-IsRead (suc fuel) (suc n) s h =
      IsRead-round fuel n (C.recv (suc n) s).0 s (C.recv (suc n) s).1 (C.recv_le (suc n) s)
        (C.unread-recv (suc n) s) (λ m k. read_all-IsRead fuel m (C.recv (suc n) s).1 (omega arith))

  -- `read_all` that succeeds gives as many bytes as were asked for, the next ones of the stream.
  pub read_all_lem :
      (fuel n : ℕ) (s : C.State) (r : Bytes)
      → n ≤ fuel
      → (read_all fuel n s).0 ≡ some r
      → (length r ≡ n) × (C.unread s ≡ r ++ C.unread (read_all fuel n s).1)
  unfolding IsRead
  read_all_lem fuel n s r h e = taken (read_all fuel n s) (read_all-IsRead fuel n s h) e
    where
      taken :
          (p : Option Bytes × C.State)
          → IsRead n s p
          → p.0 ≡ some r
          → (length r ≡ n) × (C.unread s ≡ r ++ C.unread p.1)
      taken (none, z) i q = absurd (cc q)
      taken (some t, z) i q = ground (arith, i)

  pub u32_value-u32_bytes : (n : ℕ) → n < 2 ^ 32 → u32_value (u32_bytes n) ≡ n
  unfolding u32_value u32_bytes
  u32_value-u32_bytes n h = omega arith

  pub length-u32_bytes : (n : ℕ) → length (u32_bytes n) ≡ 4
  unfolding u32_bytes
  length-u32_bytes n = refl

  -- A frame that stands at the front of the stream, of a text of at most `max_frame` bytes, is read
  -- as that text, and the bytes behind it stay.
  pub read_frame_lem :
      (t u : Text) (rest : Bytes) (s : C.State)
      → length t ≤ max_frame
      → C.unread s ≡ u32_bytes (frame_size t) ++ (t ++ rest)
      → (read_frame s).0 ≡ some u
      → (u ≡ t) × (C.unread (read_frame s).1 ≡ rest)
  unfolding read_frame IsRead
  read_frame_lem t u rest s h e f = headed (read_all 4 4 s) (read_all-IsRead 4 4 s (omega arith)) f
    where
      small : frame_size t ≡ length t
      small = omega arith

      bodied :
          (z : C.State) (p : Option Bytes × C.State)
          → C.unread z ≡ t ++ rest
          → IsRead (length t) z p
          → p.0 ≡ some u
          → (u ≡ t) × (C.unread p.1 ≡ rest)
      bodied z (none, y) a i q = absurd (cc q)
      bodied z (some v, y) a i q =
          let (same, behind) = append-cancel v t (C.unread y) rest i.0 (sym i.1 ∙ a) in
          (ground (arith, same), behind)

      headed :
          (p : Option Bytes × C.State)
          → IsRead 4 s p
          → (read_body p).0 ≡ some u
          → (u ≡ t) × (C.unread (read_body p).1 ≡ rest)
      headed (none, z) i q = absurd (cc q)
      headed (some b, z) i q =
          let (head, behind) =
            append-cancel b (u32_bytes (frame_size t)) (C.unread z) (t ++ rest)
              (i.0 ∙ sym (length-u32_bytes (frame_size t))) (sym i.1 ∙ e) in
          let fits : ltb max_frame (length t) ≡ false = ground (arith, h) in
          let size : u32_value b ≡ length t =
            rw head (u32_value-u32_bytes (frame_size t) (omega arith) ∙ small) in
          rw (size, fits)
            (bodied z (read_all (length t) (length t) z) behind
              (read_all-IsRead (length t) (length t) z (omega arith)) (rw (size, fits) at q))
