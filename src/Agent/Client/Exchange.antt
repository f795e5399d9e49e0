-- ===== src/Agent/Client/Exchange.antt =====
-- A request to the agent that is answered, and the channel that it leaves.
use nox_vault.Agent.Channel.Frames.{length-u32_bytes, write_all_lem}
use nox_vault.Errors.{Result, err, ok}
use nox_vault.Libraries.Json.{JsonLib}
use nox_vault.Common.{
  Bool, ◌∙◌, ltb, message, Bool-cases, lit, ℕ, arith, Text, length, Bytes, List, Option, none, ◌∷◌,
  ◌+◌, ◌≡◌, inr, ◌≤◌, ◌++◌, some, false, true, ◌<◌, refl, inl,
}
use nox_vault.Agent.Channel.{
  both, Socket, max_frame, u32_value, send_request, read_all, frame_size, u32_bytes, read_frame,
  read_body, write_all,
}
use nox_vault.Agent.Channel.Progress.{read_frame-progress, write_all-progress}
use nox_vault.Agent.Client.{
  Host, exchange, request, available, value_at, parsed, sized, received, connected, connect_channel,
  close_channel, asking, replied, judged, refused, probe, probed, status_query,
}

module _ ⦃C : Socket⦄ ⦃J : JsonLib⦄ where
  -- `exchange` reads what `read_frame` reads.
  sized-read_body :
      (p : Option Bytes × C.State) (t : Text)
      → (read_body p).0 ≡ some t
      → sized p ≡ parsed (read_body p)
  unfolding sized read_body
  sized-read_body (none, s) t e = absurd (cc e)
  sized-read_body (some b, s) t e = elim (Bool-cases (ltb max_frame (u32_value b))) [
    | inl y ↦ absurd (ground (arith, y))
    | inr n ↦ rw n refl
  ]

  send_request-progress :
      ((b : Bytes) (s : C.State) → 0 < length b → 0 < (C.send b s).0)
      → (t : Text) (s : C.State) → length t ≤ max_frame
      → ((send_request t s).0 ≡ true) × (C.unread (send_request t s).1 ≡ C.unread s)
  unfolding send_request both
  send_request-progress progress t s h =
      let fits : ltb max_frame (frame_size t) ≡ false = ground (arith, h) in
      rw fits (
        after (write_all 4 (u32_bytes (frame_size t)) s)
          (write_all-progress progress 4 (u32_bytes (frame_size t)) s
            (omega (arith, length-u32_bytes (frame_size t))))
          (unread_after 4 (u32_bytes (frame_size t)) s
            (omega (arith, length-u32_bytes (frame_size t)))))
    where
      unread_after :
          (n : ℕ) (b : Bytes) (z : C.State)
          → length b ≤ n
          → C.unread (write_all n b z).1 ≡ C.unread z
      unread_after n b z l = let (k, w, full, same) = write_all_lem n b z l in same

      after :
          (p : Bool × C.State)
          → p.0 ≡ true
          → C.unread p.1 ≡ C.unread s
          → ((both p (write_all (length t) t)).0 ≡ true)
            × (C.unread (both p (write_all (length t) t)).1 ≡ C.unread s)
      after (false, z) e u = absurd (cc e)
      after (true, z) e u = (
        write_all-progress progress (length t) t z (omega arith),
        unread_after (length t) t z (omega arith) ∙ u,
      )

  -- When the socket makes progress, the request fits a frame and the answer that comes is a frame of
  -- a text that parses, `exchange` gives the document of the text, and leaves what stands behind.
  pub exchange-parse :
      ((b : Bytes) (s : C.State) → 0 < length b → 0 < (C.send b s).0)
      → ((n : ℕ) (s : C.State) → 0 < n → 0 < length (C.unread s) → 0 < length (C.recv n s).0)
      → (q j : J.Json) (t : Text) (rest : Bytes) (s : C.State) → length (J.dump q) ≤ max_frame
      → length t ≤ max_frame
      → C.unread s ≡ u32_bytes (frame_size t) ++ (t ++ rest)
      → J.parse t ≡ some j
      → ((exchange q s).0 ≡ ok j) × (C.unread (exchange q s).1 ≡ rest)
  unfolding exchange received read_frame parsed
  exchange-parse sends gives q j t rest s f h e p =
      let (sent, same) = send_request-progress sends (J.dump q) s f in
      answered (send_request (J.dump q) s) sent (same ∙ e)
    where
      taken :
          (b : Option Bytes × C.State)
          → b.0 ≡ some t
          → C.unread b.1 ≡ rest
          → ((parsed b).0 ≡ ok j) × (C.unread (parsed b).1 ≡ rest)
      taken (none, z) v u = absurd (cc v)
      taken (some x, z) v u = (ground (arith, v, p), u)

      answered :
          (b : Bool × C.State)
          → b.0 ≡ true
          → C.unread b.1 ≡ u32_bytes (frame_size t) ++ (t ++ rest)
          → ((received b).0 ≡ ok j) × (C.unread (received b).1 ≡ rest)
      answered (false, z) d u = absurd (cc d)
      answered (true, z) d u =
          let (v, behind) = read_frame-progress gives t rest z h u in
          rw (sized-read_body (read_all 4 4 z) t v) (taken (read_body (read_all 4 4 z)) v behind)

  -- How often a request closes the channel: once if the exchange throws or the agent agrees, twice
  -- if the agent answers and the request throws because of what it answers.
  unfoldable pub closings : Result J.Json → Result J.Json → ℕ
  closings (err e) v = 1
  closings (ok r) (ok v) = 1
  closings (ok r) (err e) = 2

  -- How often a probe closes the channel: not at all if the exchange throws.
  unfoldable pub probe_closings : Result J.Json → ℕ
  probe_closings (err e) = 0
  probe_closings (ok r) = 1

  judged-closes :
      (v : Result Bool) (r : J.Json) (h : Host)
      → ((judged v r h).1.closed + 1 ≡ h.closed + closings (ok r) (judged v r h).0)
        × ((judged v r h).1.opened ≡ h.opened)
  unfolding judged refused close_channel closings
  judged-closes (ok true) r h = (refl, refl)
  judged-closes (ok false) r h =
      throws (value_at J.as_text (message "Local agent request failed") r (lit "error"))
    where
      throws :
          (t : Result Text)
          → (h.closed + 1 + 1 ≡ h.closed + closings (ok r) (refused t)) × (h.opened ≡ h.opened)
      throws (ok t) = (omega arith, refl)
      throws (err e) = (omega arith, refl)
  judged-closes (err e) r h = (omega arith, refl)

  replied-closes :
      (v : Result J.Json) (h : Host)
      → ((replied v h).1.closed ≡ h.closed + closings v (replied v h).0)
        × ((replied v h).1.opened ≡ h.opened)
  unfolding replied close_channel closings
  replied-closes (err e) h = (refl, refl)
  replied-closes (ok r) h =
      let w = judged-closes (value_at J.as_bool false r (lit "ok")) r (close_channel h) in
      (omega (arith, w.0), w.1)

  probed-closes :
      (v : Result J.Json) (h : Host)
      → ((probed v h).1.closed ≡ h.closed + probe_closings v) × ((probed v h).1.opened ≡ h.opened)
  unfolding probed close_channel probe_closings
  probed-closes (err e) h = (omega arith, refl)
  probed-closes (ok r) h = (refl, refl)

  -- On the one channel that they open, `request` calls `close_channel` once, or twice when the agent
  -- has answered and its answer makes the request throw, and `available` calls it once, or not at
  -- all when its exchange throws.
  pub request_closes :
      (q : J.Json) (s : C.State) (l : List (Option C.State)) (h : Host)
      → h.channels ≡ some s ∷ l
      → ((request q h).1.closed ≡ h.closed + closings (exchange q s).0 (request q h).0)
        × ((request q h).1.opened ≡ h.opened + 1)
        × ((available h).1.closed ≡ h.closed + probe_closings (exchange status_query s).0)
        × ((available h).1.opened ≡ h.opened + 1)
  unfolding request available connect_channel connected asking probe
  request_closes q s l h c =
      let g : Host = record h { channels = l; opened = h.opened + 1 } in
      let v = replied-closes (exchange q s).0 g in
      let w = probed-closes (exchange status_query s).0 g in rw c (v.0, v.1, w.0, w.1)
