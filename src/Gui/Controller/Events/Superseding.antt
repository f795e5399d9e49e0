-- ===== src/Gui/Controller/Events/Superseding.antt =====
-- How an operation supersedes a synchronisation that runs: the generation of the state.
use nox_vault.Gui.Controller.Events.Ticking.{step_once, begun, late}
use nox_vault.Gui.Controller.Events.Generations.{is_other, Since}
use nox_vault.Gui.Controller.Events.{run_events, Occurrence, step}
use nox_vault.Gui.Answers.{Answer}
use nox_vault.Clipboard.{Calls}
use nox_vault.Gui.Controller.Sync.{sync_shared_state, synced}
use nox_vault.Gui.Secrets.{Qt}
use nox_vault.Common.{
  and_true, Bool-cases, inr, ◌<◌, ◌+◌, ◌∙◌, ℕ, ◌==◌, inl, ◌≤◌, ◌^◌, ◌%◌, length, ◌&&◌, Bool, ◌∷◌,
  true, ◌||◌, List, refl, [], false, ◌≡◌, arith,
}
use nox_vault.Gui.Controller.{Desktop, Job, Controller, dispatch}

module _ ⦃Q : Qt⦄ ⦃D : Desktop⦄ where
  -- None of the events is the answer of a synchronisation.
  unfoldable pub others : List Occurrence → Bool
  others [] = true
  others (o ∷ os) = is_other o.event && others os

  -- The generations that `n` dispatches lead to.
  moved :
      (g m a d : ℕ)
      → a ≡ (g + m) % 2 ^ 64
      → ((d == a) || (d == (a + 1) % 2 ^ 64)) ≡ true
      → (n : ℕ) × (m ≤ n) × (n ≤ m + 1) × (d ≡ (g + n) % 2 ^ 64)
  moved g m a d e h = elim (Bool-cases (d == a)) [
    | inl y ↦ (m, omega arith, omega arith, ground (arith, y, e))
    | inr z ↦
        let f : d ≡ (a + 1) % 2 ^ 64 = ground (arith, h, z) in
        (m + 1, omega arith, omega arith, omega (arith, e, f))
  ]

  run_events-Ticks :
      (os : List Occurrence) (c : Controller) (g m : ℕ)
      → others os ≡ true
      → c.sync_running ≡ true
      → c.state_generation ≡ (g + m) % 2 ^ 64
      → ((run_events os c).captured ≡ c.captured)
        × ((n : ℕ) × (m ≤ n)
            × (n ≤ m + length os)
            × ((run_events os c).state_generation ≡ (g + n) % 2 ^ 64))
  unfolding run_events others
  run_events-Ticks [] c g m f h e = (refl, (m, omega arith, omega arith, e))
  run_events-Ticks (o ∷ os) c g m f h e =
      let (quiet, rest) = and_true (is_other o.event) (others os) f in
      let w : Since c (step o.calls o.reread o.event c) = step_once o c h quiet in
      let (n, low, high, e2) = moved g m c.state_generation _ e w.ticks in
      let (same, (n2, low2, high2, e3)) =
        run_events-Ticks os (step o.calls o.reread o.event c) g n rest (w.kept ∙ h) e2 in
      (same ∙ w.same, (n2, omega (arith, low, low2), omega (arith, high, high2), e3))

  -- The answer of a synchronisation during which an operation was dispatched is thrown away, whatever
  -- happens before the answer but for the answer of a synchronisation, and fewer than 2^64 - 1 events:
  -- it changes nothing but the mark that a synchronisation runs. The operation may have finished, and
  -- others may have been dispatched.
  pub synced-dispatch :
      (k : Calls) (r : Answer) (j : Job) (c : Controller) (os : List Occurrence)
      → c.state_generation < 2 ^ 64
      → c.sync_running ≡ false
      → c.busy ≡ false
      → c.shutting_down ≡ false
      → c.adding_account ≡ false
      → others os ≡ true
      → length os + 1 < 2 ^ 64
      → synced k r (run_events os (dispatch j (sync_shared_state c)))
        ≡ record (run_events os (dispatch j (sync_shared_state c))) { sync_running = false }
  synced-dispatch k r j c os g a b d e f l =
      let (x, y, z) = begun j c a b d e in
      let (same, (n, low, high, w)) =
        run_events-Ticks os (dispatch j (sync_shared_state c)) c.state_generation 1 f x z in
      late k r (run_events os (dispatch j (sync_shared_state c)))
        (λ t. omega (arith, g, l, low, high, w, same, y, t))
