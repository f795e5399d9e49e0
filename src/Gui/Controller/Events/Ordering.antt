-- ===== src/Gui/Controller/Events/Ordering.antt =====
-- How the operations of the interface that run beside each other meet.
use nox_vault.Common.{lit, Text, arith, true, List, false, ◌∷◌, ◌≡◌, []}
use nox_vault.Gui.Controller.{
  Job, Controller, Desktop, dispatch, clear_sensitive, hide_sensitive, held, keep_copy, set_notice,
  adding, revealing, copying, changing,
}
use nox_vault.Gui.Controller.Jobs.{finished, complete, answered, refresh_secrets}
use nox_vault.Gui.Answers.{flag_at, text_at, Account, text}
use nox_vault.Gui.Secrets.{Qt}
use nox_vault.Clipboard.{Calls, unix, copy_to_clipboard}
use nox_vault.Errors.{Result}

module _ ⦃Q : Qt⦄ ⦃D : Desktop⦄ where
  -- What a pending operation shows when the answer holds the value `t`.
  pub arrives : List Job → Text → Text
  arrives (revealing name ∷ l) t = t
  arrives l t = []

  -- Where there is no clipboard, copying a secret ends the program: the exception of the copy leaves
  -- the slot.
  pub finished-copying :
      (k : Calls) (reread : Result (List Account)) (name t : Text) (c : Controller)
      → D.platform ≡ unix
      → c.shutting_down ≡ false
      → c.pending ≡ (copying name) ∷ []
      → (finished k reread ((lit "value", text t) ∷ []) c).crashed ≡ true
  unfolding finished answered complete flag_at text_at keep_copy copy_to_clipboard held
  finished-copying k reread name t c u s p = ground (arith, u)

  -- The notice that a secret was added is gone before it is shown: the refresh that follows clears it.
  pub finished-adding :
      (k : Calls) (reread : Result (List Account)) (name value : Text) (c : Controller)
      → c.shutting_down ≡ false
      → c.pending ≡ (adding name value) ∷ []
      → ((finished k reread [] c).notice ≡ []) × ((finished k reread [] c).busy ≡ true)
  unfolding finished answered complete flag_at text_at refresh_secrets set_notice dispatch
  finished-adding k reread name value c s p = ground arith

  -- After the master password was changed the interface asks to unlock, with the list of the secrets
  -- still there.
  pub finished-changing :
      (k : Calls) (reread : Result (List Account)) (current next : Text) (c : Controller)
      → c.shutting_down ≡ false
      → c.pending ≡ (changing current next) ∷ []
      → ((finished k reread [] c).screen ≡ lit "unlock")
        × ((finished k reread [] c).model ≡ c.model)
  unfolding finished answered complete flag_at text_at set_notice clear_sensitive hide_sensitive
  finished-changing k reread current next c s p = ground arith
