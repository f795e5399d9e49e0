-- ===== src/Cli/Leaving.antt =====
-- What the commands of client/src/main.cpp leave of the secrets.
use nox_vault.Vault.Password.{initialize, rotate_password}
use nox_vault.Agent.Channel.{Socket}
use nox_vault.Libraries.Json.{JsonLib}
use nox_vault.Libraries.Sodium.{Random, Sodium}
use nox_vault.Errors.{Result-cases, Result, err, ok}
use nox_vault.Common.{
  eq_text, if◌then◌else◌, inr, true, not, false, inl, Bool, ap, arith, List, Text, refl, ◌≡◌, ◌∷◌,
  [], ◌∙◌,
}
use nox_vault.Vault.Residue.{initialize-Leaves, rotate_password-Leaves, unlock_with_password-Leaves}
use nox_vault.Effects.{new_password, password, confirmation, Api, vault_key, erase_buffer}
use nox_vault.Cli.{
  passwd_confirmed, passwd_old, passwd_command, init_confirmed, init_first, passwd_next,
  init_command, ◌>>=◌, on_vault, there, drop_secret, Terminal, Cli, then_run, read_line, take_line,
  init_lines, unlock_line, unlock_command, passwd_lines, lock_if,
}

module _ ⦃S : Sodium⦄ ⦃J : JsonLib⦄ ⦃R : Random⦄ ⦃A : Api⦄ ⦃C : Socket⦄ where
  -- A command that returns has left no secret buffer.
  unfoldable pub IsClean : Result (Unit {0}) × Terminal → Type 0
  IsClean (ok u, t) = t.world.live ≡ []
  IsClean (err e, t) = Unit {0}

  -- A line that was read leaves the world as it is.
  after_line :
      {X : Type 0} (f : Text → Cli X) (t : Terminal)
      → (line : Text) × (u : Terminal) × (u.world ≡ t.world) × (then_run f (read_line t) ≡ f line u)
  after_line f t = taken t.lines
    where
      taken :
          (l : List Text)
          → (line : Text) × (u : Terminal) × (u.world ≡ t.world)
            × (then_run f (take_line t l) ≡ f line u)
      taken [] = ([], t, refl, refl)
      taken (x ∷ xs) = (x, record t { lines = xs }, refl, refl)

  unlock_line-IsClean :
      (user_id secret : Text) (t : Terminal)
      → t.world.live ≡ []
      → IsClean (unlock_line user_id secret t)
  unfolding unlock_line erase_buffer IsClean
  unlock_line-IsClean user_id secret t h =
      ground (arith, unlock_with_password-Leaves user_id secret t.world h)

  unlock_command-IsClean :
      (user_id : Text) (t : Terminal) → t.world.live ≡ [] → IsClean (unlock_command user_id t)
  unfolding unlock_command
  unlock_command-IsClean user_id t h =
      let (line, u, w, e) = after_line (unlock_line user_id) t in
      rw e (unlock_line-IsClean user_id line u (ap (λ v. v.live) w ∙ h))

  initialized-IsClean :
      (user_id : Text) (private_metadata : Bool) (a : Text) (t : Terminal)
      → t.world.live ≡ []
      → IsClean (
          then_run
            (λ key. drop_secret vault_key)
            (on_vault (initialize user_id a private_metadata) t))
  unfolding erase_buffer IsClean
  initialized-IsClean user_id private_metadata a t h =
      elim (Result-cases (initialize user_id a private_metadata t.world).0) [
        | inl (key, q) ↦
            ground (arith, q, initialize-Leaves user_id a private_metadata t.world key h q)
        | inr (e, q) ↦ ground (arith, q)
      ]

  either-IsClean :
      (b : Bool) (m n : Cli (Unit {0})) (t : Terminal)
      → IsClean (m t)
      → IsClean (n t)
      → IsClean ((if b then m else n) t)
  either-IsClean true m n t v w = v
  either-IsClean false m n t v w = w

  init_lines-IsClean :
      (user_id : Text) (private_metadata : Bool) (a b : Text) (t : Terminal)
      → t.world.live ≡ confirmation ∷ password ∷ []
      → IsClean (init_lines user_id private_metadata a b t)
  unfolding init_lines erase_buffer IsClean
  init_lines-IsClean user_id private_metadata a b t h =
      either-IsClean (not (eq_text a b)) _ _ t tt (
        initialized-IsClean user_id private_metadata a
          (record t {
            world = record t.world {
              live = erase_buffer password (erase_buffer confirmation t.world.live);
            };
          })
          (rw h refl))

  rotated-IsClean :
      (user_id old next : Text) (t : Terminal)
      → t.world.live ≡ []
      → IsClean
          (then_run (λ u. (there >>= lock_if)) (on_vault (rotate_password user_id old next) t))
  unfolding IsClean lock_if
  rotated-IsClean user_id old next t h =
      elim (Result-cases (rotate_password user_id old next t.world).0) [
        | inl (u, q) ↦ ground (arith, q, rotate_password-Leaves user_id old next t.world h q)
        | inr (e, q) ↦ ground (arith, q)
      ]

  passwd_lines-IsClean :
      (user_id old next confirm : Text) (t : Terminal)
      → t.world.live ≡ confirmation ∷ new_password ∷ password ∷ []
      → IsClean (passwd_lines user_id old next confirm t)
  unfolding passwd_lines erase_buffer IsClean lock_if
  passwd_lines-IsClean user_id old next confirm t h =
      either-IsClean (not (eq_text next confirm)) _ _ t tt (
        rotated-IsClean user_id old next
          (record t {
            world = record t.world {
              live =
                  erase_buffer password
                    (erase_buffer new_password (erase_buffer confirmation t.world.live));
            };
          })
          (rw h refl))

  init_confirmed-IsClean :
      (user_id : Text) (private_metadata : Bool) (a b : Text) (t : Terminal)
      → t.world.live ≡ password ∷ []
      → IsClean (init_confirmed user_id private_metadata a b t)
  unfolding init_confirmed
  init_confirmed-IsClean user_id private_metadata a b t h =
      init_lines-IsClean user_id private_metadata a b
        (record t { world = record t.world { live = confirmation ∷ t.world.live } })
        (ap (λ l. confirmation ∷ l) h)

  init_first-IsClean :
      (user_id : Text) (private_metadata : Bool) (a : Text) (t : Terminal)
      → t.world.live ≡ []
      → IsClean (init_first user_id private_metadata a t)
  unfolding init_first
  init_first-IsClean user_id private_metadata a t h =
      let (b, u, w, e) =
        after_line (init_confirmed user_id private_metadata a)
          (record t { world = record t.world { live = password ∷ t.world.live } }) in
      rw e (
        init_confirmed-IsClean user_id private_metadata a b u
          (ap (λ v. v.live) w ∙ ap (λ l. password ∷ l) h))

  init_command-IsClean :
      (user_id : Text) (private_metadata : Bool) (t : Terminal)
      → t.world.live ≡ []
      → IsClean (init_command user_id private_metadata t)
  unfolding init_command
  init_command-IsClean user_id private_metadata t h =
      let (a, u, w, e) = after_line (init_first user_id private_metadata) t in
      rw e (init_first-IsClean user_id private_metadata a u (ap (λ v. v.live) w ∙ h))

  passwd_confirmed-IsClean :
      (user_id old next confirm : Text) (t : Terminal)
      → t.world.live ≡ new_password ∷ password ∷ []
      → IsClean (passwd_confirmed user_id old next confirm t)
  unfolding passwd_confirmed
  passwd_confirmed-IsClean user_id old next confirm t h =
      passwd_lines-IsClean user_id old next confirm
        (record t { world = record t.world { live = confirmation ∷ t.world.live } })
        (ap (λ l. confirmation ∷ l) h)

  passwd_next-IsClean :
      (user_id old next : Text) (t : Terminal)
      → t.world.live ≡ password ∷ []
      → IsClean (passwd_next user_id old next t)
  unfolding passwd_next
  passwd_next-IsClean user_id old next t h =
      let (c, u, w, e) =
        after_line (passwd_confirmed user_id old next)
          (record t { world = record t.world { live = new_password ∷ t.world.live } }) in
      rw e (
        passwd_confirmed-IsClean user_id old next c u
          (ap (λ v. v.live) w ∙ ap (λ l. new_password ∷ l) h))

  passwd_old-IsClean :
      (user_id old : Text) (t : Terminal) → t.world.live ≡ [] → IsClean (passwd_old user_id old t)
  unfolding passwd_old
  passwd_old-IsClean user_id old t h =
      let (next, u, w, e) =
        after_line (passwd_next user_id old)
          (record t { world = record t.world { live = password ∷ t.world.live } }) in
      rw e (passwd_next-IsClean user_id old next u (ap (λ v. v.live) w ∙ ap (λ l. password ∷ l) h))

  passwd_command-IsClean :
      (user_id : Text) (t : Terminal) → t.world.live ≡ [] → IsClean (passwd_command user_id t)
  unfolding passwd_command
  passwd_command-IsClean user_id t h =
      let (old, u, w, e) = after_line (passwd_old user_id) t in
      rw e (passwd_old-IsClean user_id old u (ap (λ v. v.live) w ∙ h))

  -- The commands `init`, `unlock` and `passwd`, when they return without an exception, have wiped
  -- every password that was typed and the vault key, if no secret buffer was there before.
  pub commands-IsClean :
      (user_id : Text) (private_metadata : Bool) (t : Terminal)
      → t.world.live ≡ []
      → IsClean (init_command user_id private_metadata t)
        × IsClean (unlock_command user_id t)
        × IsClean (passwd_command user_id t)
  commands-IsClean user_id private_metadata t h = (
    init_command-IsClean user_id private_metadata t h,
    unlock_command-IsClean user_id t h,
    passwd_command-IsClean user_id t h,
  )
