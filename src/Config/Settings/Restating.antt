-- ===== src/Config/Settings/Restating.antt =====
-- Setting what is displayed: `get` and then `set` of client/src/config_manager.cpp.
use nox_vault.Config.Settings.Members.{among_ind}
use nox_vault.Models.Wire.{member_or}
use nox_vault.Config.Settings.Loading.{load-IsRead, IsRead}
use nox_vault.Config.Settings.Numbers.{number_or}
use nox_vault.Config.Settings.Changing.{set-load, updated}
use nox_vault.Libraries.Json.{JsonLib}
use nox_vault.Common.{
  Bool, refl, negsuc, Option-cases, ap, is_positive, arith, Option, eq_text, Text, ℕ, ℤ,
  if◌then◌else◌, false, ◌∙◌, some, inr, pos, ◌<◌, ◌^◌, true, ◌≡◌, inl, none, lit,
}
use nox_vault.Config.Settings.{
  stol, colors, all_keys, languages, among, parse_positive, ClientConfig, set, setting, load,
}
use nox_vault.Config.Settings.Showing.{get, to_string, stol-to_string}
use nox_vault.Errors.{Result-cases, ok, ◌>>=◌}
use nox_vault.Config.Settings.{check_config}

module _ ⦃J : JsonLib⦄ where
  -- The value that is displayed can be set, and changes nothing.
  Restates : Text → Text → ClientConfig → Type 0
  Restates key v c = ((x : J.Json) × (setting key v ≡ ok x)) × (updated key v c ≡ c)

  member-bound :
      (d n : ℕ) (m : Option J.Json)
      → d < 2 ^ 63
      → member_or J.as_long (pos d) m ≡ ok (pos n)
      → n < 2 ^ 63
  member-bound d n none h e = ground (arith, h, e)
  member-bound d n (some j) h e = elim (Option-cases (J.as_long j)) [
    | inl q ↦ absurd (ground (arith, e, q))
    | inr (z, q) ↦
        let same : z ≡ pos n = ground (arith, e, q) in J.as_long-bound j n (q ∙ ap some same)
  ]

  -- A positive number that is printed is parsed.
  parse_printed :
      (z : ℤ) (d : ℕ) (m : Option J.Json)
      → d < 2 ^ 63
      → member_or J.as_long (pos d) m ≡ ok z
      → is_positive z ≡ true
      → stol (to_string z) ≡ some z
  parse_printed (pos n) d m h e p = stol-to_string n (member-bound d n m h e)
  parse_printed (negsuc n) d m h e p = absurd (ground (arith, p))

  number_restated :
      (key v : Text) (z old : ℤ)
      → stol v ≡ some z
      → is_positive z ≡ true
      → ((do n ← parse_positive v key; ok (J.int n)) ≡ ok (J.int z)) × (number_or old v ≡ z)
  unfolding parse_positive number_or
  number_restated key v z old e p = ground (arith, e, p)

  allowed :
      (c : ClientConfig)
      → check_config c ≡ ok tt
      → (is_positive c.timeout_seconds ≡ true)
        × (is_positive c.unlock_timeout_seconds ≡ true)
        × (is_positive c.clipboard_timeout_seconds ≡ true)
        × (among c.color colors ≡ true)
        × (among c.language languages ≡ true)
  unfolding check_config
  allowed c k = ground (arith, k)

  timeout-Restates :
      (fallback v : Text) (j : J.Json) (c : ClientConfig)
      → IsRead j c
      → check_config c ≡ ok tt
      → load j ≡ ok c
      → get fallback (lit "timeout_seconds") j ≡ ok v
      → Restates (lit "timeout_seconds") v c
  unfolding get Restates setting updated
  timeout-Restates fallback v j c r k l e =
      let displayed : to_string c.timeout_seconds ≡ v = ground (arith, l, e) in
      let positive : is_positive c.timeout_seconds ≡ true = (allowed c k).0 in
      let reads : stol v ≡ some c.timeout_seconds = rw (← displayed) (
        parse_printed c.timeout_seconds 15 (J.at j (lit "timeout_seconds")) (omega arith) r.timeout
          positive) in
      let (q, p) =
        number_restated (lit "timeout_seconds") v c.timeout_seconds c.timeout_seconds reads
          positive in
      ((J.int c.timeout_seconds, q), ap (λ x. record c { timeout_seconds = x }) p)

  unlock-Restates :
      (fallback v : Text) (j : J.Json) (c : ClientConfig)
      → IsRead j c
      → check_config c ≡ ok tt
      → load j ≡ ok c
      → get fallback (lit "unlock_timeout_seconds") j ≡ ok v
      → Restates (lit "unlock_timeout_seconds") v c
  unfolding get Restates setting updated
  unlock-Restates fallback v j c r k l e =
      let displayed : to_string c.unlock_timeout_seconds ≡ v = ground (arith, l, e) in
      let positive : is_positive c.unlock_timeout_seconds ≡ true = (allowed c k).1 in
      let reads : stol v ≡ some c.unlock_timeout_seconds = rw (← displayed) (
        parse_printed c.unlock_timeout_seconds 900 (J.at j (lit "unlock_timeout_seconds"))
          (omega arith) r.unlock positive) in
      let (q, p) =
        number_restated (lit "unlock_timeout_seconds") v c.unlock_timeout_seconds
          c.unlock_timeout_seconds reads positive in
      ((J.int c.unlock_timeout_seconds, q), ap (λ x. record c { unlock_timeout_seconds = x }) p)

  clipboard-Restates :
      (fallback v : Text) (j : J.Json) (c : ClientConfig)
      → IsRead j c
      → check_config c ≡ ok tt
      → load j ≡ ok c
      → get fallback (lit "clipboard_timeout_seconds") j ≡ ok v
      → Restates (lit "clipboard_timeout_seconds") v c
  unfolding get Restates setting updated
  clipboard-Restates fallback v j c r k l e =
      let displayed : to_string c.clipboard_timeout_seconds ≡ v = ground (arith, l, e) in
      let positive : is_positive c.clipboard_timeout_seconds ≡ true = (allowed c k).2 in
      let reads : stol v ≡ some c.clipboard_timeout_seconds = rw (← displayed) (
        parse_printed c.clipboard_timeout_seconds 30 (J.at j (lit "clipboard_timeout_seconds"))
          (omega arith) r.clipboard positive) in
      let (q, p) =
        number_restated (lit "clipboard_timeout_seconds") v c.clipboard_timeout_seconds
          c.clipboard_timeout_seconds reads positive in
      (
        (J.int c.clipboard_timeout_seconds, q),
        ap (λ x. record c { clipboard_timeout_seconds = x }) p,
      )

  flag_restated :
      (b : Bool)
      → (eq_text (if b then lit "true" else lit "false") (lit "true") ≡ b)
        × (setting (lit "start_locked") (if b then lit "true" else lit "false") ≡ ok (J.bool b))
  unfolding setting
  flag_restated true = (refl, refl)
  flag_restated false = (refl, refl)

  start_locked-Restates :
      (fallback v : Text) (j : J.Json) (c : ClientConfig)
      → load j ≡ ok c
      → get fallback (lit "start_locked") j ≡ ok v
      → Restates (lit "start_locked") v c
  unfolding get Restates setting updated
  start_locked-Restates fallback v j c l e =
      let displayed : (if c.start_locked then lit "true" else lit "false") ≡ v =
        ground (arith, l, e) in
      let (same, q) = flag_restated c.start_locked in
      rw (← displayed) ((J.bool c.start_locked, q), ap (λ x. record c { start_locked = x }) same)

  color-Restates :
      (fallback v : Text) (j : J.Json) (c : ClientConfig)
      → check_config c ≡ ok tt
      → load j ≡ ok c
      → get fallback (lit "color") j ≡ ok v
      → Restates (lit "color") v c
  unfolding get Restates setting updated
  color-Restates fallback v j c k l e =
      let displayed : v ≡ c.color = ground (arith, l, e) in
      let known : among v colors ≡ true = rw displayed (allowed c k).3 in
      ((J.text v, ground (arith, known)), ap (λ x. record c { color = x }) displayed)

  language-Restates :
      (fallback v : Text) (j : J.Json) (c : ClientConfig)
      → check_config c ≡ ok tt
      → load j ≡ ok c
      → get fallback (lit "language") j ≡ ok v
      → Restates (lit "language") v c
  unfolding get Restates setting updated
  language-Restates fallback v j c k l e =
      let displayed : v ≡ c.language = ground (arith, l, e) in
      let known : among v languages ≡ true = rw displayed (allowed c k).4 in
      ((J.text v, ground (arith, known)), ap (λ x. record c { language = x }) displayed)

  get-among :
      (fallback key v : Text) (j : J.Json) → get fallback key j ≡ ok v → among key all_keys ≡ true
  unfolding get
  get-among fallback key v j e = elim (Result-cases (load j)) [
    | inr (x, l) ↦ absurd (ground (arith, e, l))
    | inl (c, l) ↦ ground (arith, e, l)
  ]

  -- If the document is an object that loads, then `set` of a key to what `get` shows for it
  -- succeeds, and the settings that load afterwards are the same, for every key but the address,
  -- for which `get` shows the address in force.
  pub set-get :
      (fallback key v : Text) (j : J.Json) (c : ClientConfig)
      → J.is_object j ≡ true
      → load j ≡ ok c
      → eq_text key (lit "server_url") ≡ false
      → get fallback key j ≡ ok v
      → (j' : J.Json) × (set key v j ≡ ok j') × (load j' ≡ ok c)
  unfolding Restates set
  set-get fallback key v j c o l n e =
      let (r, k) = load-IsRead j c o l in
      let ((x, q), same) =
        among_ind
          (λ key.
            (get fallback key j ≡ ok v → eq_text key (lit "server_url") ≡ false → Restates key v c))
          all_keys
          (
            (λ e n. absurd (cc (n))),
            (
              (λ e n. timeout-Restates fallback v j c r k l e),
              (
                (λ e n. unlock-Restates fallback v j c r k l e),
                (
                  (λ e n. clipboard-Restates fallback v j c r k l e),
                  (
                    (λ e n. start_locked-Restates fallback v j c l e),
                    (
                      (λ e n. color-Restates fallback v j c k l e),
                      ((λ e n. language-Restates fallback v j c k l e), tt),
                    ),
                  ),
                ),
              ),
            ),
          )
          key (get-among fallback key v j e) e n in
      let done : set key v j ≡ ok (J.put j key x) = ground (arith, q) in
      (J.put j key x, done, set-load key v j (J.put j key x) c o l done ∙ ap ok same)
