-- ===== src/Config/Settings/Changing.antt =====
-- A configuration that loads still loads after `set` of client/src/config_manager.cpp, with the one
-- setting changed.
use nox_vault.Config.Settings.Loading.{IsRead-load, load-IsRead, IsRead}
use nox_vault.Config.Settings.Members.{
  Differs-server_url, among_ind, Differs-language, Differs-color, put-Differs, Differs-clipboard,
  Differs-unlock, Differs-timeout, Differs-start_locked, Differs,
}
use nox_vault.Libraries.Json.{JsonLib}
use nox_vault.Config.Settings.Numbers.{stored_number, number_or}
use nox_vault.Config.Settings.{
  all_keys, load, check_url, ClientConfig, among, check_config, set, setting,
}
use nox_vault.Errors.{Result-cases, ok}
use nox_vault.Common.{arith, eq_text, Text, inl, some, ◌≡◌, if◌then◌else◌, true, inr, lit}

-- The settings after a successful `set`.
unfoldable pub updated : Text → Text → ClientConfig → ClientConfig
unfolding number_or
updated key value c =
    if eq_text key (lit "server_url")
    then record c { server_url = some value }
    else if eq_text key (lit "timeout_seconds")
    then record c { timeout_seconds = number_or c.timeout_seconds value }
    else if eq_text key (lit "unlock_timeout_seconds")
    then record c { unlock_timeout_seconds = number_or c.unlock_timeout_seconds value }
    else if eq_text key (lit "clipboard_timeout_seconds")
    then record c { clipboard_timeout_seconds = number_or c.clipboard_timeout_seconds value }
    else if eq_text key (lit "start_locked")
    then record c { start_locked = eq_text value (lit "true") }
    else if eq_text key (lit "color")
    then record c { color = value }
    else if eq_text key (lit "language")
    then record c { language = value }
    else c

module _ ⦃J : JsonLib⦄ where
  pub set-Differs :
      (key value : Text) (j j' : J.Json)
      → J.is_object j ≡ true
      → set key value j ≡ ok j'
      → (v : J.Json) × (setting key value ≡ ok v) × Differs j key (some v) j'
  unfolding set
  set-Differs key value j j' o e = elim (Result-cases (setting key value)) [
    | inr (x, q) ↦ absurd (ground (arith, e, q))
    | inl (v, q) ↦
        let same : J.put j key v ≡ j' = ground (arith, e, q) in
        (v, q, rw (← same) (put-Differs j v key o))
  ]

  set_server_url-load :
      (value : Text) (j j' : J.Json) (c : ClientConfig)
      → IsRead j c
      → check_config c ≡ ok tt
      → set (lit "server_url") value j ≡ ok j'
      → load j' ≡ ok (record c { server_url = some value })
  unfolding setting check_config check_url
  set_server_url-load value j j' c r k e =
      let (v, q, d) = set-Differs (lit "server_url") value j j' r.object e in
      IsRead-load j' (record c { server_url = some value })
        (Differs-server_url j j' (some v) c (some value) r d
          (ground (arith, q, J.as_text-text value)))
        (ground (arith, q, k, J.as_text-text value))

  set_timeout-load :
      (value : Text) (j j' : J.Json) (c : ClientConfig)
      → IsRead j c
      → check_config c ≡ ok tt
      → set (lit "timeout_seconds") value j ≡ ok j'
      → load j' ≡ ok (record c { timeout_seconds = number_or c.timeout_seconds value })
  unfolding setting check_config check_url
  set_timeout-load value j j' c r k e =
      let (v, q, d) = set-Differs (lit "timeout_seconds") value j j' r.object e in
      IsRead-load j' (record c { timeout_seconds = number_or c.timeout_seconds value })
        (Differs-timeout j j' (some v) c (number_or c.timeout_seconds value) r d
          (ground (arith, q, stored_number value (lit "timeout_seconds") c.timeout_seconds v q)))
        (ground (arith, q, k, stored_number value (lit "timeout_seconds") c.timeout_seconds v q))

  set_unlock-load :
      (value : Text) (j j' : J.Json) (c : ClientConfig)
      → IsRead j c
      → check_config c ≡ ok tt
      → set (lit "unlock_timeout_seconds") value j ≡ ok j'
      → load j'
        ≡ ok (record c { unlock_timeout_seconds = number_or c.unlock_timeout_seconds value })
  unfolding setting check_config check_url
  set_unlock-load value j j' c r k e =
      let (v, q, d) = set-Differs (lit "unlock_timeout_seconds") value j j' r.object e in
      IsRead-load j'
        (record c { unlock_timeout_seconds = number_or c.unlock_timeout_seconds value })
        (Differs-unlock j j' (some v) c (number_or c.unlock_timeout_seconds value) r d (
          ground (
            arith,
            q,
            stored_number value (lit "unlock_timeout_seconds") c.unlock_timeout_seconds v q,
          )))
        (ground (
          arith,
          q,
          k,
          stored_number value (lit "unlock_timeout_seconds") c.unlock_timeout_seconds v q,
        ))

  set_clipboard-load :
      (value : Text) (j j' : J.Json) (c : ClientConfig)
      → IsRead j c
      → check_config c ≡ ok tt
      → set (lit "clipboard_timeout_seconds") value j ≡ ok j'
      → load j'
        ≡ ok (record c { clipboard_timeout_seconds = number_or c.clipboard_timeout_seconds value })
  unfolding setting check_config check_url
  set_clipboard-load value j j' c r k e =
      let (v, q, d) = set-Differs (lit "clipboard_timeout_seconds") value j j' r.object e in
      IsRead-load j'
        (record c { clipboard_timeout_seconds = number_or c.clipboard_timeout_seconds value })
        (Differs-clipboard j j' (some v) c (number_or c.clipboard_timeout_seconds value) r d (
          ground (
            arith,
            q,
            stored_number value (lit "clipboard_timeout_seconds") c.clipboard_timeout_seconds v q,
          )))
        (ground (
          arith,
          q,
          k,
          stored_number value (lit "clipboard_timeout_seconds") c.clipboard_timeout_seconds v q,
        ))

  set_start_locked-load :
      (value : Text) (j j' : J.Json) (c : ClientConfig)
      → IsRead j c
      → check_config c ≡ ok tt
      → set (lit "start_locked") value j ≡ ok j'
      → load j' ≡ ok (record c { start_locked = eq_text value (lit "true") })
  unfolding setting check_config check_url
  set_start_locked-load value j j' c r k e =
      let (v, q, d) = set-Differs (lit "start_locked") value j j' r.object e in
      IsRead-load j' (record c { start_locked = eq_text value (lit "true") })
        (Differs-start_locked j j' (some v) c (eq_text value (lit "true")) r d
          (ground (arith, q, J.as_bool-bool (eq_text value (lit "true")))))
        (ground (arith, q, k, J.as_bool-bool (eq_text value (lit "true"))))

  set_color-load :
      (value : Text) (j j' : J.Json) (c : ClientConfig)
      → IsRead j c
      → check_config c ≡ ok tt
      → set (lit "color") value j ≡ ok j'
      → load j' ≡ ok (record c { color = value })
  unfolding setting check_config check_url
  set_color-load value j j' c r k e =
      let (v, q, d) = set-Differs (lit "color") value j j' r.object e in
      IsRead-load j' (record c { color = value })
        (Differs-color j j' (some v) c (value) r d (ground (arith, q, J.as_text-text value)))
        (ground (arith, q, k, J.as_text-text value))

  set_language-load :
      (value : Text) (j j' : J.Json) (c : ClientConfig)
      → IsRead j c
      → check_config c ≡ ok tt
      → set (lit "language") value j ≡ ok j'
      → load j' ≡ ok (record c { language = value })
  unfolding setting check_config check_url
  set_language-load value j j' c r k e =
      let (v, q, d) = set-Differs (lit "language") value j j' r.object e in
      IsRead-load j' (record c { language = value })
        (Differs-language j j' (some v) c (value) r d (ground (arith, q, J.as_text-text value)))
        (ground (arith, q, k, J.as_text-text value))

  pub set-among :
      (key value : Text) (j j' : J.Json) → set key value j ≡ ok j' → among key all_keys ≡ true
  unfolding set setting
  set-among key value j j' e = ground (arith, e)

  -- If the document is an object that loads and `set` takes the value, then the document that it
  -- stores loads, and only the setting of that key has changed: it is the value given, as text, as
  -- the number that it begins with, or as the truth value.
  pub set-load :
      (key value : Text) (j j' : J.Json) (c : ClientConfig)
      → J.is_object j ≡ true
      → load j ≡ ok c
      → set key value j ≡ ok j'
      → load j' ≡ ok (updated key value c)
  unfolding updated
  set-load key value j j' c o l e =
      let (r, k) = load-IsRead j c o l in
      among_ind (λ key. (set key value j ≡ ok j' → load j' ≡ ok (updated key value c))) all_keys
        (
          set_server_url-load value j j' c r k,
          (
            set_timeout-load value j j' c r k,
            (
              set_unlock-load value j j' c r k,
              (
                set_clipboard-load value j j' c r k,
                (
                  set_start_locked-load value j j' c r k,
                  (set_color-load value j j' c r k, (set_language-load value j j' c r k, tt)),
                ),
              ),
            ),
          ),
        )
        key (set-among key value j j' e) e
