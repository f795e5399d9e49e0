-- ===== src/Config/Settings/Resetting.antt =====
-- A configuration that loads still loads after `unset` of client/src/config_manager.cpp, with the one
-- setting back at its default.
use nox_vault.Config.Settings.Members.{
  among_ind, erase-Differs, Differs-start_locked, Differs-clipboard, Differs-timeout,
  Differs-language, Differs-server_url, Differs-color, Differs-unlock,
}
use nox_vault.Config.Settings.Loading.{IsRead-load, IsRead, load-IsRead}
use nox_vault.Libraries.Json.{JsonLib}
use nox_vault.Errors.{ok}
use nox_vault.Config.Settings.{all_keys, among, load, check_url, ClientConfig, check_config, unset}
use nox_vault.Common.{arith, eq_text, pos, if◌then◌else◌, false, Text, none, true, ◌≡◌, refl, lit}

-- The settings after `unset`.
unfoldable pub reset : Text → ClientConfig → ClientConfig
reset key c =
    if eq_text key (lit "server_url")
    then record c { server_url = none }
    else if eq_text key (lit "timeout_seconds")
    then record c { timeout_seconds = pos 15 }
    else if eq_text key (lit "unlock_timeout_seconds")
    then record c { unlock_timeout_seconds = pos 900 }
    else if eq_text key (lit "clipboard_timeout_seconds")
    then record c { clipboard_timeout_seconds = pos 30 }
    else if eq_text key (lit "start_locked")
    then record c { start_locked = false }
    else if eq_text key (lit "color")
    then record c { color = lit "auto" }
    else if eq_text key (lit "language")
    then record c { language = lit "en" }
    else c

module _ ⦃J : JsonLib⦄ where
  erase_server_url-load :
      (j : J.Json) (c : ClientConfig)
      → IsRead j c
      → check_config c ≡ ok tt
      → load (J.erase j (lit "server_url")) ≡ ok (record c { server_url = none })
  unfolding check_config check_url
  erase_server_url-load j c r k =
      IsRead-load (J.erase j (lit "server_url")) (record c { server_url = none })
        (Differs-server_url j (J.erase j (lit "server_url")) none c (none) r
          (erase-Differs j (lit "server_url") r.object) refl)
        (ground (arith, k))

  erase_timeout-load :
      (j : J.Json) (c : ClientConfig)
      → IsRead j c
      → check_config c ≡ ok tt
      → load (J.erase j (lit "timeout_seconds")) ≡ ok (record c { timeout_seconds = pos 15 })
  unfolding check_config check_url
  erase_timeout-load j c r k =
      IsRead-load (J.erase j (lit "timeout_seconds")) (record c { timeout_seconds = pos 15 })
        (Differs-timeout j (J.erase j (lit "timeout_seconds")) none c (pos 15) r
          (erase-Differs j (lit "timeout_seconds") r.object) refl)
        (ground (arith, k))

  erase_unlock-load :
      (j : J.Json) (c : ClientConfig)
      → IsRead j c
      → check_config c ≡ ok tt
      → load (J.erase j (lit "unlock_timeout_seconds"))
        ≡ ok (record c { unlock_timeout_seconds = pos 900 })
  unfolding check_config check_url
  erase_unlock-load j c r k =
      IsRead-load (J.erase j (lit "unlock_timeout_seconds"))
        (record c { unlock_timeout_seconds = pos 900 })
        (Differs-unlock j (J.erase j (lit "unlock_timeout_seconds")) none c (pos 900) r
          (erase-Differs j (lit "unlock_timeout_seconds") r.object) refl)
        (ground (arith, k))

  erase_clipboard-load :
      (j : J.Json) (c : ClientConfig)
      → IsRead j c
      → check_config c ≡ ok tt
      → load (J.erase j (lit "clipboard_timeout_seconds"))
        ≡ ok (record c { clipboard_timeout_seconds = pos 30 })
  unfolding check_config check_url
  erase_clipboard-load j c r k =
      IsRead-load (J.erase j (lit "clipboard_timeout_seconds"))
        (record c { clipboard_timeout_seconds = pos 30 })
        (Differs-clipboard j (J.erase j (lit "clipboard_timeout_seconds")) none c (pos 30) r
          (erase-Differs j (lit "clipboard_timeout_seconds") r.object) refl)
        (ground (arith, k))

  erase_start_locked-load :
      (j : J.Json) (c : ClientConfig)
      → IsRead j c
      → check_config c ≡ ok tt
      → load (J.erase j (lit "start_locked")) ≡ ok (record c { start_locked = false })
  unfolding check_config check_url
  erase_start_locked-load j c r k =
      IsRead-load (J.erase j (lit "start_locked")) (record c { start_locked = false })
        (Differs-start_locked j (J.erase j (lit "start_locked")) none c (false) r
          (erase-Differs j (lit "start_locked") r.object) refl)
        (ground (arith, k))

  erase_color-load :
      (j : J.Json) (c : ClientConfig)
      → IsRead j c
      → check_config c ≡ ok tt
      → load (J.erase j (lit "color")) ≡ ok (record c { color = lit "auto" })
  unfolding check_config check_url
  erase_color-load j c r k =
      IsRead-load (J.erase j (lit "color")) (record c { color = lit "auto" })
        (Differs-color j (J.erase j (lit "color")) none c (lit "auto") r
          (erase-Differs j (lit "color") r.object) refl)
        (ground (arith, k))

  erase_language-load :
      (j : J.Json) (c : ClientConfig)
      → IsRead j c
      → check_config c ≡ ok tt
      → load (J.erase j (lit "language")) ≡ ok (record c { language = lit "en" })
  unfolding check_config check_url
  erase_language-load j c r k =
      IsRead-load (J.erase j (lit "language")) (record c { language = lit "en" })
        (Differs-language j (J.erase j (lit "language")) none c (lit "en") r
          (erase-Differs j (lit "language") r.object) refl)
        (ground (arith, k))

  -- If the document is an object that loads and `unset` takes the key, then the document that it
  -- stores loads, and only the setting of that key has changed: it has its default again.
  pub unset-load :
      (key : Text) (j j' : J.Json) (c : ClientConfig)
      → J.is_object j ≡ true
      → load j ≡ ok c
      → unset key j ≡ ok j'
      → load j' ≡ ok (reset key c)
  unfolding unset reset
  unset-load key j j' c o l e =
      let (r, k) = load-IsRead j c o l in
      let same : J.erase j key ≡ j' = ground (arith, e) in
      let known : among key all_keys ≡ true = ground (arith, e) in
      rw (← same) (
        among_ind (λ key. load (J.erase j key) ≡ ok (reset key c)) all_keys
          (
            erase_server_url-load j c r k,
            (
              erase_timeout-load j c r k,
              (
                erase_unlock-load j c r k,
                (
                  erase_clipboard-load j c r k,
                  (
                    erase_start_locked-load j c r k,
                    (erase_color-load j c r k, (erase_language-load j c r k, tt)),
                  ),
                ),
              ),
            ),
          )
          key known)
