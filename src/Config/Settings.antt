-- ===== src/Config/Settings.antt =====
-- `load`, `set`, `unset` and the address in force of client/src/config_manager.cpp, on the JSON value
-- of the file (an empty object if there is no file). Reading and writing the file are not modelled.
pub mod Loading
pub mod Members
pub mod Numbers
pub mod Changing
pub mod Resetting
pub mod Showing
pub mod Restating
use nox_vault.Config.Url.{validate_server_url}
use nox_vault.Models.Wire.{text_of, member_or, if_present}
use nox_vault.Common.{
  true, is_some, message, is_positive, eq_text, leb, negsuc, ltb, Bool, lit, ◌∷◌, false, ◌-◌, ◌++◌,
  inl, if◌then◌else◌, ◌||◌, ◌^◌, none, ℤ, some, suc, inr, Option, [], ◌+◌, ◌⊎◌, zero, Text, ◌*◌, ℕ,
  ◌&&◌, pos, List, ◌==◌,
}
use nox_vault.Libraries.Json.{JsonLib}
use nox_vault.Errors.{
  configuration_error, json_exception, guard, rethrow, Result, err, ok, ◌>>=◌, ◌>>◌,
}

pub record ClientConfig : Type 0 where
  pub server_url : Option Text
  pub timeout_seconds : ℤ
  pub color : Text
  pub unlock_timeout_seconds : ℤ
  pub clipboard_timeout_seconds : ℤ
  pub start_locked : Bool
  pub language : Text

abbrev pub among : Text → List Text → Bool
among t [] = false
among t (u ∷ us) = eq_text t u || among t us

abbrev pub colors : List Text
colors = lit "auto" ∷ lit "always" ∷ lit "never" ∷ []

abbrev pub languages : List Text
languages = lit "en" ∷ lit "ru" ∷ lit "pl" ∷ lit "de" ∷ lit "cs" ∷ []

abbrev pub numeric_keys : List Text
numeric_keys =
    lit "timeout_seconds" ∷ lit "unlock_timeout_seconds" ∷ lit "clipboard_timeout_seconds" ∷ []

abbrev pub all_keys : List Text
all_keys =
    lit "server_url"
    ∷ lit "timeout_seconds"
    ∷ lit "unlock_timeout_seconds"
    ∷ lit "clipboard_timeout_seconds"
    ∷ lit "start_locked"
    ∷ lit "color"
    ∷ lit "language"
    ∷ []

-- std::isspace in the C locale
is_space : ℕ → Bool
is_space c = c == 32 || (leb 9 c && leb c 13)

skip_spaces : Text → Text
unfolding is_space
skip_spaces [] = []
skip_spaces (c ∷ s) = let rest = skip_spaces s in if is_space c then rest else c ∷ s

is_digit : ℕ → Bool
is_digit c = leb b'0' c && leb c b'9'

-- The value of the digits at the front; what follows them is ignored.
digits_value : ℕ → Text → ℕ
unfolding is_digit
digits_value n [] = n
digits_value n (c ∷ s) =
    let rest = digits_value (n * 10 + (c - b'0')) s in if is_digit c then rest else n

signed : Text → ℤ ⊎ (Unit {0})
unfolding is_digit digits_value
signed [] = inr tt
signed (c ∷ s) = if is_digit c then inl (pos (digits_value 0 (c ∷ s))) else inr tt

negate : ℤ ⊎ (Unit {0}) → ℤ ⊎ (Unit {0})
negate (inl (pos zero)) = inl (pos zero)
negate (inl (pos (suc n))) = inl (negsuc n)
negate (inl (negsuc n)) = inl (pos (suc n))
negate (inr u) = inr u

after_sign : Text → ℤ ⊎ (Unit {0})
unfolding signed negate
after_sign [] = inr tt
after_sign (c ∷ s) =
    if c == b'-' then negate (signed s) else if c == b'+' then signed s else signed (c ∷ s)

in_long : ℤ ⊎ (Unit {0}) → Option ℤ
in_long (inl (pos n)) = if ltb n (2 ^ 63) then some (pos n) else none
in_long (inl (negsuc n)) = if ltb n (2 ^ 63) then some (negsuc n) else none
in_long (inr u) = none

-- std::stol with a `long` of 64 bits: leading white space, a sign, digits; what follows is ignored.
unfoldable pub stol : Text → Option ℤ
unfolding skip_spaces after_sign in_long
stol s = in_long (after_sign (skip_spaces s))

unfoldable pub parse_positive : Text → Text → Result ℤ
parse_positive value key = elim (stol value) [
  | some n ↦
      if is_positive n
      then ok n
      else err (configuration_error (key ++ message " must be a positive integer"))
  | none ↦ err (configuration_error (key ++ message " must be a positive integer"))
]

module _ ⦃J : JsonLib⦄ where
  -- j.value(key, fallback): on a value that is no object it throws
  unfoldable pub member : {X : Type 0} → (J.Json → Option X) → X → J.Json → Text → Result X
  member get fallback j key =
      if J.is_object j then member_or get fallback (J.at j key) else err json_exception

  unfoldable pub read_config : J.Json → Result ClientConfig
  unfolding member
  read_config j = do
    server_url ← if_present text_of (J.at j (lit "server_url"))
    timeout ← member J.as_long (pos 15) j (lit "timeout_seconds")
    color ← member J.as_text (lit "auto") j (lit "color")
    unlock ← member J.as_long (pos 900) j (lit "unlock_timeout_seconds")
    clipboard ← member J.as_long (pos 30) j (lit "clipboard_timeout_seconds")
    start_locked ← member J.as_bool false j (lit "start_locked")
    language ← member J.as_text (lit "en") j (lit "language")
    ok (record {
      server_url = server_url;
      timeout_seconds = timeout;
      color = color;
      unlock_timeout_seconds = unlock;
      clipboard_timeout_seconds = clipboard;
      start_locked = start_locked;
      language = language;
    })

  unfoldable pub check_url : Option Text → Result (Unit {0})
  check_url none = ok tt
  check_url (some url) = validate_server_url url

  unfoldable pub check_config : ClientConfig → Result (Unit {0})
  unfolding check_url
  check_config c = do
    check_url c.server_url
    guard
        (is_positive c.timeout_seconds
          && is_positive c.unlock_timeout_seconds
          && is_positive c.clipboard_timeout_seconds)
        (configuration_error (message "Configuration timeouts must be positive"))
    guard (among c.color colors)
        (configuration_error (message "color must be auto, always, or never"))
    guard (among c.language languages)
        (configuration_error (message "language must be en, ru, pl, de, or cs"))

  unfoldable pub load : J.Json → Result ClientConfig
  unfolding read_config check_config
  load j = do
    c ←
        rethrow (λ _. configuration_error (message "Configuration contains invalid value types"))
          (read_config j)
    check_config c
    ok c

  -- The JSON value that `set` stores under the key.
  unfoldable pub setting : Text → Text → Result J.Json
  setting key value =
      if eq_text key (lit "server_url")
      then (do validate_server_url value; ok (J.text value))
      else if among key numeric_keys
      then (do n ← parse_positive value key; ok (J.int n))
      else if eq_text key (lit "start_locked")
      then (do
        guard (eq_text value (lit "true") || eq_text value (lit "false"))
            (configuration_error (message "start_locked must be true or false"))
        ok (J.bool (eq_text value (lit "true"))))
      else if eq_text key (lit "color")
      then (do
        guard (among value colors)
            (configuration_error (message "color must be auto, always, or never"))
        ok (J.text value))
      else if eq_text key (lit "language")
      then (do
        guard (among value languages)
            (configuration_error (message "language must be en, ru, pl, de, or cs"))
        ok (J.text value))
      else err (configuration_error (message "Unknown configuration key: " ++ key))

  unfoldable pub set : Text → Text → J.Json → Result J.Json
  set key value j = do v ← setting key value; ok (J.put j key v)

  unfoldable pub unset : Text → J.Json → Result J.Json
  unset key j = do
    guard (among key all_keys) (configuration_error (message "Unknown configuration key: " ++ key))
    ok (J.erase j key)

  unfoldable pub url_or : Text → Option Text → Text
  url_or fallback none = fallback
  url_or fallback (some url) = url

  -- The fallback is the address that the build sets.
  unfoldable pub effective_server_url : Text → J.Json → Result Text
  unfolding url_or
  effective_server_url fallback j = do
    c ← load j
    validate_server_url (url_or fallback c.server_url)
    ok (url_or fallback c.server_url)

  pub has_server_override : J.Json → Result Bool
  has_server_override j = do c ← load j; ok (is_some c.server_url)
