-- ===== src/Config/Settings/Showing.antt =====
-- `get` of client/src/config_manager.cpp, and what it shows after `set`.
use nox_vault.Config.Settings.Members.{among_ind}
use nox_vault.Config.Settings.Numbers.{number_or}
use nox_vault.Config.Settings.{
  in_long, signed, after_sign, is_space, skip_spaces, stol, set, parse_positive, is_digit, all_keys,
  ClientConfig, url_or, effective_server_url, numeric_keys, setting, load, digits_value, among,
}
use nox_vault.Config.Settings.Changing.{set-load, set-among, set-Differs, updated}
use nox_vault.Libraries.Json.{JsonLib}
use nox_vault.Common.{
  refl, sym, ap, ◌∙◌, some, ◌*◌, eq_text→eq, ◌-◌, Bool-cases, arith, inl, inr, message, eq_text,
  ltb, negsuc, Text, ◌∷◌, ℕ, ◌<◌, ◌%◌, ◌≡◌, ◌^◌, zero, true, ◌/◌, ℤ, pos, ◌++◌, suc, ◌+◌,
  if◌then◌else◌, false, [], lit,
}
use nox_vault.Errors.{configuration_error, Result, ok, err, ◌>>=◌}

-- The decimal digits of a number, before those of `acc`; a number below 10 ^ f has at most `f` digits.
digits : ℕ → ℕ → Text → Text
digits zero n acc = acc
digits (suc f) n acc = elim (ltb n 10) [
  | true ↦ (b'0' + n) ∷ acc
  | false ↦ digits f (n / 10) ((b'0' + n % 10) ∷ acc)
]

-- std::to_string of a `long` of 64 bits, which has at most 19 digits
unfoldable pub to_string : ℤ → Text
unfolding digits
to_string (pos n) = digits 19 n []
to_string (negsuc n) = b'-' ∷ digits 19 (suc n) []

-- The digits of a number read as the number.
digits_value-digits :
    (f n : ℕ) (acc : Text)
    → n < 10 ^ suc f
    → digits_value 0 (digits (suc f) n acc) ≡ digits_value n acc
unfolding digits digits_value is_digit
digits_value-digits zero n acc h = ground (arith, h)
digits_value-digits (suc f) n acc h = elim (Bool-cases (ltb n 10)) [
  | inl small ↦ ground (arith, small)
  | inr large ↦
      let same : n / 10 * 10 + (b'0' + n % 10 - b'0') ≡ n = omega arith in
      let digit : is_digit (b'0' + n % 10) ≡ true = ground arith in
      let rest : digits_value 0 (digits (suc f) (n / 10) ((b'0' + n % 10) ∷ acc))
          ≡ digits_value (n / 10) ((b'0' + n % 10) ∷ acc) =
        digits_value-digits f (n / 10) ((b'0' + n % 10) ∷ acc) (omega arith) in
      ground (arith, large, rest, same, digit)
]

StartsWithDigit : Text → Type 0
StartsWithDigit t = (c : ℕ) × (s : Text) × (t ≡ c ∷ s) × (is_digit c ≡ true)

digits-first : (f n : ℕ) (acc : Text) → StartsWithDigit (digits (suc f) n acc)
unfolding digits StartsWithDigit is_digit
digits-first zero n acc = elim (Bool-cases (ltb n 10)) [
  | inl small ↦ (b'0' + n, acc, rw (digits, small) refl, ground (arith, small))
  | inr large ↦ (b'0' + n % 10, acc, rw (digits, large) refl, ground arith)
]
digits-first (suc f) n acc = elim (Bool-cases (ltb n 10)) [
  | inl small ↦ (b'0' + n, acc, rw (digits, small) refl, ground (arith, small))
  | inr large ↦
      let (c, s, e, d) = digits-first f (n / 10) ((b'0' + n % 10) ∷ acc) in
      (c, s, rw (digits, large) e, d)
]

stol-digit :
    (c : ℕ) (s : Text) (n : ℕ)
    → is_digit c ≡ true
    → digits_value 0 (c ∷ s) ≡ n
    → n < 2 ^ 63
    → stol (c ∷ s) ≡ some (pos n)
unfolding stol skip_spaces is_space is_digit after_sign signed in_long
stol-digit c s n d v h = ground (arith, d, v, h)

stol-digits : (f n : ℕ) → n < 10 ^ suc f → n < 2 ^ 63 → stol (digits (suc f) n []) ≡ some (pos n)
unfolding StartsWithDigit digits_value
stol-digits f n b h =
    let (c, s, e, d) = digits-first f n [] in
    rw (e) (stol-digit c s n d (ap (digits_value 0) (sym e) ∙ digits_value-digits f n [] b) h)

-- A `long` of 64 bits that is not negative is printed as a text that `std::stol` reads back.
pub stol-to_string : (n : ℕ) → n < 2 ^ 63 → stol (to_string (pos n)) ≡ some (pos n)
unfolding to_string
stol-to_string n h = stol-digits 18 n (omega arith) h

module _ ⦃J : JsonLib⦄ where
  -- The fallback is the address that the build sets.
  unfoldable pub get : Text → Text → J.Json → Result Text
  unfolding to_string
  get fallback key j = do
    c ← load j
    (if eq_text key (lit "server_url")
        then effective_server_url fallback j
        else if eq_text key (lit "timeout_seconds")
        then ok (to_string c.timeout_seconds)
        else if eq_text key (lit "unlock_timeout_seconds")
        then ok (to_string c.unlock_timeout_seconds)
        else if eq_text key (lit "clipboard_timeout_seconds")
        then ok (to_string c.clipboard_timeout_seconds)
        else if eq_text key (lit "start_locked")
        then ok (if c.start_locked then lit "true" else lit "false")
        else if eq_text key (lit "color")
        then ok c.color
        else if eq_text key (lit "language")
        then ok c.language
        else err (configuration_error (message "Unknown configuration key: " ++ key)))

  -- What `get` shows for a value that `set` takes: a number as the number that it begins with, and
  -- any other value as it was given.
  unfoldable pub displayed : Text → Text → Text
  displayed key value =
      if among key numeric_keys then to_string (number_or (pos 0) value) else value

  get-updated :
      (fallback value : Text) (j' : J.Json) (c : ClientConfig) (key : Text)
      → among key all_keys ≡ true
      → load j' ≡ ok (updated key value c)
      → (v : J.Json) → setting key value ≡ ok v
      → get fallback key j' ≡ ok (displayed key value)
  unfolding get displayed updated setting parse_positive effective_server_url number_or url_or
  get-updated fallback value j' c key a =
      among_ind
        (λ key.
          (load j' ≡ ok (updated key value c)
            → (v : J.Json) → setting key value ≡ ok v
            → get fallback key j' ≡ ok (displayed key value)))
        all_keys
        (
          (λ l v q. ground (arith, l, q)),
          (
            (λ l v q. ground (arith, l, q)),
            (
              (λ l v q. ground (arith, l, q)),
              (
                (λ l v q. ground (arith, l, q)),
                (
                  (λ l v q.
                      ground (
                        arith,
                        l,
                        q,
                        eq_text→eq value (lit "true"),
                        eq_text→eq value (lit "false"),
                      )),
                  ((λ l v q. ground (arith, l, q)), ((λ l v q. ground (arith, l, q)), tt)),
                ),
              ),
            ),
          ),
        )
        key a

  -- If the document is an object that loads and `set` takes the value, `get` of the key on the
  -- document that it stores shows the value: as it was given, or, for a timeout, as the number that
  -- it begins with.
  pub get-set :
      (fallback key value : Text) (j j' : J.Json) (c : ClientConfig)
      → J.is_object j ≡ true
      → load j ≡ ok c
      → set key value j ≡ ok j'
      → get fallback key j' ≡ ok (displayed key value)
  get-set fallback key value j j' c o l e =
      let (v, q, d) = set-Differs key value j j' o e in
      get-updated fallback value j' c key (set-among key value j j' e)
        (set-load key value j j' c o l e) v q
