-- ===== src/Config/Url.antt =====
-- `validate_server_url` of client/src/config_manager.cpp.
pub mod Accepts
use nox_vault.Common.{
  drop, length, leb, message, starts_with, not, lit, eq_text, contains, ℕ, false, ◌||◌, ◌&&◌, ◌==◌,
  [], Bool, if◌then◌else◌, Text, ◌∷◌, true,
}
use nox_vault.Errors.{std_exception, configuration_error, guard, Result, ◌>>=◌, ◌>>◌}

-- url.find_first_of(chars) != npos
abbrev pub contains_any : Text → Text → Bool
contains_any [] s = false
contains_any (c ∷ cs) s = contains c s || contains_any cs s

abbrev is_end : ℕ → Bool
is_end c = c == b'/' || c == b'?' || c == b'#'

-- The part before the first of "/?#", and whether there is one.
unfoldable pub split_authority : Text → Text × Bool
split_authority [] = ([], false)
split_authority (c ∷ s) =
    let rest = split_authority s in if is_end c then ([], true) else (c ∷ rest.0, rest.1)

unfoldable pub is_loopback : Text → Bool
is_loopback a =
    eq_text a (lit "localhost")
    || starts_with (lit "localhost:") a
    || eq_text a (lit "127.0.0.1")
    || starts_with (lit "127.0.0.1:") a
    || eq_text a (lit "[::1]")
    || starts_with (lit "[::1]:") a

check_authority : Bool → Bool → Text × Bool → Result (Unit {0})
check_authority https http (authority, ended) = do
  guard
      (not (eq_text authority [] || contains b'@' authority || contains_any (lit " \t") authority))
      (configuration_error
        (message "Server URL must contain a valid authority without user information"))
  guard (not ended)
      (configuration_error (message "Server URL must not contain a path, query, or fragment"))
  guard (https || (http && is_loopback authority)) (
      configuration_error
        (message "Server URL must use HTTPS; HTTP is allowed only for loopback development"))

-- `substr` of a position past the end throws `std::out_of_range`.
unfoldable pub validate_server_url : Text → Result (Unit {0})
unfolding check_authority
validate_server_url url = do
  guard (not (eq_text url [] || contains_any (lit "\r\n") url))
      (configuration_error (message "Invalid server URL"))
  let https = starts_with (lit "https://") url
  let scheme_size : ℕ = if https then 8 else 7
  guard (leb scheme_size (length url)) std_exception
  check_authority https (starts_with (lit "http://") url) (split_authority (drop scheme_size url))
