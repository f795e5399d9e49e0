-- ===== src/Gui/Generator.antt =====
-- client/src/gui/password_generator.cpp. The generator of random numbers passes its state on.
pub mod Counts
pub mod Passwords
use nox_vault.Common.{
  ltb, message, get_or, not, set, negsuc, leb, lit, length, ℕ, ℤ, Bool, Text, List, ◌++◌, [],
  if◌then◌else◌, suc, ◌-◌, pos, ◌∷◌, false, ◌==◌, ◌&&◌, zero,
}
use nox_vault.Errors.{nox_error, Result, err, ok}
use nox_vault.Libraries.Sodium.{Random}

-- Each class, where it is enabled.
unfoldable pub select : List (Bool × Text) → List Text
select [] = []
select ((enabled, class) ∷ rest) =
    let others = select rest in if enabled then class ∷ others else others

abbrev pub classes : Bool → Bool → Bool → Bool → List (Bool × Text)
classes upper lower numbers symbols =
    (upper, lit "ABCDEFGHIJKLMNOPQRSTUVWXYZ")
    ∷ (lower, lit "abcdefghijklmnopqrstuvwxyz")
    ∷ (numbers, lit "0123456789")
    ∷ (symbols, lit "!@#$%^&*()-_=+[]{}:,.?")
    ∷ []

unfoldable pub join : List Text → Text
join [] = []
join (t ∷ ts) = t ++ join ts

-- std::swap(output[i], output[j])
unfoldable pub swap : ℕ → ℕ → Text → Text
swap i j t = set (set t i (get_or t j 0)) j (get_or t i 0)

-- `int`: a negative length is too short.
length_allowed : ℤ → Bool
length_allowed (pos n) = leb 8 n && leb n 256
length_allowed (negsuc n) = false

size_of : ℤ → ℕ
size_of (pos n) = n
size_of (negsuc n) = 0

module _ ⦃R : Random⦄ where
  unfoldable pub pick : Text → R.State → ℕ × R.State
  pick t s = let (i, s') = R.uniform (length t) s in (get_or t i 0, s')

  unfoldable pub pick_each : List Text → R.State → Text × R.State
  pick_each [] s = ([], s)
  pick_each (t ∷ ts) s =
      let (c, s') = pick t s in let (rest, s'') = pick_each ts s' in (c ∷ rest, s'')

  unfoldable pub fill : ℕ → Text → R.State → Text × R.State
  fill zero alphabet s = ([], s)
  fill (suc n) alphabet s =
      let (c, s') = pick alphabet s in let (rest, s'') = fill n alphabet s' in (c ∷ rest, s'')

  -- The loop from index `i` down to 1.
  unfoldable pub shuffle : ℕ → Text → R.State → Text × R.State
  shuffle zero t s = (t, s)
  shuffle (suc i) t s = let (j, s') = R.uniform (suc (suc i)) s in shuffle i (swap (suc i) j t) s'

  -- One character of each class, then characters of all of them, then the shuffle.
  unfoldable pub generate : ℕ → List Text → R.State → Text × R.State
  generate n selected s =
      let (first, s') = pick_each selected s in
      let (more, s'') = fill (n - length selected) (join selected) s' in
      shuffle (n - 1) (first ++ more) s''

  returned : Text × R.State → Result Text × R.State
  returned (t, s) = (ok t, s)

  unfoldable pub generate_password : ℤ → Bool → Bool → Bool → Bool → R.State → Result Text × R.State
  unfolding length_allowed size_of returned
  generate_password size upper lower numbers symbols s =
      let selected = select (classes upper lower numbers symbols) in
      if not (length_allowed size)
      then (err (nox_error (message "Password length must be between 8 and 256")), s)
      else if length selected == 0
      then (err (nox_error (message "Select at least one character class")), s)
      else if ltb (size_of size) (length selected)
      then (err (nox_error (message "Password is too short for the selected character classes")), s)
      else returned (generate (size_of size) selected s)
