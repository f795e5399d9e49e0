-- ===== src/Gui/Generator/Passwords.antt =====
-- What a generated password is: its length, where its characters come from, and that no class that
-- was asked for is missing.
use nox_vault.Common.{length, Bool, List, ◌<◌, ◌∷◌, Text, ◌≡◌, [], ℕ}
use nox_vault.Gui.Generator.{join}
use nox_vault.Gui.Generator.Counts.{count}

pub Filled : List Text → Type 0
Filled [] = Unit {0}
Filled (t ∷ ts) = (0 < length t) × Filled ts

-- A character of each class stands in the text.
pub Covers : List Text → Text → Type 0
Covers [] u = Unit {0}
Covers (t ∷ ts) u = ((x : ℕ) × (0 < count x t) × (0 < count x u)) × Covers ts u

-- A password of `n` characters, all from the selected classes, each of which has a character in it.
pub record IsPassword (n : ℕ) (selected : List Text) (t : Text) : Type 0 where
  pub size : length t ≡ n
  pub drawn : (x : ℕ) → 0 < count x t → 0 < count x (join selected)
  pub covers : Covers selected t

AllFilled : List (Bool × Text) → Type 0
AllFilled [] = Unit {0}
AllFilled ((b, t) ∷ cs) = (0 < length t) × AllFilled cs
