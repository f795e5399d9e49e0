-- ===== src/Gui/Generator/Counts.antt =====
-- How often a character stands in a text, and that swapping keeps it.
use nox_vault.Common.{
  length-set, set, get_or, length, arith, Text, ℕ, refl, [], ◌<◌, suc, ◌+◌, ◌≡◌, if◌then◌else◌, ◌∷◌,
  ◌==◌, ◌++◌, ◌≤◌, zero,
}
use nox_vault.Gui.Generator.{swap, shuffle}
use nox_vault.Libraries.Sodium.{Random}

unfoldable pub hit : ℕ → ℕ → ℕ
hit x y = if x == y then 1 else 0

unfoldable pub count : ℕ → Text → ℕ
count x [] = 0
count x (y ∷ t) = hit x y + count x t

pub count-append : (x : ℕ) (t u : Text) → count x (t ++ u) ≡ count x t + count x u
unfolding count
count-append x [] u = omega arith
count-append x (y ∷ t) u = omega (arith, count-append x t u)

count-set :
    (x : ℕ) (t : Text) (i v : ℕ)
    → i < length t
    → count x (set t i v) + hit x (get_or t i 0) ≡ count x t + hit x v
unfolding count
count-set x [] i v h = absurd (omega arith)
count-set x (y ∷ t) zero v h = omega arith
count-set x (y ∷ t) (suc i) v h = omega (arith, count-set x t i v (omega arith))

get_or-set_same : (t : Text) (i j : ℕ) → get_or (set t i (get_or t j 0)) j 0 ≡ get_or t j 0
get_or-set_same [] i j = refl
get_or-set_same (y ∷ t) zero zero = refl
get_or-set_same (y ∷ t) zero (suc j) = refl
get_or-set_same (y ∷ t) (suc i) zero = refl
get_or-set_same (y ∷ t) (suc i) (suc j) = get_or-set_same t i j

count-swap : (x i j : ℕ) (t : Text) → i < length t → j < length t → count x (swap i j t) ≡ count x t
unfolding swap
count-swap x i j t hi hj =
    let v = get_or t j 0 in
    let same : get_or (set t i v) j 0 ≡ v = get_or-set_same t i j in
    let one = count-set x t i v hi in
    let two = count-set x (set t i v) j (get_or t i 0) (omega (arith, length-set t i v)) in
    omega (arith, one, rw same at two)

length-swap : (i j : ℕ) (t : Text) → length (swap i j t) ≡ length t
unfolding swap
length-swap i j t =
    rw (length-set (set t i (get_or t j 0)) j (get_or t i 0), length-set t i (get_or t j 0))

module _ ⦃R : Random⦄ where
  pub length-shuffle : (i : ℕ) (t : Text) (s : R.State) → length (shuffle i t s).0 ≡ length t
  unfolding shuffle
  length-shuffle zero t s = refl
  length-shuffle (suc i) t s = rw (
    length-shuffle i (swap (suc i) (R.uniform (suc (suc i)) s).0 t) (R.uniform (suc (suc i)) s).1,
    length-swap (suc i) (R.uniform (suc (suc i)) s).0 t,
  )

  -- The shuffle rearranges the characters and changes none.
  pub count-shuffle :
      (x i : ℕ) (t : Text) (s : R.State) → suc i ≤ length t → count x (shuffle i t s).0 ≡ count x t
  unfolding shuffle
  count-shuffle x zero t s h = refl
  count-shuffle x (suc i) t s h =
      let j = (R.uniform (suc (suc i)) s).0 in
      let small : j < suc (suc i) = R.uniform_lt (suc (suc i)) s (omega arith) in
      rw (
        count-shuffle x i (swap (suc i) j t) (R.uniform (suc (suc i)) s).1
            (omega (arith, length-swap (suc i) j t)),
        count-swap x (suc i) j t (omega arith) (omega arith),
      )
