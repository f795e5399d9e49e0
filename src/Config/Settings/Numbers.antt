-- ===== src/Config/Settings/Numbers.antt =====
-- The numbers that `set` of client/src/config_manager.cpp stores.
use nox_vault.Config.Settings.{skip_spaces, after_sign, stol, in_long, parse_positive}
use nox_vault.Libraries.Json.{JsonLib}
use nox_vault.Errors.{Result-cases, ok, ◌>>=◌}
use nox_vault.Common.{
  negsuc, arith, Option-cases, ℕ, is_positive, Text, some, ◌<◌, pos, ◌≡◌, none, inl, ℤ, ◌^◌, inr,
  ◌⊎◌, true,
}

-- The number that a text begins with, or the old one.
unfoldable pub number_or : ℤ → Text → ℤ
number_or old value = elim (stol value) [ some n ↦ n | none ↦ old ]

in_long-bound : (z : ℤ ⊎ (Unit {0})) (m : ℕ) → in_long z ≡ some (pos m) → m < 2 ^ 63
unfolding in_long
in_long-bound (inl (pos n)) m e = ground (arith, e)
in_long-bound (inl (negsuc n)) m e = ground (arith, e)
in_long-bound (inr u) m e = ground (arith, e)

module _ ⦃J : JsonLib⦄ where
  -- A number that `parse_positive` accepts is what is stored and read back.
  parsed_number :
      (value key : Text) (old n : ℤ)
      → parse_positive value key ≡ ok n
      → (number_or old value ≡ n) × (is_positive n ≡ true) × (J.as_long (J.int n) ≡ some n)
  unfolding parse_positive stol number_or
  parsed_number value key old n e = elim (Option-cases (stol value)) [
    | inl q ↦ absurd (ground (arith, e, q))
    | inr (pos m, q) ↦
        let large : m < 2 ^ 63 = in_long-bound (after_sign (skip_spaces value)) m q in
        let same : pos m ≡ n = ground (arith, e, q) in
        (ground (arith, e, q), ground (arith, e, q), rw (← same) (J.as_long-int m large))
    | inr (negsuc m, q) ↦ absurd (ground (arith, e, q))
  ]

  pub stored_number :
      (value key : Text) (old : ℤ) (v : J.Json)
      → (do n ← parse_positive value key; ok (J.int n)) ≡ ok v
      → (is_positive (number_or old value) ≡ true) × (J.as_long v ≡ some (number_or old value))
  stored_number value key old v e = elim (Result-cases (parse_positive value key)) [
    | inr (x, q) ↦ absurd (ground (arith, e, q))
    | inl (n, q) ↦ ground (arith, e, q, parsed_number value key old n q)
  ]
