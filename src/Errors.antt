-- ===== src/Errors.antt =====
-- client/include/nox/errors.hpp: the exceptions of the client, as values, and a computation that
-- may throw one. `json_exception` stands for `nlohmann::json::exception` and `std_exception` for
-- any other exception of the standard library; the other constructors are the class `NoxError` and
-- its subclasses, each with its message.
pub mod Rules
use nox_vault.Common.{inr, ◌≡◌, inl, refl, ◌⊎◌, ℕ, Text, Bool, true, false, Option, none, some}

pub data Error : Type 0 where
  nox_error network_error authentication_error crypto_error invalid_master_password : Text → Error
  secret_not_found configuration_error api_compatibility_error : Text → Error
  server_error version_conflict : ℕ → Text → Text → Error
  json_exception std_exception : Error

pub data Result {ℓ} (A : Type ℓ) : Type ℓ where
  ok : A → Result A
  err : Error → Result A

-- `catch (const CryptoError &)`: the class and its subclass `InvalidMasterPassword`.
abbrev pub is_crypto : Error → Bool
is_crypto (crypto_error m) = true
is_crypto (invalid_master_password m) = true
is_crypto _ = false

-- `catch (const nlohmann::json::exception &)`.
abbrev pub is_json : Error → Bool
is_json json_exception = true
is_json _ = false

abbrev pub or_throw {ℓ} : {A : Type ℓ} → Error → Option A → Result A
or_throw e none = err e
or_throw e (some a) = ok a

-- A handler on the error alone: `try { m } catch ...` where the handlers throw again.
abbrev pub rethrow {ℓ} : {A : Type ℓ} → (Error → Error) → Result A → Result A
rethrow f (ok a) = ok a
rethrow f (err e) = err (f e)

-- if (!test) throw failure;
abbrev pub guard : (test : Bool) (failure : Error) → Result (Unit {0})
guard false failure = err failure
guard true failure = ok tt

-- The first exception ends the computation.
infixl 5 ◌>>=◌ ◌>>◌
abbrev pub ◌>>=◌ {ℓ ℓ'} : {A : Type ℓ} {B : Type ℓ'} (m : Result A) (k : A → Result B) → Result B
err thrown >>= k = err thrown
ok returned >>= k = k returned

abbrev pub ◌>>◌ {ℓ} : {B : Type ℓ} (test : Result (Unit {0})) (rest : Result B) → Result B
test >> rest = test >>= λ _. rest

-- To split on a computed result and keep the equation.
pub Result-cases {ℓ} :
    {A : Type ℓ} (r : Result A) → ((a : A) × (r ≡ ok a)) ⊎ ((e : Error) × (r ≡ err e))
Result-cases (ok a) = inl (a, refl)
Result-cases (err e) = inr (e, refl)
