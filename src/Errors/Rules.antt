-- ===== src/Errors/Rules.antt =====
-- What a computation may return and what it may throw, with one rule for each way to build it.
use nox_vault.Common.{if◌then◌else◌, Bool, true, false, Option, none, some, ◌≡◌, refl}
use mathlib.Core.Path.{subst}
use nox_vault.Errors.{Error, Result, ok, err, guard, or_throw, rethrow, ◌>>=◌, ◌>>◌}

-- Every value that `m` returns has `P`.
pub record Yields {ℓ κ} {A : Type ℓ} (P : A → Type κ) (m : Result A) : Type (ℓ ⊔ κ) where
  pub at : (a : A) → m ≡ ok a → P a

-- Every error that `m` throws has `P`.
pub record Throws {ℓ κ} {A : Type ℓ} (P : Error → Type κ) (m : Result A) : Type (ℓ ⊔ κ) where
  pub at : (e : Error) → m ≡ err e → P e

module _ {ℓ κ} {A : Type ℓ} {P : Error → Type κ} where
  pub Throws-ok : (a : A) → Throws P (ok a)
  Throws-ok a = record { at = λ e h. absurd (cc h) }

  pub Throws-err : (e : Error) → P e → Throws {A = A} P (err e)
  Throws-err e p = record { at = λ e' h. subst P (cc h) p }

  pub Throws-or_throw : (e : Error) (o : Option A) → P e → Throws P (or_throw e o)
  Throws-or_throw e none p = Throws-err e p
  Throws-or_throw e (some a) p = Throws-ok a

  pub Throws-if :
      (b : Bool) (m n : Result A) → Throws P m → Throws P n → Throws P (if b then m else n)
  Throws-if true m n tm tn = tm
  Throws-if false m n tm tn = tn

  pub Throws-rethrow :
      (Q : Error → Type κ) (f : Error → Error) (m : Result A)
      → Throws Q m
      → ((e : Error) → Q e → P (f e))
      → Throws P (rethrow f m)
  Throws-rethrow Q f (ok a) q keep = Throws-ok a
  Throws-rethrow Q f (err e) q keep = Throws-err (f e) (keep e (q.at e refl))

module _ {ℓ κ} {A B : Type ℓ} {P : Error → Type κ} where
  pub Throws-bind :
      (m : Result A) (f : A → Result B)
      → Throws P m
      → ((a : A) → Throws P (f a))
      → Throws P (m >>= f)
  Throws-bind (ok a) f t k = k a
  Throws-bind (err e) f t k = Throws-err e (t.at e refl)

module _ {ℓ κ} {B : Type ℓ} {P : Error → Type κ} where
  pub Throws-guard :
      (b : Bool) (e : Error) (m : Result B) → P e → Throws P m → Throws P (guard b e >> m)
  Throws-guard true e m p t = t
  Throws-guard false e m p t = Throws-err e p

module _ {κ} {P : Error → Type κ} where
  pub Throws-check : (b : Bool) (e : Error) → P e → Throws P (guard b e)
  Throws-check true e p = Throws-ok tt
  Throws-check false e p = Throws-err e p

module _ {ℓ κ} {A : Type ℓ} {P : A → Type κ} where
  pub Yields-ok : (a : A) → P a → Yields P (ok a)
  Yields-ok a p = record { at = λ a' h. subst P (cc h) p }

  pub Yields-err : (e : Error) → Yields P (err e)
  Yields-err e = record { at = λ a h. absurd (cc h) }

  pub Yields-rethrow : (f : Error → Error) (m : Result A) → Yields P m → Yields P (rethrow f m)
  Yields-rethrow f (ok a) y = Yields-ok a (y.at a refl)
  Yields-rethrow f (err e) y = Yields-err (f e)

  pub Yields-guard :
      (b : Bool) (e : Error) (m : Result A) → (b ≡ true → Yields P m) → Yields P (guard b e >> m)
  Yields-guard true e m y = y refl
  Yields-guard false e m y = Yields-err e

module _ {ℓ κ} {A B : Type ℓ} {P : B → Type κ} where
  pub Yields-bind :
      (m : Result A) (f : A → Result B) → ((a : A) → m ≡ ok a → Yields P (f a)) → Yields P (m >>= f)
  Yields-bind (ok a) f y = y a refl
  Yields-bind (err e) f y = Yields-err e

pub ruleset throws_rules =
    (Throws-ok, Throws-err, Throws-or_throw, Throws-bind, Throws-guard, Throws-check, Throws-if)

pub ruleset yields_rules = (Yields-ok, Yields-err, Yields-bind, Yields-guard)

-- A chain that returns has returned in its first step.
pub bind-ok {ℓ ℓ'} :
    {A : Type ℓ} {B : Type ℓ'} (m : Result A) (f : A → Result B) (b : B)
    → (m >>= f) ≡ ok b
    → (a : A) × (m ≡ ok a) × (f a ≡ ok b)
bind-ok (ok a) f b e = (a, refl, e)
bind-ok (err x) f b e = absurd (cc e)

pub rethrow-ok {ℓ} :
    {A : Type ℓ} (f : Error → Error) (m : Result A) (a : A) → rethrow f m ≡ ok a → m ≡ ok a
rethrow-ok f (ok x) a e = e
rethrow-ok f (err x) a e = absurd (cc e)

pub guard-ok : (b : Bool) (e : Error) → guard b e ≡ ok tt → b ≡ true
guard-ok true e h = refl
guard-ok false e h = absurd (cc h)
