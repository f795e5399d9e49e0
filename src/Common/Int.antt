-- ===== src/Common/Int.antt =====
-- Signed integers, as far as the client computes with them: it compares them with constants.
use Prim.Native.Nat.{ℕ}
use mathlib.Core.Bool.{Bool, false}
use nox_vault.Common.Tests.{◌==◌, ltb}

-- `negsuc n` is -(n + 1).
pub data ℤ : Type 0 where
  pos : ℕ → ℤ
  negsuc : ℕ → ℤ

-- z == n
abbrev pub is_int : ℕ → ℤ → Bool
is_int n (pos m) = m == n
is_int n (negsuc m) = false

-- z > 0
abbrev pub is_positive : ℤ → Bool
is_positive (pos m) = ltb 0 m
is_positive (negsuc m) = false
