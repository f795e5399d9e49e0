-- ===== src/Examples/Passwords.antt =====
-- The theorem on generated passwords at a concrete input.
use nox_vault.Examples.Toys.{toy_random}
