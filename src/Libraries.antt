-- ===== src/Libraries.antt =====
-- The third-party libraries that the client calls, as interfaces: each is a parameter of the
-- definitions that use it, with the documented behaviour that the client relies on as its laws.
pub mod Sodium
pub mod Json
