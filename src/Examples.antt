-- ===== src/Examples.antt =====
-- Concrete libraries, and the theorems at concrete inputs.
pub mod Toys
pub mod Crypto
pub mod Wire
pub mod Vault
pub mod Contents
pub mod Interface
pub mod Agent
pub mod Client
pub mod Commands
pub mod Addresses
pub mod Passwords
pub mod Sessions
pub mod Restoring
pub mod Settings
pub mod Program
pub mod Startup
