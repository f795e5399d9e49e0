-- ===== src/Config.antt =====
-- client/src/config_manager.cpp: the rules for the address of the server, the settings, and the
-- stored sessions.
pub mod Url
pub mod Settings
pub mod Sessions
