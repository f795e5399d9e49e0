-- ===== src/Gui.antt =====
-- The parts of the graphical client under client/src/gui that keep data of their own.
pub mod Generator
pub mod Secrets
pub mod Answers
pub mod Controller
pub mod Operations
