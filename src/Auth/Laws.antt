-- ===== src/Auth/Laws.antt =====
-- What holds of sessions and accounts.
pub mod Admins
pub mod Sessions
