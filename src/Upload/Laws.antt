-- ===== src/Upload/Laws.antt =====
-- What holds of the upload of files.
pub mod Naming
pub mod Claims
pub mod Granting
pub mod Handling
