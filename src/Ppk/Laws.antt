-- ===== src/Ppk/Laws.antt =====
-- What holds of the PPK scripts.
pub mod Bytes
pub mod Messages
pub mod Streams
pub mod Epochs
pub mod Storing
pub mod Ledger
pub mod Running
pub mod Fingerprints
pub mod Windows
pub mod Planning
pub mod Navigation
pub mod Scheduling
pub mod Selecting
