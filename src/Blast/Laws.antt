-- ===== src/Blast/Laws.antt =====
-- Proofs about the blast command, one module for each concern.
pub mod Triggering
pub mod Refusing
pub mod Acknowledging
pub mod Expiring
pub mod Serving
pub mod Reconciling
pub mod Pages
pub mod Sweeping
pub mod Ending
