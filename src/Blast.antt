-- ===== src/Blast.antt =====
-- The blast command of a site: its device configuration and pending rows, the start and the reset
-- of a trigger, the acknowledgment by a device, and the expiry of a trigger that is left on.
pub mod Values
pub mod Tables
pub mod Trigger
pub mod Ack
pub mod Expiry
pub mod Reconcile
pub mod Config
pub mod Status
pub mod Laws
