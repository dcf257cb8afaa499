-- ===== src/Examples.antt =====
-- Concrete inputs on which the theorems are applied.
mod Blast
mod Serving
mod Registry
mod Split
mod Upload
mod Dataset
mod Worker
mod Schedule
mod Reconcile
mod Auth
