-- ===== src/Ppk.antt =====
-- The experimental post-processing of raw GNSS observations (PPK): scripts/ppk_qa_worker.py,
-- ppk_qa_scheduler.py and ppk_qa_backlog.py.
pub mod Bytes
pub mod Rawx
pub mod Jobs
pub mod Fingerprint
pub mod Worker
pub mod Hours
pub mod Nav
pub mod Schedule
pub mod Backlog
pub mod Laws
