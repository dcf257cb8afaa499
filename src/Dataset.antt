-- ===== src/Dataset.antt =====
-- ml/domain/dataset_schema.py and ml/pipeline/windowing/temporal_windowing.py: the contract of a
-- temporal graph sample, and its assembly from observed frames.
pub mod Schema
pub mod Sample
pub mod Window
pub mod Laws
