-- ===== src/Dataset/Laws.antt =====
-- What holds of the samples that the dataset layer makes.
pub mod Contract
pub mod Selecting
pub mod Building
pub mod Dense
