-- ===== src/Soak.antt =====
-- packages/nanolab/src/nanolab/tasks/soak: the measurement of a soak run.
-- Lifecycle, Measure and Terminal are workflow.py, Evaluation is evaluate.py.
pub mod Lifecycle
pub mod Measure
pub mod Terminal
pub mod Evaluation
mod Examples
