-- ===== src/Cleanup.antt =====
-- Durable ownership of generated soak resources: the class CleanupState and the Compose resource of
-- packages/nanolab/src/nanolab/tasks/soak/retention.py, and the reader of its journal in
-- tasks/soak/teardown.py.
pub mod Journal
pub mod State
pub mod Ledger
pub mod Disk
pub mod Guarantees
pub mod Compose
pub mod Examples
