-- ===== src/Concurrency.antt =====
-- Observing the concurrency governor: packages/nanolab/src/nanolab/tasks/loadtest/concurrency.py.
-- Limits, requests in flight, queue depths and event counters are natural numbers. Times and
-- latencies are Python floats, which are a type parameter `F`.
pub mod Samples
pub mod Dip
pub mod Response
pub mod Trajectory
pub mod Watcher
mod Examples
