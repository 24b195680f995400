-- ===== src/Conservation.antt =====
-- packages/nanolab/src/nanolab/tasks/one_shot/conservation.py: whether the load that was planned is the
-- load that ran. A Python set of ids is a list without repetitions, in an order that nothing reads.
pub mod IdSets
pub mod Evidence
mod Examples
