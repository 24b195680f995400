-- ===== src/Autoscaling.antt =====
-- packages/nanolab/src/nanolab/tasks/loadtest/autoscaling.py: the readings of replica counts under load,
-- and the verdict on scaling up and down.
pub mod Releases
pub mod Watching
pub mod Verify
mod Examples
