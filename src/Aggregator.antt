-- ===== src/Aggregator.antt =====
-- packages/nanolab/src/nanolab/tui/event_aggregator.py and tui/models.py: the phases and the log of a
-- run, folded from its events. Phases are shared and mutable, so they stand in a store by address.
pub mod Phases
pub mod Store
pub mod Events
mod Examples
