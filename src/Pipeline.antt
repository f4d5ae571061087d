-- ===== src/Pipeline.antt =====
-- From a claimed row to its end: app/agents/scan_graph.py, app/agents/runner.py,
-- app/modules/scans/executor.py and app/worker/tasks.py.
pub mod Graph
pub mod Executor
pub mod Terminal
pub mod Finish
pub mod Atomic
pub mod Track
pub mod Dedup
pub mod Worker
pub mod Rows
pub mod Refines
pub mod Flight
pub mod Recovery
pub mod Severities
mod Samples
