-- ===== src/Executor.antt =====
-- internal/executor: the placement of tasks, the reports of the agent, and the loop that runs a build.
pub mod Artifacts
pub mod BlobCache
pub mod Placement
pub mod Rpc
pub mod Run
pub mod TaskFilter
