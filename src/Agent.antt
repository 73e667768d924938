-- ===== src/Agent.antt =====
-- internal/agent: the pure parts of the agent that runs the commands of a task.
pub mod Shellwords
pub mod Environment
pub mod UpdateBatcher
pub mod Hasher
pub mod CacheAttempts
pub mod CachePaths
pub mod Steps
pub mod Vault
pub mod Logs
