-- ===== src/Worker.antt =====
-- internal/worker: the resource modifiers of a worker, its tasks and instances, the resources in use,
-- and a poll of its upstreams.
pub mod ResourceModifier
pub mod Api
pub mod Resources
pub mod Tasks
pub mod Poll
