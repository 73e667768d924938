-- ===== src/Build.antt =====
-- internal/executor/build: the tasks of a build, their statuses, and the choice of the next task.
mod Defs
pub mod Status
pub mod Next
pub mod Create
unfoldable pub use Defs.*
