-- ===== src/Larker.antt =====
-- pkg/larker: the limits on the file system of a Starlark run.
pub mod Bounded
