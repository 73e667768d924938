-- ===== src/Tests.antt =====
-- Tests of the definitions on small inputs, and instances of the theorems.
mod Builds
mod Checks
mod Agents
mod Filters
mod Parsing
mod Steps
mod Blobs
mod Trees
mod Workers
mod Configs
