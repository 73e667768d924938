-- ===== src/Parser.antt =====
-- pkg/parser: the configuration tree, the checks on the parsed tasks, and what is done to them after.
pub mod Suffix
pub mod Defs
pub mod Validate
pub mod Dependencies
pub mod Clone
pub mod Labels
pub mod Tree
pub mod Parseable
pub mod Expander
pub mod Tasks
pub mod Services
pub mod Pipeline
pub mod Dockerfile
pub mod Boolevator
