-- ===== src/Parser/Defs.antt =====
-- pkg/parser/task/task.go: what pkg/parser reads and writes of a task through task.ParseableTaskLike.
use cirrus_cli.Prelude.{ℕ, String, List}

-- task.ParseableTaskLike, by its accessors
pub record TaskLike : Type 0 where
  pub id : ℕ
  pub name : String
  pub alias : String
  pub fallback_name : String
  pub depends_on_names : List String
  pub depends_on_ids : List ℕ
  pub only_if_expression : String
