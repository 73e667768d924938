-- ===== src/Worker/Tasks/Moves.antt =====
-- internal/worker: the moves that the worker's loop and the goroutines of its tasks make, in any
-- order.
use cirrus_cli.Prelude.{ℕ, String, Bool, List, [], ◌∷◌, Outcome, returns, ◌>>=◌}
use cirrus_cli.Worker.Api.{Api}
use cirrus_cli.Worker.Tasks.{
  Worker, AgentAwareTask, start_task, end_task, stop_task, register_task_completions,
  try_create_standby, update_standby,
}

module _ (A : Api) where
  -- a call of one of the worker's methods with the answers of what it calls, or the end of the
  -- goroutine of a task
  pub data Move : Type 0 where
    creates_standby : Bool → Bool → Move
    starts : ℕ → AgentAwareTask A → Bool → Move
    ends : String → Move
    stops : String → Move
    registers : Move
    updates : A.Parameters → Move

  unfoldable pub step : Move → Worker A → Outcome (Worker A)
  unfolding start_task end_task stop_task register_task_completions try_create_standby
      update_standby
  step (creates_standby created warmed) w =
      try_create_standby A created warmed w >>= λ r. returns r.0
  step (starts upstream t answer) w = start_task A upstream t answer w
  step (ends k) w = returns (end_task A k w)
  step (stops k) w = returns (stop_task A k w)
  step registers w = returns (register_task_completions A w)
  step (updates parameters) w = returns (update_standby A parameters w)

  unfoldable pub run : List Move → Worker A → Outcome (Worker A)
  unfolding step
  run [] w = returns w
  run (m ∷ ms) w = step m w >>= run ms
