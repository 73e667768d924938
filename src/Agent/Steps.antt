-- ===== src/Agent/Steps.antt =====
-- internal/agent/executor/executor.go: the commands of a task as the agent runs them, one after the other.
-- What the outside answers to a step (clients, processes, files, the clock) is an argument.
pub mod Bounds
pub mod Reports
use cirrus_cli.Prelude.{
  ℕ, zero, suc, ◌-◌, String, Bool, true, false, not, ◌&&◌, Option, none, some, List, [], ◌∷◌, ◌++◌,
  leb, if◌then◌else◌, str_eq, Outcome, returns, panics, Text, has_prefix, length,
}
use cirrus_cli.Build.{ExecutionBehaviour, on_success, on_failure, on_timeout, always}
use cirrus_cli.Executor.Rpc.{Status, executing, failed, completed, skipped, CommandResult}
use cirrus_cli.Agent.UpdateBatcher.{UpdateBatcher, new, queue, flush}
use cirrus_cli.Agent.Environment.{Items, Environment, get, set, merge}

-- api.FileInstruction: its source
pub data FileSource : Type 0 where
  from_environment_variable from_contents : Text → FileSource
  other_source : FileSource

-- the instructions that performStep tells apart
pub data Instruction : Type 0 where
  exit clone script background_script cache upload_cache artifacts wait_for_terminal
        other_instruction :
      Instruction
  file : FileSource → Instruction

-- api.Command
pub record Step : Type 0 where
  pub name : String
  pub execution_behaviour : ExecutionBehaviour
  pub instruction : Instruction

-- the loop of BoundedCommands: the bounds after the commands from index i on
unfoldable pub bounds_from : ℕ → String → String → List Step → ℕ → ℕ → ℕ × ℕ
bounds_from i from_name to_name [] left right = (left, right)
bounds_from i from_name to_name (c ∷ cs) left right =
    bounds_from (suc i) from_name to_name cs
      (if not (str_eq from_name "") && str_eq c.name from_name then i else left)
      (if not (str_eq to_name "") && str_eq c.name to_name then i else right)

unfoldable pub drop : ℕ → List Step → List Step
drop zero cs = cs
drop (suc n) [] = []
drop (suc n) (c ∷ cs) = drop n cs

unfoldable pub take : ℕ → List Step → List Step
take zero cs = []
take (suc n) [] = []
take (suc n) (c ∷ cs) = c ∷ take n cs

-- `commands[left:right]`, which panics where the bounds cross
unfoldable pub slice : List Step → ℕ × ℕ → Outcome (List Step)
unfolding take drop
slice cs (left, right) =
    if leb left right then returns (take (right - left) (drop left cs)) else panics

-- BoundedCommands
unfoldable pub bounded_commands : List Step → String → String → Outcome (List Step)
unfolding slice bounds_from
bounded_commands cs from_name to_name = slice cs (bounds_from 0 from_name to_name cs 0 (length cs))

-- shouldRun; `timed_out` is the test on the error of the context
abbrev pub should_run_step : ExecutionBehaviour → Bool → Bool → Bool
should_run_step on_success failed_once timed_out = not failed_once
should_run_step on_failure failed_once timed_out = failed_once
should_run_step always failed_once timed_out = true
should_run_step on_timeout failed_once timed_out = timed_out

-- how a script ended: ExecuteScriptsStreamLogsAndWait returned no error, with the process's success and whether
-- a signal ended it, or an error
pub data ScriptEnd : Type 0 where
  exited : Bool → Bool → ScriptEnd
  script_error : ScriptEnd

-- what the outside answers in one turn of the loop: whether the context has timed out; whether the updates were
-- accepted; whether the log stream opens; the path of the CIRRUS_ENV file, if it was made; whether
-- CloneRepository, the caches, the artifacts or the terminal succeed; whether a file is written; how a script
-- ends; whether a background script starts; and the variables read from CIRRUS_ENV, none on an error
pub record Answer : Type 0 where
  pub timed_out : Bool
  pub accepts : Bool
  pub log_opens : Bool
  pub cirrus_env_path : Option Text
  pub succeeds : Bool
  pub writes_file : Bool
  pub script_end : ScriptEnd
  pub starts : Bool
  pub variables : Items

-- the fields of Executor that a step changes; of a background command, its name
pub record Executor : Type 0 where
  pub env : Environment
  pub background_commands : List String

pub record StepResult : Type 0 where
  pub success : Bool
  pub signaled_to_exit : Bool

abbrev encrypted : Text
encrypted = b'E' ∷ b'N' ∷ b'C' ∷ b'R' ∷ b'Y' ∷ b'P' ∷ b'T' ∷ b'E' ∷ b'D' ∷ []

abbrev pub cirrus_env : Text
cirrus_env = b'C' ∷ b'I' ∷ b'R' ∷ b'R' ∷ b'U' ∷ b'S' ∷ b'_' ∷ b'E' ∷ b'N' ∷ b'V' ∷ []

abbrev cirrus_env_sensitive : Text
cirrus_env_sensitive =
    cirrus_env ++ b'_' ∷ b'S' ∷ b'E' ∷ b'N' ∷ b'S' ∷ b'I' ∷ b'T' ∷ b'I' ∷ b'V' ∷ b'E' ∷ []

-- CreateFile: whether it succeeds, and the contents that it writes, if it comes to that
unfoldable pub create_file : FileSource → Bool → Environment → Bool × Option Text
unfolding get has_prefix
create_file (from_environment_variable v) writes env = elim (get v env.items) [
  | none ↦ (true, none)
  | some content ↦ if has_prefix content encrypted then (true, none) else (writes, some content)
]
create_file (from_contents content) writes env = (writes, some content)
create_file other_source writes env = (false, none)

-- the switch of performStep, without the exit instruction: the result, and the background commands after
unfoldable pub perform_instruction :
    Answer → String → Instruction → Environment → List String → StepResult × List String
unfolding create_file
perform_instruction a name exit env bg = (record { success = false; signaled_to_exit = false }, bg)
perform_instruction a name script env bg = elim a.script_end [
  | exited ok by_signal ↦ (record { success = ok; signaled_to_exit = by_signal }, bg)
  | script_error ↦ (record { success = false; signaled_to_exit = false }, bg)
]
perform_instruction a name background_script env bg = (
  record { success = a.starts; signaled_to_exit = false },
  if a.starts then bg ++ name ∷ [] else bg,
)
perform_instruction a name (file source) env bg =
    (record { success = (create_file source a.writes_file env).0; signaled_to_exit = false }, bg)
perform_instruction a name other_instruction env bg =
    (record { success = false; signaled_to_exit = false }, bg)
perform_instruction a name _ env bg =
    (record { success = a.succeeds; signaled_to_exit = false }, bg)

abbrev pub is_exit : Instruction → Bool
is_exit exit = true
is_exit _ = false

abbrev is_some : {A : Type 0} → Option A → Bool
is_some none = false
is_some (some a) = true

abbrev pub failure_result : StepResult
failure_result = record { success = false; signaled_to_exit = false }

-- the steps of a build, and their state: the executor, failedAtLeastOnce, the batcher and what it has delivered
pub record Loop : Type 0 where
  pub executor : Executor
  pub failed_once : Bool
  pub batcher : UpdateBatcher CommandResult
  pub sent : List CommandResult

-- UpdateBatcher.Queue, and Flush, within that state
abbrev pub queue_update : String → Status → Loop → Loop
queue_update n s l = record l { batcher = queue (record { name = n; status = s }) l.batcher }

unfoldable pub flush_updates : Bool → Loop → Loop
flush_updates accepted l = record l {
  batcher = (flush accepted l.batcher).0;
  sent = if accepted then l.sent ++ (flush accepted l.batcher).1 else l.sent;
}

-- currentCommandStatus
abbrev pub status_after : StepResult → Status
status_after r = if r.success then completed else failed

module _ (expand : Items → Items) where
  -- performStep: no result on ErrStepExit
  unfoldable pub perform_step : Answer → Step → Executor → Executor × Option StepResult
  unfolding perform_instruction set
  perform_step a c e =
      if a.log_opens
      then elim a.cirrus_env_path [
        | none ↦ (e, some failure_result)
        | some path ↦
            let env = set cirrus_env path e.env in
            let (r, bg) = perform_instruction a c.name c.instruction env e.background_commands in
            if is_exit c.instruction then (record e { env = env }, none) else (
              record {
                env = merge expand a.variables (is_some (get cirrus_env_sensitive env.items)) env;
                background_commands = bg;
              },
              some r,
            )
      ]
      else (e, some failure_result)

  -- one turn of the loop of RunBuild, and whether the loop goes on
  unfoldable pub turn : Answer → Step → Loop → Loop × Bool
  unfolding perform_step flush_updates
  turn a c l = elim (should_run_step c.execution_behaviour l.failed_once a.timed_out) [
    | false ↦ (queue_update c.name skipped l, true)
    | true ↦
        let l' = flush_updates a.accepts (queue_update c.name executing l) in
        let (e, o) = perform_step a c l'.executor in
        elim o [
          | none ↦ (record l' { executor = e }, false)
          | some r ↦ (
            queue_update c.name (status_after r) (record l' {
              executor = e;
              failed_once = if r.success then l'.failed_once else true;
            }),
            true,
          )
        ]
  ]

  -- the loop of RunBuild; `answers` gives what the outside answers in each turn
  unfoldable pub run_steps : (ℕ → Answer) → ℕ → List Step → Loop → Loop × Bool
  run_steps answers i [] l = (l, true)
  run_steps answers i (c ∷ cs) l =
      let (l', goes_on) = turn (answers i) c l in
      elim goes_on [ true ↦ run_steps answers (suc i) cs l' | false ↦ (l', false) ]

  -- RunBuild from BoundedCommands to the flush behind the loop; no flush if a step asked to exit
  unfoldable pub run_build :
      (ℕ → Answer) → Bool → List Step → String → String → Executor → Bool → Outcome (Loop × Bool)
  unfolding bounded_commands run_steps
  run_build answers accepts commands from_name to_name e failed_once =
      elim (bounded_commands commands from_name to_name) [
        | panics ↦ panics
        | returns cs ↦
            let start : Loop = record {
              executor = e;
              failed_once = failed_once;
              batcher = new;
              sent = [];
            } in
            let (l, goes_on) = run_steps answers 0 cs start in
            returns (if goes_on then flush_updates accepts l else l, goes_on)
      ]
