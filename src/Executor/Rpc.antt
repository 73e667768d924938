-- ===== src/Executor/Rpc.antt =====
-- internal/executor/rpc: the calls of the agent that change the tasks of a build (rpc.go, metadata.go).
-- The metadata of a call is taken after gRPC has decoded it: the task ID and the client secret.
pub mod Reports
use cirrus_cli.Prelude.{
  ℕ, String, Bool, true, false, Option, none, some, List, [], ◌∷◌, ◌==◌, if◌then◌else◌, str_eq,
}
use cirrus_cli.Build.{
  CommandStatus, undefined, success, failure, Command, Task, Build, get_command, get_task,
}

-- api.Status
pub data Status : Type 0 where
  created triggered scheduled executing aborted failed completed skipped : Status

-- api.CommandResult, with the fields that the handler reads
pub record CommandResult : Type 0 where
  pub name : String
  pub status : Status

-- the gRPC status codes that the handlers return
pub data Code : Type 0 where
  unauthenticated not_found failed_precondition : Code

pub data Reply {ℓ} (A : Type ℓ) : Type ℓ where
  ok : A → Reply A
  err : Code → Reply A

-- the switch of ReportCommandUpdates: the status that an update sets, if it sets one
abbrev pub reported : Status → Option CommandStatus
reported completed = some success
reported skipped = some success
reported aborted = some failure
reported failed = some failure
reported _ = none

-- Command.SetStatus through the pointer that GetCommand returned: the first command of that name
unfoldable pub set_command : String → CommandStatus → List Command → List Command
set_command name s [] = []
set_command name s (c ∷ cs) =
    if str_eq c.name name then (record c { status = s }) ∷ cs else c ∷ set_command name s cs

-- one turn of the loop of ReportCommandUpdates, once the command was found
unfoldable pub apply_update : CommandResult → List Command → List Command
unfolding set_command
apply_update u cs = elim (reported u.status) [ none ↦ cs | some s ↦ set_command u.name s cs ]

-- the loop of ReportCommandUpdates: what was set before an error stays set
unfoldable pub report_updates : List CommandResult → List Command → List Command × Reply (Unit {0})
report_updates [] cs = (cs, ok tt)
report_updates (u ∷ us) cs = elim (get_command u.name cs) [
  | none ↦ (cs, err failed_precondition)
  | some _ ↦ report_updates us (apply_update u cs)
]

-- RPC, with the fields that authentication and the reports use
pub record Rpc : Type 0 where
  pub tasks : List Task
  pub client_secret : String

-- taskFromMetadata, after the metadata was extracted
unfoldable pub task_from_metadata : Rpc → ℕ → String → Reply Task
task_from_metadata r task_id secret =
    if str_eq secret r.client_secret
    then elim (get_task task_id r.tasks) [ none ↦ err not_found | some t ↦ ok t ]
    else err unauthenticated

-- writes through the pointer that GetTask returned: the first task with the ID
unfoldable pub replace_task : ℕ → Task → List Task → List Task
replace_task id t [] = []
replace_task id t (u ∷ us) = if u.id == id then t ∷ us else u ∷ replace_task id t us

-- ReportCommandUpdates
unfoldable pub report_command_updates :
    Rpc → ℕ → String → List CommandResult → Rpc × Reply (Unit {0})
unfolding task_from_metadata report_updates replace_task
report_command_updates r task_id secret updates = elim (task_from_metadata r task_id secret) [
  | err c ↦ (r, err c)
  | ok t ↦
      let (cs, reply) = report_updates updates t.commands in
      (record r { tasks = replace_task task_id (record t { commands = cs }) r.tasks }, reply)
]
