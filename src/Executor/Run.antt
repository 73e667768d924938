-- ===== src/Executor/Run.antt =====
-- internal/executor/executor.go: Executor.Run and runSingleTask. What an instance does while it runs is
-- not of this package: an attempt records what runSingleTask sees of it.
pub mod Single
pub mod Tasks
pub mod Loop
pub mod Complete
use cirrus_cli.Prelude.{
  ℕ, zero, suc, String, Bool, true, false, ◌&&◌, not, Option, none, some, List, [], ◌∷◌,
  if◌then◌else◌, str_eq, Outcome, returns, panics,
}
use cirrus_cli.Build.{
  TaskStatus, new, succeeded, failed, timed_out, skipped, Instance, freebsd, prebuilt, Task, is_new,
  task_status, set_status, get_next_task,
}
use cirrus_cli.Executor.Placement.{
  Host, task_arch, task_os, needs_linux_containers, host_supports_arch, host_supports_os,
}
use cirrus_cli.Executor.Rpc.{CommandResult, report_updates, replace_task}

-- the errors that Executor.Run tells apart
pub data Error : Type 0 where
  build_failed context_canceled deadline_exceeded other_error : Error

-- why task.Instance.Run failed, in the order of the switch of runSingleTask
pub data RunError : Type 0 where
  no_heartbeats task_deadline unsupported_instance : RunError
  failure : Error → RunError

-- what happens while one task runs: an error of rpc.Start, the batches of command updates that its
-- agent reports, the error of Instance.Run, and the error of Instance.Close
pub record Attempt : Type 0 where
  pub start_error : Option Error
  pub reports : List (List CommandResult)
  pub run_error : Option RunError
  pub close_error : Option Error

-- the machine, with the probes of runSingleTask that are not in arch.go and os.go
pub record Runner : Type 0 where
  pub host : Host
  pub running_windows_containers : Bool
  pub qemu_available : Bool

abbrev pub is_freebsd : Instance → Bool
is_freebsd freebsd = true
is_freebsd _ = false

abbrev pub is_prebuilt : Instance → Bool
is_prebuilt prebuilt = true
is_prebuilt _ = false

-- the four checks at the top of runSingleTask that skip a task
unfoldable pub is_misplaced : Runner → List Task → Task → Bool
is_misplaced r tasks t =
    if (elim (task_arch t tasks) [ none ↦ false | some a ↦ not (host_supports_arch r.host a) ])
    then true
    else if (elim (task_os t tasks) [ none ↦ false | some os ↦ not (host_supports_os r.host os) ])
    then true
    else if needs_linux_containers t
        && (str_eq r.host.goos "windows" && r.running_windows_containers)
    then true
    else is_freebsd t.instance_of && (str_eq r.host.goos "windows" && not r.qemu_available)

-- the reports that arrive while the instance runs
unfoldable pub receive : List (List CommandResult) → Task → Task
receive [] t = t
receive (us ∷ batches) t =
    receive batches (record t { commands = (report_updates us t.commands).0 })

-- the switch on the error of task.Instance.Run: the task goes on, or the error is returned
abbrev pub after_run : Option RunError → Task → Task × Option Error
after_run none t = (t, none)
after_run (some no_heartbeats) t = (set_status timed_out t, none)
after_run (some task_deadline) t = (set_status timed_out t, none)
after_run (some unsupported_instance) t = (set_status skipped t, none)
after_run (some (failure e)) t = (t, some e)

-- a prebuilt instance needs no command to run
abbrev pub settle_prebuilt : Task → Task
settle_prebuilt t =
    if is_prebuilt t.instance_of && is_new (task_status t) then set_status succeeded t else t

-- the switch on the final status
abbrev pub verdict : TaskStatus → Option Error
verdict succeeded = none
verdict skipped = none
verdict _ = some build_failed

-- the deferred Instance.Close: its error counts if there is no other
abbrev pub or_close : Option Error → Option Error → Option Error
or_close none close_error = close_error
or_close (some e) close_error = some e

-- runSingleTask from task.Instance.Run on, with the deferred close
unfoldable pub run_instance : Attempt → Task → Task × Option Error
unfolding receive
run_instance a t =
    let (u, e) = after_run a.run_error (receive a.reports t) in
    elim e [
      | some err ↦ (u, some err)
      | none ↦ let v = settle_prebuilt u in (v, or_close (verdict (task_status v)) a.close_error)
    ]

-- runSingleTask
unfoldable pub run_single_task : Runner → List Task → Attempt → Task → Task × Option Error
unfolding run_instance
run_single_task r tasks a t =
    if is_misplaced r tasks t
    then (set_status skipped t, none)
    else elim a.start_error [ some e ↦ (t, some e) | none ↦ run_instance a t ]

-- the errors after which Executor.Run leaves its loop
abbrev pub stops : Error → Bool
stops context_canceled = true
stops deadline_exceeded = true
stops _ = false

abbrev pub or_first : Option Error → Error → Option Error
or_first none e = some e
or_first (some f) e = some f

-- how Executor.Run ends: with its tasks and its error, by a panic, or not within the fuel
pub data Ending : Type 0 where
  finished : List Task → Option Error → Ending
  panicked : Ending
  out_of_fuel : Ending

module _ (r : Runner) (attempt : List Task → Task → Attempt) where
  -- one turn of the loop of Executor.Run: the tasks after it, firstErr, and whether the loop goes on
  unfoldable pub run_task : List Task → Option Error → Task → List Task × Option Error × Bool
  unfolding run_single_task replace_task
  run_task tasks first t =
      let (u, e) = run_single_task r tasks (attempt tasks t) t in
      elim e [
        | none ↦ (replace_task t.id u tasks, first, true)
        | some err ↦
            (replace_task t.id (set_status failed u) tasks, or_first first err, not (stops err))
      ]

  -- Executor.Run; the fuel bounds the turns of its loop
  unfoldable pub run : ℕ → List Task → Option Error → Ending
  run zero tasks first = out_of_fuel
  run (suc fuel) tasks first = elim (get_next_task (record { tasks = tasks })) [
    | panics ↦ panicked
    | returns o ↦ elim o [
      | none ↦ finished tasks first
      | some t ↦
          let (tasks', first', goes_on) = run_task tasks first t in
          let rest = run fuel tasks' first' in
          elim goes_on [ true ↦ rest | false ↦ finished tasks' first' ]
    ]
  ]
