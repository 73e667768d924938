-- ===== src/Agent/Steps/Reports/Served.antt =====
-- The executor's task after the agent has run its commands: the agent's reports and the RPC service together.
use cirrus_cli.Prelude.{
  ℕ, Bool, true, false, ◌≡◌, refl, List, [], ◌++◌, if◌then◌else◌, arith, sym, ap, ◌∙◌, subst,
  Outcome, returns,
}
use cirrus_cli.Build.{
  CommandStatus, undefined, success, failure, TaskStatus, Task, get_command, task_status,
  failed_at_least_once, status_of, is_undefined,
}
use cirrus_cli.Build
use cirrus_cli.Executor.Rpc.{Reply, ok, CommandResult, report_updates}
use cirrus_cli.Agent.UpdateBatcher.{new, flush-true}
use cirrus_cli.Agent.Environment.{Items}
use cirrus_cli.Agent.Steps.{Answer, Step, Executor, Loop, flush_updates, run_steps, run_build}
use cirrus_cli.Agent.Steps.Bounds.{bounded_commands_all}
use cirrus_cli.Agent.Steps.Reports.{
  Verdict, any_fails, steps_of, reports, Ran, IsLossless, run_steps-Ran,
}
use cirrus_cli.Agent.Steps.Reports.Settled.{
  IsServed, settled, receive_all, concat, receive_all-concat, reports-settle,
  settled-failed_at_least_once, settled-status_of,
}

module _ (expand : Items → Items) (answers : ℕ → Answer) (cs : List Step) (e : Executor) where
  abbrev begin : Loop
  begin = record { executor = e; failed_once = false; batcher = new; sent = [] }

  begin-IsLossless : IsLossless begin
  begin-IsLossless = refl

  -- all that was queued is delivered by a flush that is accepted
  flush_updates-sent :
      (l : Loop) → IsLossless l → (flush_updates true l).sent ≡ l.batcher.update_history
  unfolding flush_updates
  flush_updates-sent l h = ap (λ p. l.sent ++ p.1) (flush-true l.batcher) ∙ h

  flush_updates-failed_once : (l : Loop) → (flush_updates true l).failed_once ≡ l.failed_once
  unfolding flush_updates
  flush_updates-failed_once l = refl

  abbrev ran : Loop × Bool
  ran = run_steps expand answers 0 cs begin

  run_build_all :
      run_build expand answers true cs "" "" e false
      ≡ returns (if ran.1 then flush_updates true ran.0 else ran.0, ran.1)
  unfolding run_build
  run_build_all = rw (run_build, bounded_commands_all cs) refl

  to_end :
      (b : Bool) (m l : Loop)
      → ◌≡◌ {A = Outcome (Loop × Bool)}
          (returns (if b then flush_updates true m else m, b))
          (returns (l, true))
      → (b ≡ true) × (flush_updates true m ≡ l)
  to_end true m l h = (refl, ground (arith, h))
  to_end false m l h = ground (arith, h)

  settles :
      (l : Loop) (t : Task) (batches : List (List CommandResult)) (vs : List (Step × Verdict))
      → Ran begin ran.0 vs
      → IsServed (steps_of vs) t.commands
      → flush_updates true ran.0 ≡ l
      → concat batches ≡ l.sent
      → (receive_all batches t.commands ≡ settled vs t.commands) × (l.failed_once ≡ any_fails vs)
  unfolding reports
  settles l t bs vs r i q d =
      let all : concat bs ≡ reports vs =
        d
        ∙ ap (λ (x : Loop). x.sent) (sym q)
        ∙ flush_updates-sent ran.0 (r.lossless begin-IsLossless)
        ∙ r.history in
      let settles_all : report_updates (concat bs) t.commands ≡ (settled vs t.commands, ok tt) =
        ap (λ us. report_updates us t.commands) all ∙ reports-settle vs t.commands i in
      (
        receive_all-concat bs t.commands
              (ap (λ (p : List Build.Command × Reply (Unit {0})). p.1) settles_all)
            ∙ ap (λ (p : List Build.Command × Reply (Unit {0})). p.0) settles_all,
        ap (λ (x : Loop). x.failed_once) (sym q) ∙ flush_updates-failed_once ran.0 ∙ r.failure,
      )

  status_settled :
      (t : Task) (vs : List (Step × Verdict))
      → t.status ≡ TaskStatus.new
      → IsServed (steps_of vs) t.commands
      → task_status (record t { commands = settled vs t.commands })
        ≡ (if any_fails vs then TaskStatus.failed else TaskStatus.succeeded)
  unfolding task_status
  status_settled t vs z i =
      rw (z, settled-failed_at_least_once vs t.commands i)
        (settled-status_of (any_fails vs) vs t.commands i)

  -- Let a task have no stored status and the agent's commands, under distinct names. If the loop of RunBuild,
  -- over all commands and with no failure before it, goes to its end and the flush behind it is accepted, then,
  -- whichever of the earlier flushes were accepted, the reports sent, received in any batches, settle the task:
  -- it has failed if a step has failed, and otherwise it has succeeded; it is not new.
  pub run_build_settles :
      (l : Loop) (t : Task) (batches : List (List CommandResult))
      → run_build expand answers true cs "" "" e false ≡ returns (l, true)
      → concat batches ≡ l.sent
      → IsServed cs t.commands
      → t.status ≡ TaskStatus.new
      → task_status (record t { commands = receive_all batches t.commands })
        ≡ (if l.failed_once then TaskStatus.failed else TaskStatus.succeeded)
  run_build_settles l t bs h d i z =
      let (g, q) = to_end ran.1 ran.0 l (sym run_build_all ∙ h) in
      let (vs, p, r) = run_steps-Ran expand answers 0 cs begin g in
      let served = subst (λ x. IsServed x t.commands) (sym p) i in
      let (a, b) = settles l t bs vs r served q d in rw (a, b) (status_settled t vs z served)
