-- ===== src/Agent/Steps/Reports/Settled.antt =====
-- internal/executor/rpc: how the reports of a run settle the commands that the executor has of a task.
use cirrus_cli.Prelude.{
  String, Bool, ◌≡◌, refl, ◌≢◌, Option, none, some, List, [], ◌∷◌, ◌++◌, if◌then◌else◌, eq_iff, All,
  arith, Option-cases, inl, inr, sym, ap, ◌∙◌,
}
use cirrus_cli.Build.{
  CommandStatus, undefined, success, failure, TaskStatus, Task, get_command, task_status,
  failed_at_least_once, status_of, is_undefined,
}
use cirrus_cli.Build
use cirrus_cli.Executor.Rpc.{
  Reply, ok, err, failed_precondition, CommandResult, reported, set_command, apply_update,
  report_updates,
}
use cirrus_cli.Agent.Steps.{Step}
use cirrus_cli.Agent.Steps.Reports.{
  Verdict, skips, completes, fails, any_fails, steps_of, report_of, reports,
}

-- the server's commands are those of the agent, in order, and no two have one name
abbrev pub IsServed : List Step → List Build.Command → Type 0
IsServed [] ss = ss ≡ []
IsServed (c ∷ cs) [] = ⊥
IsServed (c ∷ cs) (s ∷ ss) =
    (c.name ≡ s.name) × All (λ (d : Build.Command). d.name ≢ s.name) ss × IsServed cs ss

-- the status that the server has for a verdict
abbrev pub outcome : Verdict → CommandStatus
outcome fails = failure
outcome _ = success

unfoldable pub settled : List (Step × Verdict) → List Build.Command → List Build.Command
settled [] ss = ss
settled (cv ∷ vs) [] = []
settled ((c, v) ∷ vs) (s ∷ ss) = (record s { status = outcome v }) ∷ settled vs ss

-- the batches, one call of ReportCommandUpdates after the other
unfoldable pub receive_all : List (List CommandResult) → List Build.Command → List Build.Command
receive_all [] ss = ss
receive_all (b ∷ bs) ss = receive_all bs (report_updates b ss).0

abbrev pub concat : List (List CommandResult) → List CommandResult
concat [] = []
concat (b ∷ bs) = b ++ concat bs

-- a name other than the first command's is looked for in the rest
frame-set_command :
    (n : String) (x : CommandStatus) (s : Build.Command) (ss : List Build.Command)
    → n ≢ s.name
    → set_command n x (s ∷ ss) ≡ s ∷ set_command n x ss
unfolding set_command
frame-set_command n x s ss h = ground (arith, eq_iff s.name n)

frame-apply_update :
    (u : CommandResult) (s : Build.Command) (ss : List Build.Command)
    → u.name ≢ s.name
    → apply_update u (s ∷ ss) ≡ s ∷ apply_update u ss
unfolding apply_update
frame-apply_update u s ss h = go (reported u.status)
  where
    go :
        (o : Option CommandStatus)
        → (elim o [ none ↦ s ∷ ss | some x ↦ set_command u.name x (s ∷ ss) ])
          ≡ s ∷ (elim o [ none ↦ ss | some x ↦ set_command u.name x ss ])
    go none = refl
    go (some x) = frame-set_command u.name x s ss h

get_command-skip :
    (n : String) (s : Build.Command) (ss : List Build.Command)
    → n ≢ s.name
    → get_command n (s ∷ ss) ≡ get_command n ss
unfolding get_command
get_command-skip n s ss h = ground (arith, eq_iff s.name n)

report_updates-frame :
    (us : List CommandResult) (s : Build.Command) (ss : List Build.Command)
    → All (λ (u : CommandResult). u.name ≢ s.name) us
    → report_updates us (s ∷ ss) ≡ (s ∷ (report_updates us ss).0, (report_updates us ss).1)
unfolding report_updates
report_updates-frame [] s ss h = refl
report_updates-frame (u ∷ us) s ss h = elim (Option-cases (get_command u.name ss)) [
  | inl e ↦ rw (report_updates, get_command-skip u.name s ss h.0, e) refl
  | inr (c, e) ↦
      rw (report_updates, get_command-skip u.name s ss h.0, e, frame-apply_update u s ss h.0)
        (report_updates-frame us s (apply_update u ss) h.1)
]

report_updates-append :
    (us vs : List CommandResult) (ss : List Build.Command)
    → (report_updates (us ++ vs) ss).1 ≡ ok tt
    → report_updates (us ++ vs) ss ≡ report_updates vs (report_updates us ss).0
unfolding report_updates
report_updates-append [] vs ss h = refl
report_updates-append (u ∷ us) vs ss h = elim (Option-cases (get_command u.name ss)) [
  | inl e ↦ absurd (refused (rw (report_updates, e) at h))
  | inr (c, e) ↦
      rw (report_updates, e)
        (report_updates-append us vs (apply_update u ss) (rw (report_updates, e) at h))
]
  where
    refused : ◌≡◌ {A = Reply (Unit {0})} (err failed_precondition) (ok tt) → ⊥
    refused k = ground arith

pub receive_all-concat :
    (bs : List (List CommandResult)) (ss : List Build.Command)
    → (report_updates (concat bs) ss).1 ≡ ok tt
    → receive_all bs ss ≡ (report_updates (concat bs) ss).0
unfolding receive_all
receive_all-concat [] ss h = unfold report_updates in refl
receive_all-concat (b ∷ bs) ss h =
    let e = report_updates-append b (concat bs) ss h in
    receive_all-concat bs (report_updates b ss).0
      (ap (λ (r : List Build.Command × Reply (Unit {0})). r.1) (sym e) ∙ h)
    ∙ ap (λ (r : List Build.Command × Reply (Unit {0})). r.0) (sym e)

report_of-settles :
    (c : Step) (v : Verdict) (us : List CommandResult) (s : Build.Command) (ss : List Build.Command)
    → c.name ≡ s.name
    → report_updates (report_of c v ++ us) (s ∷ ss)
      ≡ report_updates us ((record s { status = outcome v }) ∷ ss)
unfolding report_updates apply_update get_command set_command
report_of-settles c skips us s ss h = ground (arith, eq_iff s.name c.name, h)
report_of-settles c completes us s ss h = ground (arith, eq_iff s.name c.name, h)
report_of-settles c fails us s ss h = ground (arith, eq_iff s.name c.name, h)

reports-others :
    (n : String) (vs : List (Step × Verdict)) (ss : List Build.Command)
    → IsServed (steps_of vs) ss
    → All (λ (d : Build.Command). d.name ≢ n) ss
    → All (λ (u : CommandResult). u.name ≢ n) (reports vs)
unfolding reports
reports-others n [] ss i a = tt
reports-others n ((c, v) ∷ vs) [] i a = absurd i
reports-others n ((c, v) ∷ vs) (s ∷ ss) i a =
    here v (reports vs) (rw i.0 a.0) (reports-others n vs ss i.2 a.1)
  where
    here :
        (w : Verdict) (us : List CommandResult)
        → c.name ≢ n
        → All (λ (u : CommandResult). u.name ≢ n) us
        → All (λ (u : CommandResult). u.name ≢ n) (report_of c w ++ us)
    here skips us h k = (h, k)
    here completes us h k = (h, (h, k))
    here fails us h k = (h, (h, k))

pub reports-settle :
    (vs : List (Step × Verdict)) (ss : List Build.Command)
    → IsServed (steps_of vs) ss
    → report_updates (reports vs) ss ≡ (settled vs ss, ok tt)
unfolding reports settled
reports-settle [] ss i = unfold report_updates in refl
reports-settle ((c, v) ∷ vs) [] i = absurd i
reports-settle ((c, v) ∷ vs) (s ∷ ss) i =
    report_of-settles c v (reports vs) s ss i.0
    ∙ report_updates-frame (reports vs) (record s { status = outcome v }) ss
        (reports-others s.name vs ss i.2 i.1)
    ∙ ap
        (λ (r : List Build.Command × Reply (Unit {0})).
          ((record s { status = outcome v }) ∷ r.0, r.1))
        (reports-settle vs ss i.2)

pub settled-failed_at_least_once :
    (vs : List (Step × Verdict)) (ss : List Build.Command)
    → IsServed (steps_of vs) ss
    → failed_at_least_once (settled vs ss) ≡ any_fails vs
unfolding settled failed_at_least_once
settled-failed_at_least_once [] [] i = refl
settled-failed_at_least_once [] (s ∷ ss) i = ground arith
settled-failed_at_least_once ((c, v) ∷ vs) [] i = absurd i
settled-failed_at_least_once ((c, skips) ∷ vs) (s ∷ ss) i = settled-failed_at_least_once vs ss i.2
settled-failed_at_least_once ((c, completes) ∷ vs) (s ∷ ss) i =
    settled-failed_at_least_once vs ss i.2
settled-failed_at_least_once ((c, fails) ∷ vs) (s ∷ ss) i = refl

pub settled-status_of :
    (f : Bool) (vs : List (Step × Verdict)) (ss : List Build.Command)
    → IsServed (steps_of vs) ss
    → status_of f (settled vs ss) ≡ (if f then TaskStatus.failed else TaskStatus.succeeded)
unfolding settled status_of
settled-status_of f [] [] i = refl
settled-status_of f [] (s ∷ ss) i = ground arith
settled-status_of f ((c, v) ∷ vs) [] i = absurd i
settled-status_of f ((c, skips) ∷ vs) (s ∷ ss) i = settled-status_of f vs ss i.2
settled-status_of f ((c, completes) ∷ vs) (s ∷ ss) i = settled-status_of f vs ss i.2
settled-status_of f ((c, fails) ∷ vs) (s ∷ ss) i = settled-status_of f vs ss i.2
