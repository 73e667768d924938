-- ===== src/Executor/Rpc/Reports.antt =====
-- What a batch of reports does to the commands of a task.
use cirrus_cli.Prelude.{
  ℕ, String, ◌≡◌, refl, ◌≢◌, inl, inr, Option, none, some, List, [], ◌∷◌, ◌++◌, All, Option-cases,
  arith, ap, str_eq, eq_iff, if◌then◌else◌, sym, ◌∙◌,
}
use cirrus_cli.Build.{CommandStatus, Command, Task, get_command, get_task}
use cirrus_cli.Executor.Rpc.{
  CommandResult, Reply, ok, err, unauthenticated, not_found, failed_precondition, reported,
  set_command, apply_update, report_updates, Rpc, replace_task, report_command_updates,
}

-- the status of the first command of a name
abbrev pub status_in : String → List Command → Option CommandStatus
status_in name cs = elim (get_command name cs) [ none ↦ none | some c ↦ some c.status ]

-- the last status that the updates for a name report, or else the given one
unfoldable pub last_reported : String → List CommandResult → CommandStatus → CommandStatus
last_reported name [] s = s
last_reported name (u ∷ us) s =
    last_reported name us
      (if str_eq u.name name then (elim (reported u.status) [ none ↦ s | some r ↦ r ]) else s)

-- every name that is reported is the name of a command
abbrev pub AllKnown : List CommandResult → List Command → Type 0
AllKnown us cs = All (λ u. get_command u.name cs ≢ none) us

status_in-set_command :
    (n m : String) (s : CommandStatus) (cs : List Command)
    → status_in m (set_command n s cs) ≡ (
        if str_eq n m
        then (elim (get_command m cs) [ none ↦ none | some c ↦ some s ])
        else status_in m cs)
unfolding get_command set_command
status_in-set_command n m s [] = ground arith
status_in-set_command n m s (c ∷ cs) =
    ground (arith, eq_iff c.name n, eq_iff c.name m, eq_iff n m, status_in-set_command n m s cs)

abbrev pub option_map :
    (CommandStatus → CommandStatus) → Option CommandStatus → Option CommandStatus
option_map f none = none
option_map f (some s) = some (f s)

abbrev update_status : String → CommandResult → CommandStatus → CommandStatus
update_status name u s =
    if str_eq u.name name then (elim (reported u.status) [ none ↦ s | some r ↦ r ]) else s

status_in-apply_update :
    (m : String) (u : CommandResult) (cs : List Command)
    → status_in m (apply_update u cs) ≡ option_map (update_status m u) (status_in m cs)
unfolding apply_update
status_in-apply_update m u cs = elim (Option-cases (reported u.status)) [
  | inl e ↦ ground (arith, e)
  | inr (s, e) ↦ ground (arith, e, status_in-set_command u.name m s cs)
]

get_command-apply_update :
    (m : String) (u : CommandResult) (cs : List Command)
    → get_command m cs ≢ none
    → get_command m (apply_update u cs) ≢ none
get_command-apply_update m u cs h e = ground (arith, status_in-apply_update m u cs)

absent-apply_update :
    (m : String) (u : CommandResult) (cs : List Command)
    → get_command m cs ≡ none
    → get_command m (apply_update u cs) ≡ none
absent-apply_update m u cs e = ground (arith, status_in-apply_update m u cs)

AllKnown-apply_update :
    (u : CommandResult) (us : List CommandResult) (cs : List Command)
    → AllKnown us cs
    → AllKnown us (apply_update u cs)
AllKnown-apply_update u [] cs h = tt
AllKnown-apply_update u (v ∷ us) cs (h, hs) =
    (get_command-apply_update v.name u cs h, AllKnown-apply_update u us cs hs)

option_map-last :
    (m : String) (u : CommandResult) (us : List CommandResult) (o : Option CommandStatus)
    → option_map (last_reported m us) (option_map (update_status m u) o)
      ≡ option_map (last_reported m (u ∷ us)) o
unfolding last_reported
option_map-last m u us none = refl
option_map-last m u us (some s) = refl

option_map-nil : (m : String) (o : Option CommandStatus) → o ≡ option_map (last_reported m []) o
unfolding last_reported
option_map-nil m none = refl
option_map-nil m (some s) = refl

report_updates-cons :
    (u : CommandResult) (us : List CommandResult) (cs : List Command)
    → get_command u.name cs ≢ none
    → report_updates (u ∷ us) cs ≡ report_updates us (apply_update u cs)
unfolding report_updates
report_updates-cons u us cs h = ground arith

report_updates-stop :
    (u : CommandResult) (us : List CommandResult) (cs : List Command)
    → get_command u.name cs ≡ none
    → report_updates (u ∷ us) cs ≡ (cs, err failed_precondition)
unfolding report_updates
report_updates-stop u us cs h = ground arith

-- If the task has a command of every reported name, the batch succeeds, and then each command that a
-- name finds has the last status reported for that name, or its old one if none was.
pub report_updates_known :
    (us : List CommandResult) (cs : List Command)
    → AllKnown us cs
    → ((report_updates us cs).1 ≡ ok tt)
      × ((name : String)
          → status_in name (report_updates us cs).0
            ≡ option_map (last_reported name us) (status_in name cs))
unfolding report_updates
report_updates_known [] cs h = (refl, λ name. option_map-nil name (status_in name cs))
report_updates_known (u ∷ us) cs (h, hs) =
    let (done, each) =
      report_updates_known us (apply_update u cs) (AllKnown-apply_update u us cs hs) in
    rw (report_updates-cons u us cs h) (
      done,
      λ name.
          each name
          ∙ ap (option_map (last_reported name us)) (status_in-apply_update name u cs)
          ∙ option_map-last name u us (status_in name cs),
    )

-- At the first name that no command has, the handler stops with FailedPrecondition; the updates before
-- it stay applied, and those behind it are not read.
pub report_updates_unknown :
    (us vs : List CommandResult) (u : CommandResult) (cs : List Command)
    → AllKnown us cs
    → get_command u.name cs ≡ none
    → report_updates (us ++ u ∷ vs) cs ≡ ((report_updates us cs).0, err failed_precondition)
report_updates_unknown [] vs u cs h n = unfold report_updates in report_updates-stop u vs cs n
report_updates_unknown (w ∷ us) vs u cs (h, hs) n =
    report_updates-cons w (us ++ u ∷ vs) cs h
    ∙ report_updates_unknown us vs u (apply_update w cs) (AllKnown-apply_update w us cs hs)
        (absent-apply_update u.name w cs n)
    ∙ ap (λ (r : List Command × Reply Unit). (r.0, err failed_precondition))
        (sym (report_updates-cons w us cs h))

get_task-replace_task :
    (i j : ℕ) (t : Task) (ts : List Task)
    → t.id ≡ i
    → i ≢ j
    → get_task j (replace_task i t ts) ≡ get_task j ts
unfolding get_task replace_task
get_task-replace_task i j t [] e n = refl
get_task-replace_task i j t (u ∷ us) e n = ground (arith, get_task-replace_task i j t us e n)

get_task-id : (i : ℕ) (t : Task) (ts : List Task) → get_task i ts ≡ some t → t.id ≡ i
unfolding get_task
get_task-id i t [] h = cc
get_task-id i t (u ∷ us) h = ground (arith, get_task-id i t us)

-- A call changes no task but the one that it names, and changes nothing at all if the secret is wrong
-- or the ID names no task.
pub report_command_updates_frame :
    (r : Rpc) (i : ℕ) (secret : String) (us : List CommandResult)
    → ((j : ℕ)
        → i ≢ j
        → get_task j (report_command_updates r i secret us).0.tasks ≡ get_task j r.tasks)
      × (secret ≢ r.client_secret → report_command_updates r i secret us ≡ (r, err unauthenticated))
      × (secret ≡ r.client_secret
          → get_task i r.tasks ≡ none
          → report_command_updates r i secret us ≡ (r, err not_found))
unfolding report_command_updates
report_command_updates_frame r i secret us = (
  λ j n. elim (Option-cases (get_task i r.tasks)) [
    | inl e ↦ ground (arith, e)
    | inr (t, e) ↦ ground (
      arith,
      e,
      get_task-replace_task i j (record t { commands = (report_updates us t.commands).0 }) r.tasks
          (get_task-id i t r.tasks e) n,
    )
  ],
  λ n. ground (arith, eq_iff secret r.client_secret),
  λ e n. ground (arith, eq_iff secret r.client_secret),
)
