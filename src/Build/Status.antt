-- ===== src/Build/Status.antt =====
-- What Task.Status computes from the stored status and the statuses of the commands.
use cirrus_cli.Prelude.{
  Bool, true, false, ◌≡◌, refl, ◌≢◌, ◌↔◌, inl, inr, List, [], ◌∷◌, All, In, Bool-cases, arith, ◌&&◌,
  ◌⊎◌, All-In,
}
use cirrus_cli.Build.Defs.{
  TaskStatus, new, succeeded, undefined, success, failure, CommandStatus, ExecutionBehaviour,
  on_success, on_failure, on_timeout, always, Command, Task, is_undefined, is_failure, is_new,
  failed_at_least_once, should_run, status_of, task_status,
}

pub is_new_iff : (s : TaskStatus) → (is_new s ≡ true) ↔ (s ≡ new)
is_new_iff new = ground arith
is_new_iff _ = ground arith

-- a command that Task.Status waits for, by its `shouldRun`
abbrev IsAwaited : Bool → Command → Type 0
IsAwaited failed_once c =
    (c.status ≡ undefined) × (should_run c.execution_behaviour failed_once ≡ true)

status_of-new→ :
    (f : Bool) (cs : List Command) → status_of f cs ≡ new → (c : Command) × In c cs × IsAwaited f c
unfolding status_of
status_of-new→ true [] h = cc
status_of-new→ false [] h = cc
status_of-new→ f (c ∷ cs) h =
    elim (Bool-cases (is_undefined c.status && should_run c.execution_behaviour f)) [
      | inl e ↦ (c, inl refl, ground arith)
      | inr e ↦ let (d, m, p) = status_of-new→ f cs (ground arith) in (d, inr m, p)
    ]

status_of-new← :
    (f : Bool) (cs : List Command) (c : Command) → In c cs → IsAwaited f c → status_of f cs ≡ new
unfolding status_of
status_of-new← f [] c m p = absurd m
status_of-new← f (d ∷ cs) c (inl e) p = ground arith
status_of-new← f (d ∷ cs) c (inr m) p = ground (arith, status_of-new← f cs c m p)

stored_new : (t : Task) → task_status t ≡ new → t.status ≡ new
unfolding task_status
stored_new t h = ground (arith, (is_new_iff t.status).0)

-- some command has failed
abbrev pub HasFailed : List Command → Type 0
HasFailed cs = (d : Command) × In d cs × (d.status ≡ failure)

-- among the commands `cs`, a command that is still undefined although it is to run: always, on success
-- while none has failed, or on failure once one has
abbrev pub IsPending : List Command → Command → Type 0
IsPending cs c =
    (c.status ≡ undefined)
    × ((c.execution_behaviour ≡ always)
        ⊎ ((c.execution_behaviour ≡ on_success) × All (λ d. d.status ≢ failure) cs)
        ⊎ ((c.execution_behaviour ≡ on_failure) × HasFailed cs))

is_failure_iff : (s : CommandStatus) → (is_failure s ≡ true) ↔ (s ≡ failure)
is_failure_iff failure = ground arith
is_failure_iff _ = ground arith

failed_cases :
    (cs : List Command)
    → ((failed_at_least_once cs ≡ true) × HasFailed cs)
      ⊎ ((failed_at_least_once cs ≡ false) × All (λ d. d.status ≢ failure) cs)
unfolding failed_at_least_once
failed_cases [] = inr (refl, tt)
failed_cases (c ∷ cs) = elim (Bool-cases (is_failure c.status)) [
  | inl e ↦ inl (rw e refl, (c, inl refl, (is_failure_iff c.status).0 e))
  | inr e ↦ elim (failed_cases cs) [
    | inl (f, (d, m, q)) ↦ inl (rw e f, (d, inr m, q))
    | inr (f, h) ↦ inr (rw e f, ((λ q. cc ((is_failure_iff c.status).1 q, e)), h))
  ]
]

none_failed : (cs : List Command) → All (λ d. d.status ≢ failure) cs → ¬ HasFailed cs
none_failed cs h (d, m, q) = All-In d (λ d. d.status ≢ failure) cs h m q

should_run_iff :
    (cs : List Command) (b : ExecutionBehaviour)
    → (should_run b (failed_at_least_once cs) ≡ true) ↔ (
        (b ≡ always)
        ⊎ ((b ≡ on_success) × All (λ d. d.status ≢ failure) cs)
        ⊎ ((b ≡ on_failure) × HasFailed cs))
should_run_iff cs b = elim (failed_cases cs) [
  | inl (f, failed) ↦ rw f (go_true b failed)
  | inr (f, h) ↦ rw f (go_false b h)
]
  where
    go_true :
        (b : ExecutionBehaviour)
        → HasFailed cs
        → (should_run b true ≡ true) ↔ (
            (b ≡ always)
            ⊎ ((b ≡ on_success) × All (λ d. d.status ≢ failure) cs)
            ⊎ ((b ≡ on_failure) × HasFailed cs))
    go_true always failed = (λ _. inl refl, λ _. refl)
    go_true on_failure failed = (λ _. inr (inr (refl, failed)), λ _. refl)
    go_true on_success failed = (
      λ h. absurd (cc h),
      λ o. elim o [
        | inl e ↦ absurd (cc e)
        | inr (inl (_, h)) ↦ absurd (none_failed cs h failed)
        | inr (inr (e, _)) ↦ absurd (cc e)
      ],
    )
    go_true on_timeout failed = (λ h. absurd (cc h), λ o. ground (arith, o))

    go_false :
        (b : ExecutionBehaviour)
        → All (λ d. d.status ≢ failure) cs
        → (should_run b false ≡ true) ↔ (
            (b ≡ always)
            ⊎ ((b ≡ on_success) × All (λ d. d.status ≢ failure) cs)
            ⊎ ((b ≡ on_failure) × HasFailed cs))
    go_false always h = (λ _. inl refl, λ _. refl)
    go_false on_success h = (λ _. inr (inl (refl, h)), λ _. refl)
    go_false on_failure h = (
      λ e. absurd (cc e),
      λ o. elim o [
        | inl e ↦ absurd (cc e)
        | inr (inl (e, _)) ↦ absurd (cc e)
        | inr (inr (_, failed)) ↦ absurd (none_failed cs h failed)
      ],
    )
    go_false on_timeout h = (λ e. absurd (cc e), λ o. ground (arith, o))

-- A task is new exactly when no other status is stored and some command is still undefined although it
-- is to run: always, on success while no command has failed, or on failure once one has. A command
-- kept for timeouts is not waited for.
pub task_status-new_iff :
    (t : Task)
    → (task_status t ≡ new)
      ↔ ((t.status ≡ new) × ((c : Command) × In c t.commands × IsPending t.commands c))
unfolding task_status
task_status-new_iff t = (
  λ h.
      let stored : t.status ≡ new = stored_new t h in
      let (c, m, (u, e)) = status_of-new→ once t.commands (ground (arith, stored)) in
      (stored, (c, m, (u, (should_run_iff t.commands c.execution_behaviour).0 e))),
  λ (stored, (c, m, (u, p))). rw stored (
      status_of-new← once t.commands c m
        (u, (should_run_iff t.commands c.execution_behaviour).1 p)),
)
  where
    once : Bool
    once = failed_at_least_once t.commands

-- a command that did not fail, and that succeeded unless it is kept for failures or timeouts
abbrev pub HasSucceeded : Command → Type 0
HasSucceeded c =
    (c.status ≢ failure)
    × (c.execution_behaviour ≢ on_failure → c.execution_behaviour ≢ on_timeout → c.status ≡ success)

HasSucceeded-head :
    (c : Command)
    → is_failure c.status ≡ false
    → (is_undefined c.status && should_run c.execution_behaviour false) ≡ false
    → HasSucceeded c
HasSucceeded-head c f u = (ground arith, ground arith)

All-HasSucceeded :
    (cs : List Command)
    → failed_at_least_once cs ≡ false
    → status_of false cs ≡ succeeded
    → All HasSucceeded cs
unfolding status_of failed_at_least_once
All-HasSucceeded [] f h = tt
All-HasSucceeded (c ∷ cs) f h = (
  HasSucceeded-head c (ground arith) (ground arith),
  All-HasSucceeded cs (ground arith) (ground arith),
)

status_of-succeeded : (f : Bool) (cs : List Command) → status_of f cs ≡ succeeded → f ≡ false
unfolding status_of
status_of-succeeded true [] h = cc
status_of-succeeded false [] h = refl
status_of-succeeded f (c ∷ cs) h = status_of-succeeded f cs (ground arith)

-- If no status is stored, a task counts as succeeded only when no command failed and every command
-- that is not kept for failures or timeouts has succeeded.
pub task_status-succeeded :
    (t : Task) → t.status ≡ new → task_status t ≡ succeeded → All HasSucceeded t.commands
unfolding task_status
task_status-succeeded t stored h =
    let s : status_of once t.commands ≡ succeeded = ground arith in
    let f : once ≡ false = status_of-succeeded once t.commands s in
    All-HasSucceeded t.commands f (rw f at s)
  where
    once : Bool
    once = failed_at_least_once t.commands
