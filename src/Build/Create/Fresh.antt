-- ===== src/Build/Create/Fresh.antt =====
-- A build that New makes starts with fresh tasks, one for each ID.
use cirrus_cli.Prelude.{
  false, ◌≡◌, refl, ◌≢◌, ◌⊎◌, inl, inr, Option, some, List, [], ◌∷◌, All, ◌==◌, Bool-cases,
  Option-cases, arith, subst,
}
use cirrus_cli.Build.Defs.{new, skipped, undefined, Command, Instance, Task, Build, set_status}
use cirrus_cli.Build.Create.{
  ProtoTask, ProtoCommand, created, skipped_by_parser, other_status, Created, made, fails,
  ProtoStatus, remove_clone, wrap_commands, wrap_task, with_status, timeout_fails, new_from_proto,
  put_task, wrap_tasks, new_build,
}

-- nothing of the task has run: its status is new, or skipped, and its commands are undefined
abbrev pub IsFresh : Task → Type 0
IsFresh t =
    ((t.status ≡ new) ⊎ (t.status ≡ skipped))
    × All (λ (c : Command). c.status ≡ undefined) t.commands

abbrev pub IsDistinct : List Task → Type 0
IsDistinct [] = Unit
IsDistinct (t ∷ ts) = All (λ (u : Task). t.id ≢ u.id) ts × IsDistinct ts

abbrev pub IsStart : List Task → Type 0
IsStart ts = All IsFresh ts × IsDistinct ts

wrap_commands-undefined :
    (cs : List ProtoCommand) → All (λ (c : Command). c.status ≡ undefined) (wrap_commands cs)
unfolding wrap_commands
wrap_commands-undefined [] = tt
wrap_commands-undefined (c ∷ cs) = (refl, wrap_commands-undefined cs)

abbrev Freshly : Created Task → Type 0
Freshly (made t) = IsFresh t
Freshly (fails e) = Unit

with_status-Freshly :
    (p : ProtoTask) (i : Instance) (q : ProtoStatus) → Freshly (with_status q (wrap_task p i))
with_status-Freshly p i created = (inl refl, wrap_commands-undefined (remove_clone p.commands))
with_status-Freshly p i skipped_by_parser =
    (inr refl, wrap_commands-undefined (remove_clone p.commands))
with_status-Freshly p i other_status = tt

All-put_task :
    (P : Task → Type 0) (t : Task) (us : List Task) → P t → All P us → All P (put_task t us)
unfolding put_task
All-put_task P t [] h a = (h, tt)
All-put_task P t (u ∷ us) h a = elim (Bool-cases (u.id == t.id)) [
  | inl e ↦ rw e (h, a.1)
  | inr e ↦ rw e (a.0, All-put_task P t us h a.1)
]

put_task-IsDistinct : (t : Task) (us : List Task) → IsDistinct us → IsDistinct (put_task t us)
unfolding put_task
put_task-IsDistinct t [] d = (tt, tt)
put_task-IsDistinct t (u ∷ us) d = elim (Bool-cases (u.id == t.id)) [
  | inl e ↦ rw e (subst (λ i. All (λ (v : Task). i ≢ v.id) us) (ground (arith, e)) d.0, d.1)
  | inr e ↦
      rw e
        (All-put_task (λ v. u.id ≢ v.id) t us (ground (arith, e)) d.0, put_task-IsDistinct t us d.1)
]

module _ (new_instance : ProtoTask → Option Instance) where
  new_from_proto-Freshly : (p : ProtoTask) → Freshly (new_from_proto new_instance p)
  unfolding new_from_proto
  new_from_proto-Freshly p = elim (Option-cases (new_instance p)) [
    | inl e ↦ rw (e, new_from_proto) tt
    | inr (i, e) ↦ elim (Bool-cases (timeout_fails p.timeout_in)) [
      | inl h ↦ rw (e, new_from_proto, h) tt
      | inr h ↦ rw (e, new_from_proto, h) (with_status-Freshly p i p.status)
    ]
  ]

  abbrev StartsWith : Created (List Task) → Type 0
  StartsWith (made ts) = IsStart ts
  StartsWith (fails e) = Unit

  wrap_tasks-StartsWith :
      (ps : List ProtoTask) (wrapped : List Task)
      → IsStart wrapped
      → StartsWith (wrap_tasks new_instance ps wrapped)
  unfolding wrap_tasks
  wrap_tasks-StartsWith [] wrapped s = s
  wrap_tasks-StartsWith (p ∷ ps) wrapped s =
      go (new_from_proto new_instance p) refl (new_from_proto-Freshly p) (wrap_tasks-StartsWith ps)
    where
      go :
          (r : Created Task)
          → new_from_proto new_instance p ≡ r
          → Freshly (new_from_proto new_instance p)
          → ((w : List Task) → IsStart w → StartsWith (wrap_tasks new_instance ps w))
          → StartsWith (wrap_tasks new_instance (p ∷ ps) wrapped)
      go (fails x) e f ih = rw (e, wrap_tasks) tt
      go (made t) e f ih =
          rw (e, wrap_tasks)
            (ih (put_task t wrapped)
              (All-put_task IsFresh t wrapped (rw e at f) s.0, put_task-IsDistinct t wrapped s.1))

  -- what NewFromProto accepts: an instance can be made, the timeout is a number, and the status is known
  abbrev pub IsAccepted : ProtoTask → Type 0
  IsAccepted p =
      ((i : Instance) × (new_instance p ≡ some i))
      × (timeout_fails p.timeout_in ≡ false)
      × (p.status ≢ other_status)

  with_status-made :
      (q : ProtoStatus) (t : Task) → q ≢ other_status → (u : Task) × (with_status q t ≡ made u)
  with_status-made created t h = (set_status new t, refl)
  with_status-made skipped_by_parser t h = (set_status skipped t, refl)
  with_status-made other_status t h = absurd (h refl)

  new_from_proto-made :
      (p : ProtoTask) → IsAccepted p → (t : Task) × (new_from_proto new_instance p ≡ made t)
  unfolding new_from_proto
  new_from_proto-made p ((i, e), h, q) =
      let (t, r) = with_status-made p.status (wrap_task p i) q in (t, rw (e, new_from_proto, h) r)

  wrap_tasks-made :
      (ps : List ProtoTask) (wrapped : List Task)
      → All IsAccepted ps
      → (ts : List Task) × (wrap_tasks new_instance ps wrapped ≡ made ts)
  unfolding wrap_tasks
  wrap_tasks-made [] wrapped h = (wrapped, refl)
  wrap_tasks-made (p ∷ ps) wrapped h =
      let (t, e) = new_from_proto-made p h.0 in
      let (ts, r) = wrap_tasks-made ps (put_task t wrapped) h.1 in (ts, rw (e, wrap_tasks) r)

  -- If filepath.Abs and cache.New succeed and NewFromProto accepts every parsed task, New makes a build;
  -- its tasks have distinct IDs, each is new or skipped, and none of its commands has a result.
  pub new_build-IsStart :
      (ps : List ProtoTask)
      → All IsAccepted ps
      → (b : Build) × (new_build new_instance false false ps ≡ made b) × IsStart b.tasks
  unfolding new_build
  new_build-IsStart ps h =
      let (ts, e) = wrap_tasks-made ps [] h in
      (
        record { tasks = ts },
        rw (e, new_build) refl,
        rw e at (wrap_tasks-StartsWith ps [] (tt, tt)),
      )
