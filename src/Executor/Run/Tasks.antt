-- ===== src/Executor/Run/Tasks.antt =====
-- The tasks of a build while Executor.Run replaces them one by one.
use cirrus_cli.Prelude.{
  ℕ, ◌<◌, ◌+◌, true, ◌≡◌, refl, ◌≢◌, inl, inr, some, List, [], ◌∷◌, All, In, subst, ap, Bool-cases,
  arith, if◌then◌else◌, ◌==◌,
}
use cirrus_cli.Build.{new, Task, is_new, task_status, get_task}
use cirrus_cli.Build.Status.{is_new_iff}
use cirrus_cli.Executor.Rpc.{replace_task}

-- no two places of the list hold one ID
abbrev pub Distinct : List Task → Type 0
Distinct [] = Unit
Distinct (t ∷ ts) = All (λ (u : Task). t.id ≢ u.id) ts × Distinct ts

-- how many tasks are still new
unfoldable pub count_new : List Task → ℕ
count_new [] = 0
count_new (t ∷ ts) = (if is_new (task_status t) then 1 else 0) + count_new ts

absent : (n : ℕ) (ts : List Task) (t : Task) → All (λ (u : Task). n ≢ u.id) ts → In t ts → n ≢ t.id
absent n [] t h m = absurd m
absent n (u ∷ us) t h (inl e) = ground (arith, h.0, ap (λ (v : Task). v.id) e)
absent n (u ∷ us) t h (inr m) = absent n us t h.1 m

-- a member is what its ID finds
pub get_task-In : (t : Task) (ts : List Task) → Distinct ts → In t ts → get_task t.id ts ≡ some t
unfolding get_task
get_task-In t [] d m = absurd m
get_task-In t (u ∷ us) d (inl e) = ground (arith, e)
get_task-In t (u ∷ us) d (inr m) = ground (arith, absent u.id us t d.0 m, get_task-In t us d.1 m)

pub In-get_task :
    (n : ℕ) (t : Task) (ts : List Task) → get_task n ts ≡ some t → In t ts × (t.id ≡ n)
unfolding get_task
In-get_task n t [] h = cc
In-get_task n t (u ∷ us) h = elim (Bool-cases (u.id == n)) [
  | inl e ↦ (inl (ground arith), ground arith)
  | inr e ↦ let (m, p) = In-get_task n t us (ground arith) in (inr m, p)
]

module _ (t u : Task) (same : u.id ≡ t.id) where
  pub get_task-replace :
      (j : ℕ) (ts : List Task)
      → get_task t.id ts ≡ some t
      → get_task j (replace_task t.id u ts) ≡ (if t.id == j then some u else get_task j ts)
  unfolding get_task replace_task
  get_task-replace j [] h = cc
  get_task-replace j (v ∷ vs) h = ground (arith, same, get_task-replace j vs)

  All-ids-replace :
      (n : ℕ) (ts : List Task)
      → All (λ (v : Task). n ≢ v.id) ts
      → All (λ (v : Task). n ≢ v.id) (replace_task t.id u ts)
  unfolding replace_task
  All-ids-replace n [] h = tt
  All-ids-replace n (v ∷ vs) h = ground (arith, same, All-ids-replace n vs h.1)

  id_of : (v : Task) → (v.id == t.id) ≡ true → v.id ≡ u.id
  id_of v e = ground (arith, same)

  pub Distinct-replace : (ts : List Task) → Distinct ts → Distinct (replace_task t.id u ts)
  unfolding replace_task
  Distinct-replace [] h = tt
  Distinct-replace (v ∷ vs) h = elim (Bool-cases (v.id == t.id)) [
    | inl e ↦ rw e (subst (λ n. All (λ (w : Task). n ≢ w.id) vs) (id_of v e) h.0, h.1)
    | inr e ↦ rw e (All-ids-replace v.id vs h.0, Distinct-replace vs h.1)
  ]

  pub All-replace :
      (P : Task → Type 0) (ts : List Task) → P u → All P ts → All P (replace_task t.id u ts)
  unfolding replace_task
  All-replace P [] p h = tt
  All-replace P (v ∷ vs) p h = elim (Bool-cases (v.id == t.id)) [
    | inl e ↦ rw e (p, h.1)
    | inr e ↦ rw e (h.0, All-replace P vs p h.1)
  ]

  pub count_new-replace :
      (ts : List Task)
      → get_task t.id ts ≡ some t
      → task_status t ≡ new
      → task_status u ≢ new
      → count_new (replace_task t.id u ts) < count_new ts
  unfolding count_new replace_task get_task
  count_new-replace [] h p q = cc
  count_new-replace (v ∷ vs) h p q =
      ground (arith, count_new-replace vs, (is_new_iff (task_status u)).0)

  pub In-replace_self : (ts : List Task) → get_task t.id ts ≡ some t → In u (replace_task t.id u ts)
  unfolding get_task replace_task
  In-replace_self [] h = cc
  In-replace_self (v ∷ vs) h = elim (Bool-cases (v.id == t.id)) [
    | inl e ↦ rw e (inl refl)
    | inr e ↦ rw e (inr (In-replace_self vs (ground arith)))
  ]

  pub In-replace_ne :
      (w : Task) (ts : List Task) → w.id ≢ t.id → In w ts → In w (replace_task t.id u ts)
  unfolding replace_task
  In-replace_ne w [] n m = absurd m
  In-replace_ne w (v ∷ vs) n m = elim (Bool-cases (v.id == t.id)) [
    | inl e ↦
        rw e (elim m [ inl p ↦ absurd (ground (arith, ap (λ (x : Task). x.id) p)) | inr q ↦ inr q ])
    | inr e ↦ rw e (elim m [ inl p ↦ inl p | inr q ↦ inr (In-replace_ne w vs n q) ])
  ]
