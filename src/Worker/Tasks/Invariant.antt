-- ===== src/Worker/Tasks/Invariant.antt =====
-- internal/worker: what holds of a worker at every time, in counts of instances and of task IDs.
use cirrus_cli.Prelude.{
  ℕ, ◌+◌, String, Option, none, some, List, [], ◌∷◌, if◌then◌else◌, str_eq, ◌≡◌, ◌⊎◌, inl, inr,
  refl, arith, ◌==◌, ltb, eq_iff, Option-cases,
}
use cirrus_cli.Worker.Api.{Api}
use cirrus_cli.Worker.Tasks.{Worker, Task, load, delete, store, delete_all}

unfoldable pub times : ℕ → List ℕ → ℕ
times n [] = 0
times n (m ∷ ms) = (if m == n then 1 else 0) + times n ms

unfoldable pub occurs : String → List String → ℕ
occurs k [] = 0
occurs k (j ∷ js) = (if str_eq j k then 1 else 0) + occurs k js

abbrev pub one : Option ℕ → List ℕ
one none = []
one (some n) = n ∷ []

abbrev pub ids : List (String × ℕ) → List String
ids [] = []
ids ((k, n) ∷ gs) = k ∷ ids gs

abbrev pub instances : List (String × ℕ) → List ℕ
instances [] = []
instances ((k, n) ∷ gs) = n ∷ instances gs

abbrev pub known {ℓ} : {V : Type ℓ} → Option V → ℕ
known none = 0
known (some v) = 1

abbrev pub listed {ℓ} : {V : Type ℓ} → String → List (String × V) → ℕ
listed k m = known (load k m)

module _ (A : Api) where
  -- `owned`: an instance is created once, and it is the standby instance, that of one goroutine or
  -- closed once. `placed`: a task has one goroutine, or its ID is being sent, or startTask failed,
  -- as often as the map of the tasks has it, once or never. `guarded`: with a standby instance
  -- there are its parameters.
  pub record Invariant (w : Worker A) : Type 0 where
    pub guarded :
        (w.standby_instance ≡ none) ⊎ ((p : A.Parameters) × (w.standby_parameters ≡ some p))
    pub owned :
        (n : ℕ)
        → times n (one w.standby_instance) + times n (instances w.running) + times n w.closed
          ≡ (if ltb n w.created then 1 else 0)
    pub placed :
        (k : String)
        → occurs k (ids w.running) + occurs k w.completions + occurs k w.failures ≡ listed k w.tasks

module _ {ℓ} {V : Type ℓ} where
  pub load-delete :
      (k j : String) (m : List (String × V))
      → load k (delete j m) ≡ (if str_eq j k then none else load k m)
  unfolding load delete
  load-delete k j [] = ground arith
  load-delete k j ((i, v) ∷ m) =
      ground (arith, load-delete k j m, eq_iff i j, eq_iff j k, eq_iff i k)

  pub load-store :
      (k j : String) (v : V) (m : List (String × V))
      → load k (store j v m) ≡ (if str_eq j k then some v else load k m)
  unfolding load store
  load-store k j v m = ground (arith, load-delete k j m)

  pub listed-store_new :
      (k j : String) (v : V) (m : List (String × V))
      → load j m ≡ none
      → listed k (store j v m) ≡ (if str_eq j k then 1 else 0) + listed k m
  listed-store_new k j v m e = ground (arith, load-store k j v m, eq_iff j k, e)

module _ (A : Api) where
  pub listed-delete_all :
      (k : String) (ks : List String) (m : List (String × Task A))
      → listed k (delete_all A ks m) ≡ (if ltb 0 (occurs k ks) then 0 else listed k m)
  unfolding delete_all occurs
  listed-delete_all k [] m = refl
  listed-delete_all k (j ∷ ks) m = elim (Option-cases (load j m)) [
    | inl e ↦ rw (e) (ground (arith, e, listed-delete_all k ks m, eq_iff j k))
    | inr (t, e) ↦
        rw (e)
          (ground (arith, e, listed-delete_all k ks (delete j m), eq_iff j k, load-delete k j m))
  ]
