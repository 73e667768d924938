-- ===== src/Worker/Tasks/Safe.antt =====
-- internal/worker: what keeps tryCreateStandby from panicking.
use cirrus_cli.Prelude.{Option, none, some, ◌≡◌, ◌≢◌, true, ◌∙◌, subst, sym}
use cirrus_cli.Worker.Api.{Api}
use cirrus_cli.Worker.Resources.{Amounts}
use cirrus_cli.Worker.Tasks.{Worker, is_warmable}
use cirrus_cli.Worker.Tasks.Moves.{Move, updates}
use cirrus_cli.Worker.Tasks.Invariant.{Invariant}

module _ (A : Api) where
  -- a worker with some resources, or nil, may have these parameters of a standby instance: where
  -- there are any, the resources are not nil and the instance has the method Warmup
  abbrev pub IsSafe : Option (Amounts A) → Option A.Parameters → Type 0
  IsSafe resources none = Unit
  IsSafe resources (some p) =
      (resources ≢ none) × (is_warmable (A.type_of (A.isolation_of p)) ≡ true)

  -- a move does not bring the worker parameters that it may not have
  abbrev pub IsAllowed : Option (Amounts A) → Move A → Type 0
  IsAllowed resources (updates p) = IsSafe resources (some p)
  IsAllowed resources _ = Unit

  -- a worker with these resources and the invariant, whose standby parameters are safe
  pub record Safe (resources : Option (Amounts A)) (w : Worker A) : Type 0 where
    pub invariant : Invariant A w
    pub same_resources : w.user_specified_resources ≡ resources
    pub parameters : IsSafe resources w.standby_parameters

  -- a worker with the settings of a safe one
  pub keep-Safe :
      (resources : Option (Amounts A)) (w v : Worker A)
      → Safe resources w
      → Invariant A v
      → v.user_specified_resources ≡ w.user_specified_resources
      → v.standby_parameters ≡ w.standby_parameters
      → Safe resources v
  keep-Safe resources w v s h e d = record {
    invariant = h;
    same_resources = e ∙ s.same_resources;
    parameters = subst (IsSafe resources) (sym d) s.parameters;
  }
