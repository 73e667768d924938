-- ===== src/Parser/Services/Served.antt =====
-- pkg/parser/parser.go: every task with a Dockerfile depends on the service task of its hash.
use cirrus_cli.Prelude.{
  ℕ, suc, ◌≤◌, ◌<◌, String, Bool, true, Option, none, some, List, [], ◌∷◌, ◌++◌, if◌then◌else◌,
  str_eq, ◌≡◌, ◌⊎◌,
}
use cirrus_cli.Parser.Services.{
  ProtoTask, Container, Instance, Services, property_of, service_of, container_of, set_image,
  image_name, find_or_create, depend_on, serve, create_service_task, no_instance, undecodable,
}

-- the service tasks have rising IDs, from `first` to before `next`, and different hashes; the latest
-- is first
abbrev pub Rising : ℕ → ℕ → List (String × ProtoTask) → Type 0
Rising first next [] = first ≤ next
Rising first next ((hash, s) ∷ ts) =
    (s.local_group_id < next) × (service_of hash ts ≡ none) × Rising first s.local_group_id ts

-- the service tasks of p are those of q as well, whose numbers rise if those of p do
abbrev pub Kept : Services → Services → Type 0
Kept p q =
    ((h : String) (s : ProtoTask)
      → service_of h p.service_tasks ≡ some s
      → service_of h q.service_tasks ≡ some s)
    × ((first : ℕ)
        → Rising first p.id_numbering p.service_tasks
        → Rising first q.id_numbering q.service_tasks)

module _ (decimal : ℕ → String) (registry repository : String) where
  -- u is a task t as the service tasks leave it: the same, where it has no container with a
  -- Dockerfile, or with the service task of its hash among its dependencies and with its image
  abbrev pub Served : Services → ProtoTask → ProtoTask → Type 0
  Served p t u =
      (((c : Container) → container_of t.instance_of ≡ some c → str_eq c.dockerfile "" ≡ true)
        × (u ≡ t))
      ⊎ ((hash : String) × (s : ProtoTask) × (property_of "dockerfile_hash" t.properties
            ≡ some hash)
          × (service_of hash p.service_tasks ≡ some s)
          × (u ≡ record t {
            required_groups = t.required_groups ++ s.local_group_id ∷ [];
            instance_of = set_image (image_name registry repository hash) t.instance_of;
          }))

  -- a service task of a hash, with those that keep the others
  abbrev Found : String → Services → ProtoTask × Services → Type 0
  Found hash p r = (service_of hash (r.1).service_tasks ≡ some r.0) × Kept p r.1

  abbrev finding :
      String → ProtoTask → Container → Services → Option ProtoTask → ProtoTask × Services
  finding hash t c p o = elim o [
    | some s ↦ (s, p)
    | none ↦
        let s = create_service_task decimal registry repository hash t c p in
        (
          s,
          record {
            id_numbering = suc p.id_numbering;
            index_numbering = suc p.index_numbering;
            service_tasks = (hash, s) ∷ p.service_tasks;
          },
        )
  ]

  -- a task that was served, unless there was an error
  abbrev ServedBy : ProtoTask → Services → Option (ProtoTask × Services) → Type 0
  ServedBy t p none = Unit
  ServedBy t p (some (u, q)) = Served q t u × Kept p q

  abbrev hashed : ProtoTask → Container → Services → Option String → Option (ProtoTask × Services)
  hashed t c p o = elim o [
    | none ↦ none
    | some hash ↦
        let (s, q) = find_or_create decimal registry repository hash t c p in
        some (depend_on decimal registry repository hash s t, q)
  ]

  abbrev looking : ProtoTask → Services → Option Container → Option (ProtoTask × Services)
  looking t p o = elim o [ none ↦ some (t, p) | some c ↦ serve decimal registry repository t c p ]

  abbrev serving : Bool → ProtoTask → Services → Instance → Option (ProtoTask × Services)
  serving missing_allowed t p i = elim i [
    | no_instance ↦ if missing_allowed then some (t, p) else none
    | undecodable ↦ none
    | _ ↦ looking t p (container_of t.instance_of)
  ]

  -- each task of a list beside what it was made
  abbrev pub AllServed : Services → List ProtoTask → List ProtoTask → Type 0
  AllServed p [] [] = Unit
  AllServed p (t ∷ ts) (u ∷ us) = Served p t u × AllServed p ts us
  AllServed p _ _ = ⊥

  -- the same for createServiceTasks, unless there was an error
  abbrev pub Serves : List ProtoTask → Services → Option (List ProtoTask × Services) → Type 0
  Serves ts p none = Unit
  Serves ts p (some (us, q)) = AllServed q ts us × Kept p q
