-- ===== src/Parser/Services.antt =====
-- pkg/parser/parser.go: the service tasks that build and push the images of Dockerfiles. An instance is what anypb.UnmarshalNew returns for it. The registry
-- and the repository are those that pkg/github gives; decimal numbers enter as an argument.
pub mod Served
use Prim.Native.Nat.{Ordering}
use Prim.Native.String.{◌++◌ as joined, compare}
use cirrus_cli.Prelude.{
  ℕ, suc, String, Bool, true, false, Option, none, some, List, [], ◌∷◌, ◌++◌, map, if◌then◌else◌,
  str_eq,
}

abbrev pub Strings : Type 0
Strings = List (String × String)

-- the fields of a container that are read here; `is_windows` tests its platform
pub record Container : Type 0 where
  pub dockerfile : String
  pub docker_arguments : Strings
  pub is_windows : Bool
  pub image : String

-- an instance: nil, of a type that is not registered, one that cannot be unmarshalled, a container, a persistent
-- worker with its isolation and the container of that, the image of a service task, or another one
pub data Instance : Type 0 where
  no_instance unregistered undecodable other_instance : Instance
  container_instance : Container → Instance
  persistent_worker : Option (Option Container) → Instance
  prebuilt_image : String → String → Bool → String → Strings → Instance

-- api.Task, as far as it is read or written here; a command is its name with its script
pub record ProtoTask : Type 0 where
  pub name : String
  pub local_group_id : ℕ
  pub required_groups : List ℕ
  pub instance_of : Instance
  pub commands : Strings
  pub environment : Strings
  pub properties : Strings

-- m[key]
unfoldable pub property_of : String → Strings → Option String
property_of k [] = none
property_of k ((j, v) ∷ m) = if str_eq j k then some v else property_of k m

-- m[key] = value
unfoldable pub set_property : String → String → Strings → Strings
set_property k v [] = (k, v) ∷ []
set_property k v ((j, w) ∷ m) =
    let rest = set_property k v m in if str_eq j k then (k, v) ∷ m else (j, w) ∷ rest

-- sort.Strings
unfoldable pub insert : String → List String → List String
insert s [] = s ∷ []
insert s (t ∷ ts) =
    let rest = insert s ts in elim (compare s t) [ Ordering.gt ↦ t ∷ rest | _ ↦ s ∷ t ∷ ts ]

unfoldable pub sort_strings : List String → List String
unfolding insert
sort_strings [] = []
sort_strings (s ∷ ss) = insert s (sort_strings ss)

unfoldable pub joined_all : List String → String
joined_all [] = ""
joined_all (s ∷ ss) = joined s (joined_all ss)

-- what stands before each of the sorted texts, beside it
unfoldable pub each_after : String → List String → String
unfolding joined_all
each_after lead ss = joined_all (map (joined lead) ss)

-- the build arguments in the name of a service task
unfoldable pub build_args : Strings → String
unfolding each_after sort_strings
build_args arguments =
    each_after " "
      (sort_strings (map (λ (a : String × String). joined_all (a.0 ∷ "=" ∷ a.1 ∷ [])) arguments))

-- the build arguments in its script
unfoldable pub docker_build_args : Strings → String
unfolding each_after sort_strings
docker_build_args arguments = each_after " --build-arg " (
    sort_strings
      (map (λ (a : String × String). joined_all (a.0 ∷ "=\"" ∷ a.1 ∷ "\"" ∷ [])) arguments))

-- task.DefaultTaskProperties, merged with skip_notifications
abbrev pub service_properties : Strings
service_properties =
    ("allow_failures", "false")
    ∷ ("experimental", "false")
    ∷ ("timeout_in", "3600")
    ∷ ("trigger_type", "AUTOMATIC")
    ∷ ("skip_notifications", "true")
    ∷ []

-- the image of a Dockerfile: registry, repository and hash
unfoldable pub image_name : String → String → String → String
unfolding joined_all
image_name registry repository hash =
    joined_all (registry ∷ "/" ∷ repository ∷ "/" ∷ hash ∷ ":latest" ∷ [])

-- Parser, as far as createServiceTasks changes it, with its map of service tasks by hash
pub record Services : Type 0 where
  pub id_numbering : ℕ
  pub index_numbering : ℕ
  pub service_tasks : List (String × ProtoTask)

unfoldable pub service_of : String → List (String × ProtoTask) → Option ProtoTask
service_of hash [] = none
service_of hash ((h, t) ∷ ts) = if str_eq h hash then some t else service_of hash ts

-- the AbstractContainer of an instance: a container that is one, that of the isolation, or none
unfoldable pub container_of : Instance → Option Container
container_of (container_instance c) = some c
container_of (persistent_worker (some (some c))) = some c
container_of _ = none

-- SetImage, and the message that is packed again
unfoldable pub set_image : String → Instance → Instance
set_image image (container_instance c) = container_instance (record c { image = image })
set_image image (persistent_worker (some (some c))) =
    persistent_worker (some (some (record c { image = image })))
set_image image i = i

module _ (decimal : ℕ → String) (registry repository : String) where
  -- the commands of createServiceTask
  unfoldable pub build_script : String → Container → String
  unfolding joined_all docker_build_args image_name
  build_script hash c = joined_all (
      "docker build --tag "
      ∷ image_name registry repository hash
      ∷ " --file "
      ∷ c.dockerfile
      ∷ docker_build_args c.docker_arguments
      ∷ " "
      ∷ (if c.is_windows then "." else "${CIRRUS_DOCKER_CONTEXT:-$CIRRUS_WORKING_DIR}")
      ∷ [])

  unfoldable pub push_script : String → String
  unfolding image_name
  push_script hash =
      joined (if str_eq registry "gcr.io" then "gcloud docker -- push " else "docker push ")
        (image_name registry repository hash)

  -- createServiceTask; a missing timeout_in is read as the empty text
  unfoldable pub create_service_task : String → ProtoTask → Container → Services → ProtoTask
  unfolding build_script push_script build_args joined_all set_property property_of
  create_service_task hash t c p = record {
    name = joined_all ("Prebuild " ∷ c.dockerfile ∷ build_args c.docker_arguments ∷ []);
    local_group_id = p.id_numbering;
    required_groups = [];
    instance_of =
        prebuilt_image (joined_all (repository ∷ "/" ∷ hash ∷ [])) "latest" c.is_windows
          c.dockerfile c.docker_arguments;
    commands = ("build", build_script hash c) ∷ ("push", push_script hash) ∷ [];
    environment = t.environment;
    properties =
        set_property "timeout_in"
          (elim (property_of "timeout_in" t.properties) [ none ↦ "" | some v ↦ v ])
          (set_property "indexWithinBuild" (decimal p.index_numbering) service_properties);
  }

  -- the service task of a hash, found or created
  unfoldable pub find_or_create : String → ProtoTask → Container → Services → ProtoTask × Services
  unfolding service_of create_service_task
  find_or_create hash t c p = elim (service_of hash p.service_tasks) [
    | some s ↦ (s, p)
    | none ↦
        let s = create_service_task hash t c p in
        (
          s,
          record {
            id_numbering = suc p.id_numbering;
            index_numbering = suc p.index_numbering;
            service_tasks = (hash, s) ∷ p.service_tasks;
          },
        )
  ]

  -- the end of the loop's body, with the service task
  unfoldable pub depend_on : String → ProtoTask → ProtoTask → ProtoTask
  unfolding set_image image_name
  depend_on hash service t = record t {
    required_groups = t.required_groups ++ service.local_group_id ∷ [];
    instance_of = set_image (image_name registry repository hash) t.instance_of;
  }

  -- what the loop makes of a task with a container: none is the error that its hash is missing
  unfoldable pub serve : ProtoTask → Container → Services → Option (ProtoTask × Services)
  unfolding find_or_create depend_on property_of
  serve t c p =
      if str_eq c.dockerfile ""
      then some (t, p)
      else elim (property_of "dockerfile_hash" t.properties) [
        | none ↦ none
        | some hash ↦ let (s, q) = find_or_create hash t c p in some (depend_on hash s t, q)
      ]

  -- the body of the loop
  unfoldable pub serve_task : Bool → ProtoTask → Services → Option (ProtoTask × Services)
  unfolding serve container_of
  serve_task missing_allowed t p = elim t.instance_of [
    | no_instance ↦ if missing_allowed then some (t, p) else none
    | undecodable ↦ none
    | _ ↦ elim (container_of t.instance_of) [ none ↦ some (t, p) | some c ↦ serve t c p ]
  ]

  -- createServiceTasks: the tasks after it, and the numbering with the service tasks
  unfoldable pub create_service_tasks :
      Bool → List ProtoTask → Services → Option (List ProtoTask × Services)
  unfolding serve_task
  create_service_tasks missing_allowed [] p = some ([], p)
  create_service_tasks missing_allowed (t ∷ ts) p = elim (serve_task missing_allowed t p) [
    | none ↦ none
    | some (u, q) ↦ elim (create_service_tasks missing_allowed ts q) [
      | none ↦ none
      | some (us, r) ↦ some (u ∷ us, r)
    ]
  ]
