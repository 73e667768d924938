-- ===== src/Executor/Placement.antt =====
-- internal/executor/arch.go and os.go: which CPU architecture and which OS a task needs, and whether
-- the host can satisfy that.
pub mod Inherited
use cirrus_cli.Prelude.{
  ℕ, String, Bool, true, false, ◌&&◌, ◌||◌, not, Option, none, some, List, [], ◌∷◌, ◌==◌,
  if◌then◌else◌, str_eq,
}
use cirrus_cli.Build.{
  Architecture, amd64, arm64, Instance, container, freebsd, prebuilt, tart, vetu, parallels, Task,
}

-- what the code reads of the machine: runtime.GOARCH, runtime.GOOS, and whether os.Stat finds a file
pub record Host : Type 0 where
  pub goarch : String
  pub goos : String
  pub file_exists : String → Bool

-- requiresTask
unfoldable pub requires_task : List ℕ → ℕ → Bool
requires_task [] id = false
requires_task (r ∷ rs) id = if r == id then true else requires_task rs id

-- containerArch
unfoldable pub container_arch : Instance → Option Architecture
container_arch (container (some a) _) = some a
container_arch (container none _) = some amd64
container_arch _ = none

abbrev pub same_arch : Architecture → Architecture → Bool
same_arch amd64 amd64 = true
same_arch arm64 arm64 = true
same_arch _ _ = false

-- the loop of taskArch over the tasks that depend on a prebuilt image; `arch` is `found` with its value
unfoldable pub inherited_arch : ℕ → List Task → Option Architecture → Option Architecture
inherited_arch id [] arch = arch
inherited_arch id (other ∷ rest) arch = elim (requires_task other.required_ids id) [
  | false ↦ inherited_arch id rest arch
  | true ↦ elim (container_arch other.instance_of) [
    | none ↦ none
    | some dependent ↦ elim arch [
      | none ↦ inherited_arch id rest (some dependent)
      | some a ↦ elim (same_arch dependent a) [
        | true ↦ inherited_arch id rest (some a)
        | false ↦ none
      ]
    ]
  ]
]

arch_of : Instance → ℕ → List Task → Option Architecture
arch_of (container a w) id all_tasks = container_arch (container a w)
arch_of freebsd id all_tasks = some amd64
arch_of prebuilt id all_tasks = inherited_arch id all_tasks none
arch_of _ id all_tasks = none

-- taskArch
unfoldable pub task_arch : Task → List Task → Option Architecture
unfolding arch_of container_arch
task_arch t all_tasks = arch_of t.instance_of t.id all_tasks

-- containerOS
unfoldable pub container_os : Instance → Option String
container_os (container _ windows) = if windows then some "windows" else some "linux"
container_os _ = none

abbrev pub is_windows : Option String → Bool
is_windows none = false
is_windows (some os) = str_eq os "windows"

-- the loop of taskOS over the dependents of a prebuilt image, with `seenWindows` and `seenOther`
unfoldable pub inherited_os : ℕ → List Task → Bool → Bool → Bool
inherited_os id [] seen_windows seen_other = seen_windows && not seen_other
inherited_os id (other ∷ rest) seen_windows seen_other =
    let requires = requires_task other.required_ids id in
    let windows = is_windows (container_os other.instance_of) in
    inherited_os id rest (seen_windows || (requires && windows))
      (seen_other || (requires && not windows))

os_of : Instance → ℕ → List Task → Option String
os_of (container _ windows) id all_tasks = if windows then some "windows" else none
os_of tart id all_tasks = some "darwin"
os_of vetu id all_tasks = some "linux"
os_of parallels id all_tasks = some "darwin"
os_of prebuilt id all_tasks = if inherited_os id all_tasks false false then some "windows" else none
os_of _ id all_tasks = none

-- taskOS
unfoldable pub task_os : Task → List Task → Option String
unfolding os_of
task_os t all_tasks = os_of t.instance_of t.id all_tasks

-- needsLinuxContainers
unfoldable pub needs_linux_containers : Task → Bool
unfolding container_os
needs_linux_containers t = elim (container_os t.instance_of) [
  | none ↦ false
  | some os ↦ str_eq os "linux"
]

abbrev goarch_of : Architecture → String
goarch_of arm64 = "arm64"
goarch_of amd64 = "amd64"

abbrev binfmt_of : Architecture → String
binfmt_of arm64 = "/proc/sys/fs/binfmt_misc/qemu-aarch64"
binfmt_of amd64 = "/proc/sys/fs/binfmt_misc/qemu-x86_64"

-- hostSupportsArch
unfoldable pub host_supports_arch : Host → Architecture → Bool
host_supports_arch h a =
    if str_eq h.goarch (goarch_of a)
    then true
    else if str_eq h.goos "linux"
    then h.file_exists (binfmt_of a)
    else false

-- hostSupportsOS
abbrev pub host_supports_os : Host → String → Bool
host_supports_os h os = str_eq h.goos os
