-- ===== src/Lib.antt =====
-- cirrus-cli: the executor that runs the tasks of a CI build on one machine, the parser of
-- their configuration, and pure parts of the agent that runs the commands of a task and of the
-- worker.
--
-- The parser (pkg/parser) turns a configuration into tasks that require each other by ID, and
-- refuses names and cycles that make no sense. A task filter may pick some of the tasks. The
-- executor (internal/executor) wraps them as a build and runs one task after the other:
-- GetNextTask chooses a new task all of whose required tasks have left the new state, the
-- task's instance starts an agent, and the agent reports the statuses of its commands to the
-- RPC service, which stores them in the build. The status of a task is computed from these. The
-- worker (internal/worker) polls its upstreams for tasks to start and to stop, gives each an
-- instance, and may keep one on standby.
--
-- Prelude: names of the libraries, tests on numbers, lists, texts, and Outcome, a result or a
--   panic.
-- Build (internal/executor/build): Defs has Task, Command and Build with Status, SetStatus,
--   GetCommand, GetTask and GetNextTask of task.go, command.go and build.go; Status and Next
--   are about the status of a task and the choice of the next one; Create has New and
--   NewFromProto.
-- Executor (internal/executor): Placement has arch.go and os.go, with the machine as an
--   argument; Rpc has ReportCommandUpdates of rpc/rpc.go and the authentication of
--   rpc/metadata.go; Run has Run and runSingleTask of executor.go; TaskFilter has
--   taskfilter/taskfilter.go; BlobCache has cache, and its child Calls has Write and CacheInfo
--   of rpc/cache.go, by which the agent stores and finds blobs; Artifacts has UploadArtifacts
--   of rpc/artifacts.go, and pathsafe.
-- Parser (pkg/parser): Validate has validateDependenciesDeep, and its child Commands
--   validateTask, of validate.go; Dependencies has resolveDependenciesShallow and
--   searchForUnbalancedOnlyIfs, and Clone has ensureCloneInstruction, of parser.go; Labels has
--   uniqueLabels of labels.go. Tree has the tree of a configuration of node (node.go,
--   finder.go, accessor.go), its child Yaml the conversion from YAML nodes and back
--   (node/yaml.go), and Matrix modifier/matrix with what it calls of node/matrix.go; Weight and
--   Copies of Matrix are about a weight of trees by which the expansion ends. Parseable has
--   Parse of parseable/parseable.go, Tasks has parseTasks, Pipeline joins it to the checks of
--   Dependencies and Validate, and Services has createServiceTasks, of parser.go; Dockerfile
--   has the hashes of dockerfile.go; Expander has expander/expander.go and Boolevator the
--   operators of boolevator.
-- Agent (internal/agent): Shellwords (shellwords), UpdateBatcher (executor/updatebatcher),
--   Hasher (DiffWithNewer of hasher), Environment (environment/environment.go), CacheAttempts
--   (executor/cacheattempts.go), Steps (BoundedCommands, the loop of RunBuild, performStep and
--   CreateFile of executor/executor.go), Logs (executor/logs.go), Vault
--   (executor/vaultunboxer/boxedvalue.go) and CachePaths (the folders of executor/cache.go).
--   The child Reports.Served of Steps joins the agent's reports to the executor that receives
--   them.
-- Larker.Bounded: pkg/larker/fs/git/bounded.
-- Worker (internal/worker): ResourceModifier has resourcemodifier; Api is what the worker uses
--   of generated messages and of float64; Resources and Tasks have task.go and the standby
--   instance of worker.go, Moves of Tasks the calls in any order, and Poll the polls of
--   worker.go.
-- Tests: runs of the definitions on small inputs, and instances of the theorems.
--
-- State is passed explicitly: an operation takes the build, the file system or the batcher and
-- returns it changed. An error is a value, a panic is Outcome.panics. A map is a list of its
-- entries in some order of iteration; theorems hold for every order. IDs are natural numbers,
-- since the parser counts them from 0; an int64 that comes from elsewhere is not negative here.
-- A text that the code takes apart is the list of its bytes, taken to be ASCII; a text that is
-- only compared is a String. Locks are left out where the code holds them around one step of
-- the model.
--
-- Loops with a bound: Run has as much fuel as there are new tasks, and one more turn to find
-- none; validateDependenciesDeep has one turn for each task and one more, as each turn but the
-- last resolves a task; trimAllQuotes recurs at most as often as the text is long;
-- collectDependencies goes at most as deep as there are tasks; ExpandMatrices has as many
-- passes as the tree weighs and one more. The theorems show that this is enough.
--
-- Arguments, for code that is not of the repository or is input and output: what an instance
-- does when it runs and the reports of its agent (Run), whether an instance can be made of a
-- task (Create), the expansion of environment variables, built on regular expressions
-- (Environment), the labels of a task, read by reflection (Labels), the file system behind the
-- limits (Bounded), and the answer to a batch of updates (UpdateBatcher), all that the outside
-- answers to a step (Steps), json.Marshal (Vault), a timestamp (Logs), SHA-256, the names of
-- temporary files and the order of sort.Slice (BlobCache), the tag that SetString of yaml.v3
-- sets and the exemptions from merges (Tree), the parser of a task and what its only_if answers
-- (Tasks), DeepFindCollectible and what a field does with a node (Parseable), what
-- anypb.UnmarshalNew returns (Services), MD5, SHA-256 and the parser of Dockerfiles
-- (Dockerfile), regexp.MatchString (Boolevator), filepath.Join (Artifacts), doublestar.Glob
-- (CachePaths), and what New, Warmup and the upstreams answer (Worker). During a run the agent
-- reports on the task that is running.
--
-- Not modelled: the merge of inherited fields and the accessors of a tree that expand
-- variables, the fields of tasks and instances, the package that evaluates only_if, which tasks
-- have a Dockerfile, Starlark scripts, containers and virtual machines, how the agent runs a
-- process, clones a repository and moves caches and artifacts, what the worker tells an
-- upstream about a running task, metrics and the command line. Texts of messages, lines and
-- columns, timeouts and heartbeats are left out as well.
pub mod Prelude
pub mod Build
pub mod Executor
pub mod Agent
pub mod Larker
pub mod Parser
pub mod Worker
pub mod Tests
