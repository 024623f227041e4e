-- ===== src/Sandbox.antt =====
-- src/sandbox-manager.ts: which sandbox an execution gets, and the life of the container of the Docker
-- sandbox. `docker` itself is a parameter; the sandbox's calls of it are recorded.
mod Samples
pub mod Stops
use pi_ptc_advanced.Common.{
  ltb, leb, if◌then◌else◌, Result, ok, err, Text, lit, trim, is_empty, truthy, show_ℕ, ℕ, ◌+◌, Bool,
  true, false, ◌&&◌, ◌||◌, Option, none, some, get_or, List, [], ◌∷◌, ◌++◌,
}
use pi_ptc_advanced.Settings.{PtcSettings}
use pi_ptc_advanced.Common.Patterns.{contains}

abbrev execution_timeout : ℕ
execution_timeout = 270000

-- What `execSync` of `docker stop` and of `docker run` give, by the container's id, and by its name and
-- the mounted directory.
pub record Docker : Type 0 where
  pub stop : Text → Result (Unit {0})
  pub run : Text → Text → Result Text

-- DockerSandbox. `started` are the ids that `docker run` printed, with the directory that it mounted,
-- and `stopped` are the ids that `docker stop` was called with.
pub record DockerSandbox : Type 0 where
  pub container_id : Option Text
  pub last_used : ℕ
  pub session_id : Text
  pub cleanup_interval : Bool
  pub started : List (Text × Text)
  pub stopped : List Text

-- What `spawn` gives to `child_process.spawn`.
pub data ChildProcess : Type 0 where
  python : Text → Text → ChildProcess
  docker_exec : Text → Text → ChildProcess

pub data SandboxManager : Type 0 where
  subprocess : SandboxManager
  container : DockerSandbox → SandboxManager

unfoldable pub new_docker_sandbox : Text → DockerSandbox
new_docker_sandbox session_id = record {
  container_id = none;
  last_used = 0;
  session_id = session_id;
  cleanup_interval = true;
  started = [];
  stopped = [];
}

-- The messages after which a container is gone anyway.
is_gone : Text → Bool
unfolding contains
is_gone message =
    contains (lit "No such container") message || contains (lit "is not running") message

stop_failed : Text → Result (Unit {0}) → Result (Unit {0})
unfolding is_gone
stop_failed id (ok done) = ok done
stop_failed id (err message) =
    if is_gone message
    then ok tt
    else err (lit "Failed to stop container " ++ (id ++ (lit ": " ++ message)))

unfoldable pub stop_container :
    Docker → DockerSandbox → Option Text → DockerSandbox × Result (Unit {0})
unfolding stop_failed
stop_container docker s none = (s, ok tt)
stop_container docker s (some id) = if is_empty id then (s, ok tt) else (
  record s { container_id = none; stopped = s.stopped ++ id ∷ [] },
  stop_failed id (docker.stop id),
)

unfoldable pub stop_container_now : Docker → DockerSandbox → DockerSandbox × Result (Unit {0})
unfolding stop_container
stop_container_now docker s = stop_container docker s s.container_id

abbrev has_container : DockerSandbox → Bool
has_container s = elim s.container_id [ none ↦ false | some id ↦ truthy id ]

-- The timer's round: what it throws is dropped.
unfoldable pub cleanup_expired : Docker → ℕ → DockerSandbox → DockerSandbox
unfolding stop_container_now
cleanup_expired docker now s =
    if has_container s && ltb (s.last_used + execution_timeout) now
    then (stop_container_now docker s).0
    else s

container_name : DockerSandbox → ℕ → Text
unfolding show_ℕ
container_name s now = lit "pi-ptc-" ++ (s.session_id ++ (lit "-" ++ show_ℕ now))

-- What follows `docker run`.
unfoldable pub keep_container :
    DockerSandbox → Text → Result Text → DockerSandbox × Result (Unit {0})
keep_container s cwd (err message) = (s, err message)
keep_container s cwd (ok output) = (
  record s { container_id = some (trim output); started = s.started ++ (trim output, cwd) ∷ [] },
  ok tt,
)

-- What follows `stopContainerNow`, at the time `now`.
unfoldable pub run_container :
    Docker → ℕ → Text → DockerSandbox × Result (Unit {0}) → DockerSandbox × Result (Unit {0})
unfolding container_name keep_container
run_container docker now cwd (s, err message) = (s, err message)
run_container docker now cwd (s, ok done) =
    keep_container s cwd (docker.run (container_name s now) cwd)

unfoldable pub ensure_container :
    Docker → ℕ → Text → DockerSandbox → DockerSandbox × Result (Unit {0})
unfolding run_container stop_container_now
ensure_container docker now cwd s =
    if has_container s && leb now (s.last_used + execution_timeout)
    then (s, ok tt)
    else run_container docker now cwd (stop_container_now docker s)

-- The end of `spawn`, at the time `used`. `containerId as string` is a string after
-- `ensureContainer`.
unfoldable pub exec_in :
    ℕ → Text → DockerSandbox × Result (Unit {0}) → DockerSandbox × Result ChildProcess
exec_in used code (s, err message) =
    (s, err (lit "Failed to create/use Docker container: " ++ message))
exec_in used code (s, ok done) =
    (record s { last_used = used }, ok (docker_exec (get_or s.container_id []) code))

unfoldable pub spawn :
    Docker → ℕ → ℕ → Text → Text → DockerSandbox → DockerSandbox × Result ChildProcess
unfolding ensure_container exec_in
spawn docker now used code cwd s = exec_in used code (ensure_container docker now cwd s)

-- `spawn` of SubprocessSandbox; its `cleanup` does nothing.
unfoldable pub spawn_subprocess : Text → Text → ChildProcess
spawn_subprocess code cwd = python code cwd

unfoldable pub cleanup : Docker → DockerSandbox → DockerSandbox × Result (Unit {0})
unfolding stop_container_now
cleanup docker s = stop_container_now docker (record s { cleanup_interval = false })

unfoldable pub get_runtime_workspace_root : SandboxManager → Text → Text
get_runtime_workspace_root subprocess cwd = cwd
get_runtime_workspace_root (container s) cwd = lit "/workspace"

-- `docker_available` is whether `docker --version` runs, and `session_id` a fresh UUID.
unfoldable pub create_sandbox : PtcSettings → Bool → Text → Result SandboxManager
unfolding new_docker_sandbox
create_sandbox settings docker_available session_id =
    if settings.use_docker
    then (if docker_available
        then ok (container (new_docker_sandbox session_id))
        else err (lit "PTC_USE_DOCKER=true but Docker is not available on this system."))
    else if settings.allow_unsandboxed_subprocess
    then ok subprocess
    else err (
        lit
          "PTC requires a sandboxed runtime. Set PTC_USE_DOCKER=true or explicitly opt into local subprocess mode with PTC_ALLOW_UNSANDBOXED_SUBPROCESS=true.")

-- What is done with a sandbox, with the times at which it is.
pub data SandboxEvent : Type 0 where
  spawned : ℕ → ℕ → Text → Text → SandboxEvent
  timer_ticked : ℕ → SandboxEvent
  cleaned_up : SandboxEvent

unfoldable pub use_sandbox : Docker → SandboxEvent → DockerSandbox → DockerSandbox
unfolding spawn cleanup_expired cleanup
use_sandbox docker (spawned now used code cwd) s = (spawn docker now used code cwd s).0
use_sandbox docker (timer_ticked now) s =
    if s.cleanup_interval then cleanup_expired docker now s else s
use_sandbox docker cleaned_up s = (cleanup docker s).0

unfoldable pub use_all : Docker → List SandboxEvent → DockerSandbox → DockerSandbox
unfolding use_sandbox
use_all docker [] s = s
use_all docker (e ∷ es) s = use_all docker es (use_sandbox docker e s)
