-- ===== src/Sandbox/Stops.antt =====
-- src/sandbox-manager.ts: every container that a Docker sandbox starts is asked to stop, once.
use pi_ptc_advanced.Common.{
  ltb, leb, if◌then◌else◌, if-both, Result, ok, err, Text, trim, truthy, ℕ, ◌+◌, ◌≡◌, refl, sym, ap,
  ◌∙◌, ◌↔◌, Bool, true, false, ◌&&◌, Option, none, some, List, [], ◌∷◌, ◌++◌, map,
}
use mathlib.Core.Path.{subst}
use pi_ptc_advanced.Settings.{PtcSettings}
use pi_ptc_advanced.Sandbox.{
  Docker, DockerSandbox, subprocess, container, new_docker_sandbox, stop_container,
  stop_container_now, has_container, execution_timeout, cleanup_expired, container_name,
  keep_container, run_container, ensure_container, exec_in, spawn, cleanup, create_sandbox,
  SandboxEvent, spawned, timer_ticked, cleaned_up, use_sandbox, use_all,
}

-- `docker run -d` prints the id of the container, which is not empty.
abbrev pub PrintsIds : Docker → Type 0
PrintsIds docker =
    (name cwd output : Text) → docker.run name cwd ≡ ok output → truthy (trim output) ≡ true

abbrev current : Option Text → List Text
current none = []
current (some id) = id ∷ []

abbrev IsNamed : Option Text → Type 0
IsNamed none = Unit
IsNamed (some id) = truthy id ≡ true

-- Where the sandbox holds `held`: the containers that have been started are those asked to stop and
-- then the one that it holds.
abbrev Tracks : DockerSandbox → Option Text → Type 0
Tracks s held = (map (λ e. e.0) s.started ≡ s.stopped ++ current held) × IsNamed held

abbrev IsTracked : DockerSandbox → Type 0
IsTracked s = Tracks s s.container_id

-- As `IsTracked`, with no container left.
abbrev IsStopped : DockerSandbox → Type 0
IsStopped s = (map (λ e. e.0) s.started ≡ s.stopped) × (s.container_id ≡ none)

append_nil {ℓ} : {A : Type ℓ} (xs : List A) → (xs ++ []) ≡ xs
append_nil [] = refl
append_nil (x ∷ xs) = ap (x ∷◌) (append_nil xs)

map-snoc {ℓ κ} :
    {A : Type ℓ} {B : Type κ} (f : A → B) (xs : List A) (x : A)
    → map f (xs ++ x ∷ []) ≡ map f xs ++ f x ∷ []
map-snoc f [] x = refl
map-snoc f (y ∷ ys) x = ap (f y ∷◌) (map-snoc f ys x)

module _ (docker : Docker) where
  stop-IsStopped : (s : DockerSandbox) → IsTracked s → IsStopped (stop_container_now docker s).0
  unfolding stop_container_now stop_container
  stop-IsStopped s tracked = by_id s.container_id refl tracked
    where
      by_id :
          (found : Option Text)
          → s.container_id ≡ found
          → Tracks s found
          → IsStopped (stop_container docker s found).0
      by_id none e (same, named) = (same ∙ append_nil s.stopped, e)
      by_id (some []) e (same, named) = cc
      by_id (some (c ∷ id)) e (same, named) = (same, refl)

  stopped-IsTracked : (s : DockerSandbox) → IsStopped s → IsTracked s
  stopped-IsTracked s (same, e) =
      let track : Tracks s none = (same ∙ sym (append_nil s.stopped), tt) in
      subst (Tracks s) (sym e) track

  run-IsTracked :
      (now : ℕ) (cwd : Text) (s : DockerSandbox) (r : Result (Unit {0}))
      → PrintsIds docker
      → IsStopped s
      → IsTracked (run_container docker now cwd (s, r)).0
  unfolding run_container keep_container
  run-IsTracked now cwd s (err message) prints stopped = stopped-IsTracked s stopped
  run-IsTracked now cwd s (ok done) prints stopped =
      by_output (docker.run (container_name s now) cwd) refl
    where
      by_output :
          (r : Result Text)
          → docker.run (container_name s now) cwd ≡ r
          → IsTracked (keep_container s cwd r).0
      by_output (err message) e = stopped-IsTracked s stopped
      by_output (ok output) e = (
        map-snoc (λ e. e.0) s.started (trim output, cwd) ∙ ap (◌++ trim output ∷ []) stopped.0,
        prints (container_name s now) cwd output e,
      )

  ensure-IsTracked :
      (now : ℕ) (cwd : Text) (s : DockerSandbox)
      → PrintsIds docker
      → IsTracked s
      → IsTracked (ensure_container docker now cwd s).0
  unfolding ensure_container
  ensure-IsTracked now cwd s prints tracked =
      if-both (λ (r : DockerSandbox × Result (Unit {0})). IsTracked r.0)
        (has_container s && leb now (s.last_used + execution_timeout)) tracked
        (run-IsTracked now cwd (stop_container_now docker s).0 (stop_container_now docker s).1
          prints (stop-IsStopped s tracked))

  exec-IsTracked :
      (used : ℕ) (code : Text) (s : DockerSandbox) (r : Result (Unit {0}))
      → IsTracked s
      → IsTracked (exec_in used code (s, r)).0
  unfolding exec_in
  exec-IsTracked used code s (err message) tracked = tracked
  exec-IsTracked used code s (ok done) tracked = tracked

  use-IsTracked :
      (e : SandboxEvent) (s : DockerSandbox)
      → PrintsIds docker
      → IsTracked s
      → IsTracked (use_sandbox docker e s)
  unfolding use_sandbox spawn cleanup_expired cleanup
  use-IsTracked (spawned now used code cwd) s prints tracked =
      let (ensured, r) = ensure_container docker now cwd s in
      exec-IsTracked used code ensured r (ensure-IsTracked now cwd s prints tracked)
  use-IsTracked (timer_ticked now) s prints tracked =
      let stopped = stop-IsStopped s tracked in
      let track = stopped-IsTracked (stop_container_now docker s).0 stopped in
      if-both IsTracked s.cleanup_interval
        (if-both IsTracked (has_container s && ltb (s.last_used + execution_timeout) now) track
          tracked)
        tracked
  use-IsTracked cleaned_up s prints tracked =
      let quiet : DockerSandbox = record s { cleanup_interval = false } in
      stopped-IsTracked (stop_container_now docker quiet).0 (stop-IsStopped quiet tracked)

  use_all-IsTracked :
      (es : List SandboxEvent) (s : DockerSandbox)
      → PrintsIds docker
      → IsTracked s
      → IsTracked (use_all docker es s)
  unfolding use_all
  use_all-IsTracked [] s prints tracked = tracked
  use_all-IsTracked (e ∷ es) s prints tracked =
      use_all-IsTracked es (use_sandbox docker e s) prints (use-IsTracked e s prints tracked)

  -- After any use of a Docker sandbox and its cleanup, `docker stop` has been called once for each
  -- container that it started, in the order of their start, if `docker run` prints ids.
  pub cleanup_stops_containers :
      (es : List SandboxEvent) (session_id : Text)
      → PrintsIds docker
      → (cleanup docker (use_all docker es (new_docker_sandbox session_id))).0.stopped
        ≡ map
            (λ e. e.0)
            (cleanup docker (use_all docker es (new_docker_sandbox session_id))).0.started
  unfolding cleanup new_docker_sandbox
  cleanup_stops_containers es session_id prints =
      let s = use_all docker es (new_docker_sandbox session_id) in
      let tracked = use_all-IsTracked es (new_docker_sandbox session_id) prints (refl, tt) in
      let quiet : DockerSandbox = record s { cleanup_interval = false } in
      sym (stop-IsStopped quiet tracked).0

gate :
    (d a u : Bool) (s : DockerSandbox) (no_docker not_allowed : Text)
    → ((if d
          then (if a then ok (container s) else err no_docker)
          else if u
          then ok subprocess
          else err not_allowed)
        ≡ ok subprocess)
      ↔ ((d ≡ false) × (u ≡ true))
gate true true u s x y = (λ e. cc, λ e. cc (e.0))
gate true false u s x y = (λ e. cc, λ e. cc (e.0))
gate false a true s x y = (λ e. (refl, refl), λ e. refl)
gate false a false s x y = (λ e. cc, λ e. cc (e.1))

-- A sandbox without Docker is given exactly where Docker is not asked for and the local process is
-- allowed.
pub create_sandbox-subprocess :
    (settings : PtcSettings) (docker_available : Bool) (session_id : Text)
    → (create_sandbox settings docker_available session_id ≡ ok subprocess)
      ↔ ((settings.use_docker ≡ false) × (settings.allow_unsandboxed_subprocess ≡ true))
unfolding create_sandbox
create_sandbox-subprocess settings docker_available session_id =
    gate settings.use_docker docker_available settings.allow_unsandboxed_subprocess
      (new_docker_sandbox session_id) _ _
