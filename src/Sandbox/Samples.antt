-- ===== src/Sandbox/Samples.antt =====
-- A Docker sandbox on a concrete day.
use pi_ptc_advanced.Common.{ok, lit, trim, trim_start, truthy, ◌≡◌, refl, true, List, [], ◌∷◌, map}
use mathlib.Core.Path.{subst}
use pi_ptc_advanced.Sandbox.{
  Docker, SandboxEvent, spawned, timer_ticked, new_docker_sandbox, use_all, cleanup,
}
use pi_ptc_advanced.Sandbox.Stops.{PrintsIds, cleanup_stops_containers}

session : Unit {0}
unfolding lit trim trim_start
session = tt

-- The one id that this docker prints.
abbrev sample_docker : Docker
sample_docker = record { stop = λ id. ok tt; run = λ name cwd. ok (lit "c1") }

sample-PrintsIds : PrintsIds sample_docker
unfolding session
sample-PrintsIds name cwd output e =
    let same : lit "c1" ≡ output = cc e in subst (λ o. truthy (trim o) ≡ true) same refl

-- A run, the idle time that ends its container, and another run.
abbrev sample_use : List SandboxEvent
sample_use =
    spawned 10 20 (lit "print(1)") (lit "/a")
    ∷ timer_ticked 400000
    ∷ spawned 500000 500010 (lit "print(2)") (lit "/b")
    ∷ []

cleanup_stops_containers_example :
    (cleanup sample_docker
      (use_all sample_docker sample_use (new_docker_sandbox (lit "s")))).0.stopped
    ≡ map
        (λ e. e.0)
        (cleanup sample_docker
          (use_all sample_docker sample_use (new_docker_sandbox (lit "s")))).0.started
cleanup_stops_containers_example =
    cleanup_stops_containers sample_docker sample_use (lit "s") sample-PrintsIds
