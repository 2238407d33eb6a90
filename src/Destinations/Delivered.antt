-- ===== src/Destinations/Delivered.antt =====
-- RunService.apply over the destinations (src/coursefuzz/services/run_service.py,
-- src/coursefuzz/adapters/destinations.py).
use course_fuzz.Prelude.{ℕ, String, some, ◌≡◌, string_eq}
use course_fuzz.Models.{CandidatePatch}
use course_fuzz.Repository
use course_fuzz.Runs.{Ports, Run, AppliedDestination}
use course_fuzz.Runs.Apply.{apply}
use course_fuzz.Runs.Apply.Settled.{Settled}
use course_fuzz.Destinations.{Remote}
use course_fuzz.Destinations.Github
use course_fuzz.Destinations.Github.{Bound, bound_target}
use course_fuzz.Destinations.Github.Receipt.{Receipted}
use course_fuzz.Destinations.Coordinator
use course_fuzz.Destinations.Coordinator.{Files, Place}
use course_fuzz.Destinations.Coordinator.Contained.{Kept}

-- The service's destinations are a coordinator; `place` is what each of its calls finds.
pub record Serves (ports : Ports) (files : Files) (remote : Remote) : Type 0 where
  pub place : ℕ → Place
  pub serves :
      (n : ℕ) (run_id : String) (c : CandidatePatch) (tenant_id : String)
      → ports.apply n run_id c tenant_id
        ≡ (Coordinator.apply files remote run_id c tenant_id (place n)).0

module _ (ports : Ports) (files : Files) (remote : Remote) (run_id tenant_id : String)
    (c : CandidatePatch) where
  -- What stands at the destination when a run carries a digest, by the kind of the target.
  pub data Delivered (run : Run ports) : Type 0 where
    on_disk :
        (applied : AppliedDestination)
        → Kept files remote run_id c applied
        → run.artifact_sha256 ≡ some applied.receipt.artifact_sha256
        → Delivered run
    on_branch :
        (applied : AppliedDestination) (b : Bound)
        → bound_target c.target ≡ some b
        → Receipted remote c tenant_id b applied
        → run.artifact_sha256 ≡ some (remote.sha256_hex (remote.encode c.pytest_source))
        → Settled ports applied.receipt run
        → Delivered run
