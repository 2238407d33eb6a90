-- ===== src/Runs/Recover.antt =====
-- RunService.recover_incomplete_runs (src/coursefuzz/services/run_service.py).
pub mod Unwritten
use course_fuzz.Prelude.{ℕ, ◌+◌, String, some, List, [], ◌∷◌}
use course_fuzz.Models.{RunStatus}
use course_fuzz.Repository.{list_recoverable_runs}
use course_fuzz.Runs.{Ports, Payload, pure, ◌>>=◌, Act, Run, now, save, append}
use course_fuzz.Runs.Analyze.{analyze_run}
use course_fuzz.Runs.Poll.{poll_external_ci}

module _ (ports : Ports) where
  open ports use {utc_now}

  pub restore_apply : Run ports → Act ports ℕ
  restore_apply run = now ports >>= λ t.
      save ports (record run {
        status = RunStatus.approved;
        error = some "Recovered an interrupted apply; reauthorize the exact payload.";
        updated_at = t;
      })
      >>= λ _.
          append ports run.id "run.recovered" "recover"
            "Interrupted apply restored to the approved retry boundary." Payload.no_payload
          >>= λ _. pure 1

  pub requeue : Run ports → (tenant_id : String) → Act ports ℕ
  requeue run tenant_id = now ports >>= λ t.
      save ports (record run { status = RunStatus.queued; updated_at = t }) >>= λ _.
      append ports run.id "run.recovered" "recover"
        "Interrupted analysis returned to the durable queue." Payload.no_payload
      >>= λ _. analyze_run ports run.id tenant_id >>= λ _. pure 1

  -- One turn of the loop: 1 if it recovered the run. The deadline of a poll is 600 seconds.
  pub recover_run : (deadline : ℕ) → (tenant_id : String) → Run ports → RunStatus → Act ports ℕ
  unfolding restore_apply requeue
  recover_run deadline tenant_id run RunStatus.applying = restore_apply run
  recover_run deadline tenant_id run RunStatus.analyzing = requeue run tenant_id
  recover_run deadline tenant_id run RunStatus.external_ci_pending =
      poll_external_ci ports run.id tenant_id deadline utc_now >>= λ _. pure 1
  recover_run deadline tenant_id run RunStatus.queued =
      analyze_run ports run.id tenant_id >>= λ _. pure 1
  recover_run deadline tenant_id run _ = pure 0

  pub recover_runs : (deadline : ℕ) → List (String × Run ports) → (recovered : ℕ) → Act ports ℕ
  unfolding recover_run
  recover_runs deadline [] recovered = pure recovered
  recover_runs deadline ((tenant_id, run) ∷ rest) recovered =
      recover_run deadline tenant_id run run.status >>= λ n.
      recover_runs deadline rest (recovered + n)

  pub recover_incomplete_runs : (deadline limit : ℕ) → Act ports ℕ
  unfolding recover_runs
  recover_incomplete_runs deadline limit w =
      recover_runs deadline (list_recoverable_runs limit w.store) 0 w
