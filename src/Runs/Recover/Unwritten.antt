-- ===== src/Runs/Recover/Unwritten.antt =====
-- Recovery makes no call of DestinationCoordinator.apply and spends no approval
-- (src/coursefuzz/services/run_service.py).
use course_fuzz.Prelude.{ℕ, ◌+◌, String, List, [], ◌∷◌, ◌≡◌}
use course_fuzz.Models.{RunStatus, AnalysisResult}
use course_fuzz.Repository.{list_recoverable_runs}
use course_fuzz.Runs.{Ports, World, Run}
use course_fuzz.Runs.Keeps.{Keeps, Keeps-pure, Keeps-bind, Keeps-now, Keeps-save, Keeps-append}
use course_fuzz.Runs.Analyze.Unwritten.{Keeps-analyze_run}
use course_fuzz.Runs.Poll.Unwritten.{Keeps-poll_external_ci}
use course_fuzz.Runs.Recover.{
  restore_apply, requeue, recover_run, recover_runs, recover_incomplete_runs,
}

module _ (ports : Ports) where
  open ports use {env, utc_now}

  Keeps-restore_apply : (run : Run ports) → Keeps (restore_apply ports run)
  unfolding restore_apply
  Keeps-restore_apply run = Keeps-bind _ _ (Keeps-now ports) λ t.
      Keeps-bind _ _ (Keeps-save ports _)
        λ _. Keeps-bind _ _ (Keeps-append ports _ _ _ _ _) λ _. Keeps-pure _

  Keeps-requeue : (run : Run ports) (tenant_id : String) → Keeps (requeue ports run tenant_id)
  unfolding requeue
  Keeps-requeue run tenant_id = Keeps-bind _ _ (Keeps-now ports) λ t.
      Keeps-bind _ _ (Keeps-save ports _) λ _.
        Keeps-bind _ _ (Keeps-append ports _ _ _ _ _)
          λ _. Keeps-bind _ _ (Keeps-analyze_run ports run.id tenant_id) λ _. Keeps-pure _

  Keeps-recover_run :
      (d : ℕ) (tenant_id : String) (run : Run ports) (status : RunStatus)
      → Keeps (recover_run ports d tenant_id run status)
  unfolding recover_run
  Keeps-recover_run d tenant_id run RunStatus.applying = Keeps-restore_apply run
  Keeps-recover_run d tenant_id run RunStatus.analyzing = Keeps-requeue run tenant_id
  Keeps-recover_run d tenant_id run RunStatus.external_ci_pending =
      Keeps-bind _ _ (Keeps-poll_external_ci ports run.id tenant_id d utc_now) λ _. Keeps-pure 1
  Keeps-recover_run d tenant_id run RunStatus.queued =
      Keeps-bind _ _ (Keeps-analyze_run ports run.id tenant_id) λ _. Keeps-pure 1
  Keeps-recover_run d tenant_id run RunStatus.approval_required = Keeps-pure 0
  Keeps-recover_run d tenant_id run RunStatus.approved = Keeps-pure 0
  Keeps-recover_run d tenant_id run RunStatus.verified = Keeps-pure 0
  Keeps-recover_run d tenant_id run RunStatus.no_action_required = Keeps-pure 0
  Keeps-recover_run d tenant_id run RunStatus.external_ci_failed = Keeps-pure 0
  Keeps-recover_run d tenant_id run RunStatus.failed = Keeps-pure 0

  Keeps-recover_runs :
      (d : ℕ) (runs : List (String × Run ports)) (recovered : ℕ)
      → Keeps (recover_runs ports d runs recovered)
  unfolding recover_runs
  Keeps-recover_runs d [] recovered = Keeps-pure recovered
  Keeps-recover_runs d ((tenant_id, run) ∷ rest) recovered =
      Keeps-bind _ _ (Keeps-recover_run d tenant_id run run.status)
        λ n. Keeps-recover_runs d rest (recovered + n)

  -- Whatever runs a recovery finds and however it ends, it adds nothing to the log of the calls of
  -- DestinationCoordinator.apply and leaves every approval as it was.
  pub recover_incomplete_runs-unwritten :
      (deadline limit : ℕ) (w : World (AnalysisResult env.Percent))
      → let w' = (recover_incomplete_runs ports deadline limit w).1 in
        (w'.writes ≡ w.writes) × (w'.store.approvals ≡ w.store.approvals)
  unfolding recover_incomplete_runs
  recover_incomplete_runs-unwritten deadline limit w =
      (Keeps-recover_runs deadline (list_recoverable_runs limit w.store) 0).keeps w
