-- ===== src/Runs/Poll/Unwritten.antt =====
-- A poll writes to no destination and leaves the approvals alone.
use course_fuzz.Prelude.{ℕ, String, Option, none, some}
use course_fuzz.Models.{RunStatus, ActionReceipt, Time, status_beq}
use course_fuzz.Runs.{Ports, Run, CiState, CheckRunStatus}
use course_fuzz.Runs.Keeps.{
  Keeps, Keeps-pure, Keeps-call, Keeps-bind, Keeps-test, Keeps-save, Keeps-append,
}
use course_fuzz.Runs.Analyze.Unwritten.{Keeps-require_run}
use course_fuzz.Runs.Poll.{
  target_of, overdue, ci_verified, ci_failed, advance, poll_target, poll_external_ci,
}

module _ (ports : Ports) where
  Keeps-ci_verified :
      (run : Run ports) (r : ActionReceipt) (s : CheckRunStatus) (t : Time)
      → Keeps (ci_verified ports run r s t)
  unfolding ci_verified
  Keeps-ci_verified run r s t =
      Keeps-bind _ _ (Keeps-save ports _)
        λ _. Keeps-bind _ _ (Keeps-append ports _ _ _ _ _) λ _. Keeps-pure _

  Keeps-ci_failed :
      (run : Run ports) (r : ActionReceipt) (s : CheckRunStatus) (c : Option String) (t : Time)
      → Keeps (ci_failed ports run r s c t)
  unfolding ci_failed
  Keeps-ci_failed run r s c t =
      Keeps-bind _ _ (Keeps-save ports _)
        λ _. Keeps-bind _ _ (Keeps-append ports _ _ _ _ _) λ _. Keeps-pure _

  Keeps-advance :
      (run : Run ports) (r : ActionReceipt) (d : ℕ) (s : CheckRunStatus) (state : CiState)
      (t : Time)
      → Keeps (advance ports run r d s state t)
  unfolding advance
  Keeps-advance run r d s CiState.success t = Keeps-ci_verified run r s t
  Keeps-advance run r d s CiState.failure t = Keeps-ci_failed run r s s.conclusion t
  Keeps-advance run r d s CiState.pending t =
      Keeps-test (overdue ports r d t) _ _ (Keeps-ci_failed run r s (some "timed_out") t)
        (Keeps-pure run)

  Keeps-poll_target :
      (run : Run ports) (d : ℕ) (now : ℕ → Time) (tenant_id : String)
      (o : Option (ActionReceipt × String × String))
      → Keeps (poll_target ports run d now tenant_id o)
  unfolding poll_target
  Keeps-poll_target run d now tenant_id none = Keeps-pure run
  Keeps-poll_target run d now tenant_id (some (receipt, repository, commit)) =
      Keeps-bind _ _ (Keeps-call _)
        λ s. Keeps-bind _ _ (Keeps-call _) λ t. Keeps-advance run receipt d s s.state t

  pub Keeps-poll_external_ci :
      (run_id tenant_id : String) (d : ℕ) (now : ℕ → Time)
      → Keeps (poll_external_ci ports run_id tenant_id d now)
  unfolding poll_external_ci
  Keeps-poll_external_ci run_id tenant_id d now =
      Keeps-bind _ _ (Keeps-require_run ports run_id tenant_id) λ run.
        Keeps-test (status_beq run.status RunStatus.external_ci_pending) _ _
          (Keeps-poll_target run d now tenant_id (target_of run.action_receipt)) (Keeps-pure run)
