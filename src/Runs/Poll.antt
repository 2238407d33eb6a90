-- ===== src/Runs/Poll.antt =====
-- RunService.poll_external_ci (src/coursefuzz/services/run_service.py).
pub mod Concluded
pub mod Unwritten
use course_fuzz.Prelude.{
  ℕ, ◌+◌, String, Bool, true, false, Option, none, some, ltb, ◌==◌, string_eq, if◌then◌else◌,
}
use course_fuzz.Prelude.Text.{◌++ₛ◌}
use course_fuzz.Prelude.Result.{ok}
use course_fuzz.Models.{RunView, RunStatus, ActionReceipt, Time, status_beq}
use course_fuzz.Runs.{
  Ports, Payload, CiState, CheckRunStatus, pure, call, ◌>>=◌, Act, Run, save, append, require_run,
}

-- The repository and the commit of a receipt that has both, as non-empty texts.
pub target_of : Option ActionReceipt → Option (ActionReceipt × String × String)
target_of none = none
target_of (some r) = both r.repository r.commit_sha
  where
    both : Option String → Option String → Option (ActionReceipt × String × String)
    both (some repository) (some commit) =
        if repository == ""
        then none
        else if commit == ""
        then none
        else some (r, repository, commit)
    both _ _ = none

abbrev pub started_or : Option Time → Time → Time
started_or none moment = moment
started_or (some t) moment = t

-- The conclusion, as an f-string shows it.
abbrev shown : Option String → String
shown none = "None"
shown (some s) = s

module _ (ports : Ports) where
  open ports use {check_runs}

  pub ci_verified :
      Run ports → ActionReceipt → CheckRunStatus → (moment : Time) → Act ports (Run ports)
  ci_verified run receipt status moment =
      let finalized = record receipt {
        external_ci_url = status.url;
        external_ci_conclusion = some "success";
        external_ci_completed_at = some moment;
        external_ci_verified = true;
      } in
      let verified = record run {
        status = RunStatus.verified;
        action_receipt = some finalized;
        updated_at = moment;
      } in
      save ports verified >>= λ _.
      append ports run.id "external_ci.verified" "external-ci"
        "Target repository CI passed on the draft PR; the external action is verified."
        (Payload.ci_result status.url none)
      >>= λ _. pure verified

  pub ci_failed :
      Run ports
      → ActionReceipt
      → CheckRunStatus
      → (conclusion : Option String) → (moment : Time) → Act ports (Run ports)
  ci_failed run receipt status conclusion moment =
      let finalized = record receipt {
        external_ci_url = status.url;
        external_ci_conclusion = conclusion;
        external_ci_completed_at = some moment;
      } in
      let failed = record run {
        status = RunStatus.external_ci_failed;
        action_receipt = some finalized;
        error = some ("Target repository CI did not pass: " ++ₛ shown conclusion);
        updated_at = moment;
      } in
      save ports failed >>= λ _.
      append ports run.id "external_ci.failed" "external-ci"
        "Target repository CI did not pass; the external action is not verified."
        (Payload.ci_result status.url conclusion)
      >>= λ _. pure failed

  -- `elapsed > deadline_seconds`, in the unit of the clock.
  abbrev pub overdue : ActionReceipt → (deadline : ℕ) → (moment : Time) → Bool
  overdue receipt deadline moment =
      ltb (started_or receipt.external_ci_started_at moment + deadline) moment

  pub advance :
      Run ports
      → ActionReceipt
      → (deadline : ℕ) → CheckRunStatus
      → CiState
      → (moment : Time) → Act ports (Run ports)
  unfolding ci_verified ci_failed
  advance run receipt deadline status CiState.success moment = ci_verified run receipt status moment
  advance run receipt deadline status CiState.failure moment =
      ci_failed run receipt status status.conclusion moment
  advance run receipt deadline status CiState.pending moment =
      if overdue receipt deadline moment
      then ci_failed run receipt status (some "timed_out") moment
      else pure run

  pub poll_target :
      Run ports
      → (deadline : ℕ) → (now : ℕ → Time) → (tenant_id : String)
      → Option (ActionReceipt × String × String)
      → Act ports (Run ports)
  unfolding advance
  poll_target run deadline now tenant_id none = pure run
  poll_target run deadline now tenant_id (some (receipt, repository, commit)) =
      call (λ n. check_runs n repository commit tenant_id) >>= λ status.
      call (λ n. ok (now n)) >>= λ moment. advance run receipt deadline status status.state moment

  unfoldable pub poll_external_ci :
      (run_id tenant_id : String) → (deadline : ℕ) → (now : ℕ → Time) → Act ports (Run ports)
  unfolding require_run poll_target target_of
  poll_external_ci run_id tenant_id deadline now = require_run ports run_id tenant_id >>= λ run.
      if status_beq run.status RunStatus.external_ci_pending
      then poll_target run deadline now tenant_id (target_of run.action_receipt)
      else pure run
