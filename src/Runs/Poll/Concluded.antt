-- ===== src/Runs/Poll/Concluded.antt =====
-- What a poll of the target repository's CI concludes.
use course_fuzz.Prelude.{ℕ, ◌+◌, ◌<◌, ◌≤◌, ◌≡◌}
use course_fuzz.Models.{RunStatus, ActionReceipt, Time}
use course_fuzz.Repository
use course_fuzz.Runs.{Ports, CiState, CheckRunStatus, Run}
use course_fuzz.Runs.Poll.{started_or}

module _ (ports : Ports) where
  open ports use {env, check_runs}

  -- The run's status after the answer `s` of the target's checks at an instant.
  pub data Conclusion (receipt : ActionReceipt) (deadline : ℕ) (moment : Time) (s : CheckRunStatus)
      (r : Run ports) : Type 0 where
    passed :
        s.state ≡ CiState.success
        → r.status ≡ RunStatus.verified
        → Conclusion receipt deadline moment s r
    refused :
        s.state ≡ CiState.failure
        → r.status ≡ RunStatus.external_ci_failed
        → Conclusion receipt deadline moment s r
    late :
        s.state ≡ CiState.pending
        → started_or receipt.external_ci_started_at moment + deadline < moment
        → r.status ≡ RunStatus.external_ci_failed
        → Conclusion receipt deadline moment s r
    waiting :
        s.state ≡ CiState.pending
        → moment ≤ started_or receipt.external_ci_started_at moment + deadline
        → r.status ≡ RunStatus.external_ci_pending
        → Conclusion receipt deadline moment s r
