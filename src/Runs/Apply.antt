-- ===== src/Runs/Apply.antt =====
-- RunService.approve and apply (src/coursefuzz/services/run_service.py).
pub mod Authorized
pub mod Settled
pub mod Approved
use course_fuzz.Prelude.{
  ℕ, String, Bool, true, false, not, ◌&&◌, ◌||◌, Option, none, some, is_some, List, [], ◌∷◌, ◌++◌,
  nat_beq, ◌==◌, string_eq, if◌then◌else◌,
}
use course_fuzz.Prelude.Text.{◌++ₛ◌}
use course_fuzz.Prelude.Result.{Result, Exn, ok, raised, value_error, runtime_error}
use course_fuzz.Models.{
  RunView, RunStatus, AnalysisResult, MutationMetrics, CandidatePatch, ActionReceipt, Kind, Time,
  status_beq,
}
use course_fuzz.Engine.Analyze.{verify_applied_patch}
use course_fuzz.Repository
use course_fuzz.Runs.{
  Ports, Payload, AppliedDestination, Write, World, pure, raise, repo, engine, call, ◌>>=◌,
  try_else, Act, Run, now, timed, save, append, require_run, assignment_for_run,
}

pub record ApprovalReceipt : Type 0 where
  pub run_id : String
  pub approval_token : String
  pub payload_sha256 : String
  pub approved_at : Time

-- `run.analysis and run.analysis.candidate`, with the analysis
unfoldable pub candidate_of :
    {P : Type 0} → Option (AnalysisResult P) → Option (AnalysisResult P × CandidatePatch)
candidate_of none = none
candidate_of (some a) = with_analysis a a.candidate
  where
    with_analysis :
        {P : Type 0}
        → AnalysisResult P
        → Option CandidatePatch
        → Option (AnalysisResult P × CandidatePatch)
    with_analysis a none = none
    with_analysis a (some c) = some (a, c)

abbrev pub awaiting_approval : RunStatus → Bool
awaiting_approval RunStatus.approval_required = true
awaiting_approval RunStatus.approved = true
awaiting_approval _ = false

-- receipt.kind == "github_pull_request" and receipt.commit_sha
abbrev pub awaits_ci : Kind → Option String → Bool
awaits_ci Kind.github_pull_request (some commit) = not (commit == "")
awaits_ci _ _ = false

module _ (ports : Ports) where
  open ports use {env, token_urlsafe, describe, percent_same, read_bytes, path_name}

  -- What follows the approval in the repository.
  pub record_approval :
      Run ports → (payload_sha256 : String) → String × Time → Act ports ApprovalReceipt
  record_approval run payload_sha256 (token, approved_at) = now ports >>= λ t.
      let approved = record run {
        status = RunStatus.approved;
        approval_payload_sha256 = some payload_sha256;
        updated_at = t;
      } in
      save ports approved >>= λ _.
      append ports run.id "approval.granted" "approve"
        "Instructor approved the exact hashed regression test payload."
        (Payload.payload_hash payload_sha256)
      >>= λ _. pure (record {
        run_id = run.id;
        approval_token = token;
        payload_sha256 = payload_sha256;
        approved_at = approved_at;
      })

  pub approve_candidate : Run ports → (run_id payload_sha256 : String) → Act ports ApprovalReceipt
  unfolding record_approval
  approve_candidate run run_id payload_sha256 = call (λ n. ok (token_urlsafe n)) >>= λ token.
      timed ports (Repository.approve run_id payload_sha256 token)
      >>= record_approval run payload_sha256

  pub check_payload :
      Run ports
      → (run_id payload_sha256 : String) → Option (AnalysisResult env.Percent × CandidatePatch)
      → Act ports ApprovalReceipt
  unfolding approve_candidate
  check_payload run run_id payload_sha256 none = raise (value_error "Run is not awaiting approval")
  check_payload run run_id payload_sha256 (some (a, c)) =
      if payload_sha256 == c.payload_sha256
      then approve_candidate run run_id payload_sha256
      else raise (value_error "Approval hash does not match the exact proposed payload")

  unfoldable pub approve : (run_id payload_sha256 tenant_id : String) → Act ports ApprovalReceipt
  unfolding require_run check_payload candidate_of
  approve run_id payload_sha256 tenant_id = require_run ports run_id tenant_id >>= λ run.
      if awaiting_approval run.status
      then check_payload run run_id payload_sha256 (candidate_of run.analysis)
      else raise (value_error "Run is not awaiting approval")

  -- Equality of two metrics.
  unfoldable pub metrics_same : MutationMetrics env.Percent → MutationMetrics env.Percent → Bool
  metrics_same a b =
      nat_beq a.total_mutants b.total_mutants
      && nat_beq a.killed_mutants b.killed_mutants
      && nat_beq a.surviving_mutants b.surviving_mutants
      && percent_same a.mutation_score b.mutation_score
      && percent_same a.accepted_solution_pass_rate b.accepted_solution_pass_rate

  -- self.destinations.apply, with an entry in the log.
  unfoldable pub write_destination :
      (run_id : String) → CandidatePatch → (tenant_id : String) → Act ports AppliedDestination
  write_destination run_id c tenant_id w =
      call (λ n. ports.apply n run_id c tenant_id)
        (record w {
          writes =
              w.writes ++ record { run_id = run_id; candidate = c; tenant_id = tenant_id } ∷ [];
        })

  -- if applied.local_path: ...
  unfoldable pub keep_artifact :
      (run_id : String) → AppliedDestination → Option String → Act ports Unit
  keep_artifact run_id applied none = pure tt
  keep_artifact run_id applied (some path) = call (λ n. ok (read_bytes n path)) >>= λ content.
      timed ports (
        Repository.save_artifact run_id path (path_name path) applied.receipt.artifact_sha256
          content)

  -- The `try` clause: write, run the repaired suite again, and compare with the projection.
  unfoldable pub written :
      Run ports
      → AnalysisResult env.Percent
      → CandidatePatch
      → (tenant_id : String) → Act ports (AppliedDestination × MutationMetrics env.Percent)
  unfolding write_destination metrics_same keep_artifact assignment_for_run
  written run a c tenant_id = write_destination run.id c tenant_id >>= λ applied.
      assignment_for_run ports run tenant_id >>= λ assignment.
      engine (verify_applied_patch env assignment c) >>= λ metrics.
      if metrics_same metrics a.projected_after
      then (keep_artifact run.id applied applied.local_path >>= λ _. pure (applied, metrics))
      else raise (runtime_error "Post-write verification diverged from the approved projection")

  -- The `except` clause, which raises again.
  unfoldable pub write_failed : Run ports → Exn → Act ports (Run ports)
  write_failed applying x = now ports >>= λ t.
      let text = describe x ++ₛ "; reauthorize the exact payload" in
      save ports
        (record applying { status = RunStatus.approved; error = some text; updated_at = t })
      >>= λ _.
          append ports applying.id "patch.failed" "apply"
            "The write or read-back failed; the exact payload must be reauthorized."
            (Payload.error text)
          >>= λ _. raise x

  unfoldable pub hold_for_ci :
      Run ports → ActionReceipt → MutationMetrics env.Percent → Act ports (Run ports)
  hold_for_ci applying receipt metrics = now ports >>= λ started. now ports >>= λ t.
      let held = record receipt { external_ci_started_at = some started } in
      let pending = record applying {
        status = RunStatus.external_ci_pending;
        artifact_sha256 = some held.artifact_sha256;
        action_receipt = some held;
        updated_at = t;
      } in
      save ports pending >>= λ _.
      append ports applying.id "external_ci.pending" "external-ci"
        "Draft PR written and byte read-back matched; awaiting the target repository CI."
        (Payload.ci_pending held.external_url held.commit_sha metrics)
      >>= λ _. pure pending

  unfoldable pub finish :
      Run ports → ActionReceipt → MutationMetrics env.Percent → Act ports (Run ports)
  finish applying receipt metrics = now ports >>= λ t.
      let verified = record applying {
        status = RunStatus.verified;
        artifact_sha256 = some receipt.artifact_sha256;
        action_receipt = some receipt;
        updated_at = t;
      } in
      save ports verified >>= λ _.
      append ports applying.id "patch.verified" "read-back"
        "Destination read-back matched and the repaired suite killed every viable mutant."
        (Payload.read_back receipt metrics)
      >>= λ _. pure verified

  -- What follows the `try` statement.
  unfoldable pub settle :
      Run ports → AppliedDestination × MutationMetrics env.Percent → Act ports (Run ports)
  unfolding hold_for_ci finish
  settle applying (applied, metrics) =
      if awaits_ci applied.receipt.kind applied.receipt.commit_sha
      then hold_for_ci applying applied.receipt metrics
      else finish applying applied.receipt metrics

  -- The part of `apply` below a successful claim.
  unfoldable pub apply_claimed :
      Run ports
      → Run ports
      → AnalysisResult env.Percent
      → CandidatePatch
      → (tenant_id : String) → Act ports (Run ports)
  unfolding written write_failed settle
  apply_claimed run applying a c tenant_id =
      append ports run.id "patch.applying" "apply"
        "Writing the approved regression test and rerunning every mutant." Payload.no_payload
      >>= λ _. try_else (written run a c tenant_id) (write_failed applying) (settle applying)

  pub apply_approved :
      Run ports
      → (approval_token tenant_id : String) → Option (AnalysisResult env.Percent × CandidatePatch)
      → Act ports (Run ports)
  unfolding apply_claimed
  apply_approved run token tenant_id none =
      raise (value_error "Run does not have an approved patch")
  apply_approved run token tenant_id (some (a, c)) = now ports >>= λ t.
      let applying = record run { status = RunStatus.applying; updated_at = t } in
      timed ports (Repository.claim_approved_apply applying token c.payload_sha256) >>= λ claimed.
      if claimed
      then apply_claimed run applying a c tenant_id
      else raise (value_error "Approval token is invalid for this exact payload")

  unfoldable pub apply : (run_id approval_token tenant_id : String) → Act ports (Run ports)
  unfolding require_run apply_approved candidate_of
  apply run_id token tenant_id = require_run ports run_id tenant_id >>= λ run.
      if status_beq run.status RunStatus.verified
      then pure run
      else if status_beq run.status RunStatus.approved
      then apply_approved run token tenant_id (candidate_of run.analysis)
      else raise (value_error "Run does not have an approved patch")
