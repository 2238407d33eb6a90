-- ===== src/Runs/Analyze.antt =====
-- RunService.create_run and analyze_run (src/coursefuzz/services/run_service.py).
pub mod Unwritten
use course_fuzz.Prelude.{
  String, Bool, true, false, not, ◌&&◌, Option, none, some, map, length, ◌==◌, string_eq,
  if◌then◌else◌,
}
use course_fuzz.Prelude.Text.{sorted_set, join}
use course_fuzz.Prelude.Result.{Exn, ok, value_error}
use course_fuzz.Models.{
  RunStatus, AnalysisResult, CandidatePatch, Provider, DestinationConfig, Time, status_beq,
}
use course_fuzz.Engine.Analyze.{analyze}
use course_fuzz.Repository
use course_fuzz.Runs.{
  Ports, Payload, pure, raise, engine, call, ◌>>=◌, try_else, Act, Run, now, timed, save, append,
  require_run, assignment_for_run,
}

abbrev provider_name : Provider → String
provider_name Provider.gpt_4o = "gpt-4o"
provider_name Provider.gpt_5_6 = "gpt-5.6"
provider_name Provider.deterministic_fallback = "deterministic-fallback"

-- `text or default`
abbrev or_default : String → String → String
or_default text default = if text == "" then default else text

module _ (ports : Ports) where
  open ports use {
    env, mode, new_run_id, describe, prepare, require_assignment, repository_available,
  }

  queued_run : (run_id assignment_id snapshot_sha256 : String) → Time → Run ports
  queued_run run_id assignment_id snapshot_sha256 t = record {
    id = run_id;
    assignment_id = assignment_id;
    assignment_snapshot_sha256 = some snapshot_sha256;
    status = RunStatus.queued;
    mode = mode;
    created_at = t;
    updated_at = t;
    analysis = none;
    approval_payload_sha256 = none;
    artifact_sha256 = none;
    action_receipt = none;
    error = none;
  }

  created_event : String → Run ports × Bool → Act ports (Run ports × Bool)
  created_event assignment_id (run, false) =
      if run.assignment_id == assignment_id
      then pure (run, false)
      else raise (value_error "Idempotency key is already bound to a different assignment")
  created_event assignment_id (run, true) =
      append ports run.id "run.created" "ingest"
        "Assignment snapshot accepted; provenance and schema locked."
        (Payload.created assignment_id mode)
      >>= λ _. pure (run, true)

  -- A destination on GitHub that the tenant may not write to.
  refused : DestinationConfig → (tenant_id : String) → Act ports Bool
  refused (DestinationConfig.local_artifact test_directory) tenant_id = pure false
  refused (DestinationConfig.github_pull_request repository base_branch test_directory) tenant_id =
      call (λ n. ok (repository_available n repository tenant_id)) >>= λ available.
      pure (not available && not (tenant_id == "local-demo"))

  unfoldable pub create_run :
      (assignment_id idempotency_key tenant_id : String) → Act ports (Run ports × Bool)
  unfolding refused queued_run created_event
  create_run assignment_id idempotency_key tenant_id =
      call (λ n. require_assignment n assignment_id tenant_id) >>= λ snapshot.
      refused snapshot.spec.destination tenant_id >>= λ no.
      if no
      then raise
          (value_error "GitHub destination is not configured or authorized for this workspace")
      else now ports >>= λ t. call (λ n. ok (new_run_id n)) >>= λ run_id.
          timed ports (
            Repository.create (queued_run run_id assignment_id snapshot.snapshot_sha256 t)
              idempotency_key tenant_id)
          >>= created_event assignment_id

  pub hypotheses_payload : AnalysisResult env.Percent → Payload env.Percent
  hypotheses_payload a =
      let providers =
        sorted_set (map (λ v. provider_name v.hypothesis.provider) a.hypothesis_verdicts) in
      Payload.hypotheses (length a.hypothesis_verdicts) (or_default (join "+" providers) mode)
        providers

  -- if analysis.candidate: the payload that the destination will hold.
  pub prepared :
      Run ports
      → String
      → AnalysisResult env.Percent
      → Option CandidatePatch
      → Act ports (AnalysisResult env.Percent)
  prepared run tenant_id a none = pure a
  prepared run tenant_id a (some c) =
      call (λ n. prepare n run.id c tenant_id) >>= λ p. pure (record a { candidate = some p })

  pub verdict_event :
      Run ports → AnalysisResult env.Percent → Option CandidatePatch → Act ports RunStatus
  verdict_event run a (some c) =
      append ports run.id "analysis.verified" "verify"
        "Independent executions verified and selected one maximum-coverage counterexample."
        (Payload.verified_test c.test c.payload_sha256 a.decision)
      >>= λ _. pure RunStatus.approval_required
  verdict_event run a none =
      append ports run.id "analysis.no_finding" "verify"
        "Execution found no surviving counterexample that requires a test change."
        (Payload.survivors a.survivors_before a.hypothesis_verdicts a.decision)
      >>= λ _. pure RunStatus.no_action_required

  pub approval_event : Run ports → Option CandidatePatch → Act ports Unit
  approval_event run none = pure tt
  approval_event run (some c) =
      append ports run.id "approval.required" "approve"
        "Exact test payload is ready for instructor approval."
        (Payload.payload_hash c.payload_sha256)
      >>= λ _. pure tt

  -- The `except` clause.
  pub fail_run : Run ports → Exn → Act ports Unit
  fail_run run x = now ports >>= λ t.
      let failed = record run {
        status = RunStatus.failed;
        error = some (describe x);
        updated_at = t;
      } in
      save ports failed >>= λ _.
      append ports run.id "run.failed" "failed"
        "Analysis stopped safely and recorded a structured failure." (Payload.error (describe x))
      >>= λ _. pure tt

  -- The `try` clause up to the run's last rebinding, which it returns.
  pub analysed :
      Run ports → (tenant_id : String) → Act ports (Run ports × AnalysisResult env.Percent)
  unfolding assignment_for_run prepared hypotheses_payload verdict_event
  analysed run tenant_id = save ports run >>= λ _.
      append ports run.id "analysis.started" "mutate"
        "Executing realistic misconception mutants against instructor tests." Payload.no_payload
      >>= λ _. assignment_for_run ports run tenant_id >>= λ assignment.
          engine (analyze env assignment) >>= λ found.
          prepared run tenant_id found found.candidate >>= λ a.
          append ports run.id "analysis.hypotheses" "hypothesize"
            "Attack hypotheses generated; expected outputs remain unknown to the model."
            (hypotheses_payload a)
          >>= λ _. verdict_event run a a.candidate >>= λ next_status. now ports >>= λ t.
              pure (record run { status = next_status; analysis = some a; updated_at = t }, a)

  -- The rest of the `try` clause.
  pub recorded : Run ports → AnalysisResult env.Percent → Act ports Unit
  unfolding approval_event
  recorded run a = save ports run >>= λ _. approval_event run a.candidate

  pub analyze_queued : Run ports → (tenant_id : String) → Act ports Unit
  unfolding analysed recorded fail_run
  analyze_queued run tenant_id = now ports >>= λ t.
      let analyzing = record run { status = RunStatus.analyzing; updated_at = t } in
      try_else (analysed analyzing tenant_id) (fail_run analyzing)
        λ r. try_else (recorded r.0 r.1) (fail_run r.0) pure

  unfoldable pub analyze_run : (run_id tenant_id : String) → Act ports Unit
  unfolding analyze_queued require_run
  analyze_run run_id tenant_id = require_run ports run_id tenant_id >>= λ run.
      if status_beq run.status RunStatus.queued then analyze_queued run tenant_id else pure tt
