-- ===== src/Examples/Actions.antt =====
-- The theorems on the repository and on the run service, on a store with one approved run.
use course_fuzz.Prelude.{
  ℕ, ◌+◌, ◌≤◌, String, true, false, none, some, List, [], ◌∷◌, ◌++◌, count, lookup, ◌==◌, string_eq,
  if◌then◌else◌, ◌≡◌, refl, ◌⊎◌,
}
use course_fuzz.Prelude.Result.{ok}
use course_fuzz.Models.{
  RunView, RunStatus, AuditEvent, AnalysisResult, CandidatePatch, ActionReceipt, Kind, Time,
  MutationMetrics,
}
use course_fuzz.Repository
use course_fuzz.Repository.{
  Store, RunRow, Approval, grants, in_status, get, events_after, append_event,
}
use course_fuzz.Repository.Claims.{
  Call, perform_all, spent, asked, outstanding, spent-le-asked, claim_once,
}
use course_fuzz.Repository.{recoverable_rows}
use course_fuzz.Repository.Recoverable.{interrupted, OldestFirst, recoverable_rows-OldestFirst}
use course_fuzz.Prelude.{length, filter, min}
use mathlib.Core.List.{Permᴰ}
use course_fuzz.Repository.Tenants.{create-create, get-save}
use course_fuzz.Repository.Events.{IsTrail, append_event-IsTrail}
use course_fuzz.Runs.{Ports, World, Run, CiState, ◌>>=◌}
use course_fuzz.Runs.Apply.{ApprovalReceipt, candidate_of, awaiting_approval, approve, apply}
use course_fuzz.Runs.Apply.Authorized.{Authorized, apply-Authorized}
use course_fuzz.Runs.Apply.Approved.{Grants, approve-Grants}
use course_fuzz.Runs.Recover.{recover_incomplete_runs}
use course_fuzz.Runs.Recover.Unwritten.{recover_incomplete_runs-unwritten}
use course_fuzz.Examples.{demo, demo_env, instructor_test}

abbrev pub Analysis : Type 0
Analysis = AnalysisResult (ℕ × ℕ)

abbrev pub candidate : CandidatePatch
candidate = record {
  id = "patch-1";
  test = instructor_test;
  observed_actual = none;
  rationale = "";
  target_mutants = "zero" ∷ [];
  payload_sha256 = "sha";
  pytest_source = "";
  oracle = none;
  target = record {
    kind = Kind.local_artifact;
    path = "p.py";
    repository = none;
    base_branch = none;
    base_commit_sha = none;
    head_branch = none;
  };
}

abbrev pub metrics : MutationMetrics (ℕ × ℕ)
metrics = record {
  total_mutants = 1;
  killed_mutants = 0;
  surviving_mutants = 1;
  mutation_score = (0, 1);
  accepted_solution_pass_rate = (2, 2);
}

abbrev pub analysis : Analysis
analysis = record {
  before = metrics;
  projected_after = metrics;
  survivors_before = "zero" ∷ [];
  hypothesis_verdicts = [];
  candidate = some candidate;
  finding = true;
  decision = none;
}

abbrev pub receipt : ActionReceipt
receipt = record {
  kind = Kind.github_pull_request;
  path = "p.py";
  artifact_sha256 = "sha";
  read_back_verified = true;
  external_url = none;
  repository = some "org/course";
  base_commit_sha = none;
  commit_sha = some "c0ffee";
  pull_request_number = some 7;
  external_ci_started_at = some 0;
  external_ci_url = none;
  external_ci_conclusion = none;
  external_ci_completed_at = none;
  external_ci_verified = false;
}

abbrev pub run_in : RunStatus → RunView Analysis
run_in status = record {
  id = "run_1";
  assignment_id = "asg";
  assignment_snapshot_sha256 = some "snapshot";
  status = status;
  mode = "deterministic-fallback";
  created_at = 0;
  updated_at = 0;
  analysis = some analysis;
  approval_payload_sha256 = none;
  artifact_sha256 = none;
  action_receipt = some receipt;
  error = none;
}

-- One run of the tenant "alice", with an approval that is not consumed.
abbrev pub store_in : RunStatus → Store Analysis
store_in status = record {
  runs =
      record {
        id = "run_1";
        idempotency_key = "alice:key";
        document = run_in status;
        created_at = 0;
        updated_at = 0;
        owner_id = "alice";
      }
      ∷ [];
  events = [];
  last_event = 0;
  approvals =
      (
        "run_1",
        record {
          payload_sha256 = "sha";
          approval_token = "token";
          approved_at = 0;
          consumed_at = none;
        },
      )
      ∷ [];
  artifacts = [];
}

abbrev pub world_in : RunStatus → World Analysis
world_in status = record { store = store_in status; calls = 0; writes = [] }

abbrev pub ports : Ports
ports = record {
  env = demo_env;
  mode = "deterministic-fallback";
  utc_now = λ n. n;
  token_urlsafe = λ n. "fresh";
  new_run_id = λ n. "run_2";
  payload_json = λ p. "";
  describe = λ x. "error";
  percent_same = λ a b. true;
  read_bytes = λ n p. ok "content";
  path_name = λ p. p;
  require_assignment =
      λ n a t. ok (record { id = "asg"; snapshot_sha256 = "snapshot"; spec = demo });
  prepare = λ n r c t. ok c;
  apply = λ n r c t. ok (record {
    receipt = record receipt { kind = Kind.local_artifact };
    local_path = some "p.py";
  });
  repository_available = λ n r t. true;
  check_runs =
      λ n r c t. ok (record { state = CiState.success; conclusion = some "success"; url = none });
}

abbrev two_claims : List (Call Analysis)
two_claims =
    Call.claim (run_in RunStatus.applying) "token" "sha" 1
    ∷ Call.claim (run_in RunStatus.applying) "token" "sha" 2
    ∷ []

spent-le-asked_example :
    spent "run_1" two_claims (store_in RunStatus.approved)
      + outstanding "run_1" (perform_all two_claims (store_in RunStatus.approved))
    ≤ asked "run_1" two_claims + outstanding "run_1" (store_in RunStatus.approved)
spent-le-asked_example = spent-le-asked "run_1" two_claims (store_in RunStatus.approved)

claim_once_example :
    let (r, s') =
      Repository.claim_approved_apply
        (run_in RunStatus.applying)
        "token"
        "sha"
        1
        (store_in RunStatus.approved) in
    ((r ≡ ok false) × (s' ≡ store_in RunStatus.approved))
    ⊎ ((r ≡ ok true)
        × (grants (lookup "run_1" (store_in RunStatus.approved).approvals) "token" "sha" ≡ true)
        × (count (in_status "run_1" RunStatus.approved) (store_in RunStatus.approved).runs ≡ 1)
        × ((run' : RunView Analysis) (token' payload' : String) (now' : Time)
            → run'.id ≡ "run_1"
            → Repository.claim_approved_apply run' token' payload' now' s' ≡ (ok false, s')))
claim_once_example =
    claim_once (run_in RunStatus.applying) "token" "sha" 1 (store_in RunStatus.approved)

saves : (Repository.save (run_in RunStatus.verified) 5 (store_in RunStatus.approved)).0 ≡ ok tt
unfolding Repository.save
saves = refl

get-save_example :
    get "run_1" "alice"
      (Repository.save (run_in RunStatus.verified) 5 (store_in RunStatus.approved)).1
    ≡ some (run_in RunStatus.verified)
unfolding get
get-save_example =
    get-save (run_in RunStatus.verified) 5 "run_1" "alice" (store_in RunStatus.approved) saves

creates :
    Repository.create (run_in RunStatus.queued) "key" "alice" 6 (store_in RunStatus.approved)
    ≡ (ok (run_in RunStatus.approved, false), store_in RunStatus.approved)
unfolding Repository.create
creates = refl

create-create_example :
    Repository.create (run_in RunStatus.failed) "key" "alice" 7 (store_in RunStatus.approved)
    ≡ (ok (run_in RunStatus.approved, false), store_in RunStatus.approved)
create-create_example =
    create-create (run_in RunStatus.queued) (run_in RunStatus.failed) (run_in RunStatus.approved)
      "key" "alice" 6 7 false (store_in RunStatus.approved) (store_in RunStatus.approved) creates

abbrev event : AuditEvent
event = record {
  id = 1;
  run_id = "run_1";
  event_type = "t";
  stage = "s";
  message = "m";
  payload = "{}";
  created_at = 4;
}

appends : (append_event "run_1" "t" "s" "m" "{}" 4 (store_in RunStatus.approved)).0 ≡ ok event
unfolding append_event
appends = refl

append_event-IsTrail_example :
    let s' = (append_event "run_1" "t" "s" "m" "{}" 4 (store_in RunStatus.approved)).1 in
    IsTrail s'
    × ((k : String) (seen : ℕ)
        → seen ≤ 0
        → events_after k seen s' ≡ (
            if "run_1" == k
            then events_after k seen (store_in RunStatus.approved) ++ event ∷ []
            else events_after k seen (store_in RunStatus.approved)))
append_event-IsTrail_example =
    append_event-IsTrail "run_1" "t" "s" "m" "{}" 4 (store_in RunStatus.approved) event
      (record { ordered = tt }) appends

apply-Authorized_example :
    let w' = (apply ports "run_1" "token" "alice" (world_in RunStatus.approved)).1 in
    (w'.writes ≡ []) ⊎ Authorized ports "run_1" "token" "alice" (world_in RunStatus.approved) w'
apply-Authorized_example =
    apply-Authorized ports "run_1" "token" "alice" (world_in RunStatus.approved)

abbrev approval : ApprovalReceipt
approval = record {
  run_id = "run_1";
  approval_token = "fresh";
  payload_sha256 = "sha";
  approved_at = 1;
}

approves :
    (approve ports "run_1" "sha" "alice" (world_in RunStatus.approval_required)).0 ≡ ok approval
unfolding approve ◌>>=◌ get Repository.approve Repository.save append_event
approves = refl

approve-Grants_example :
    let w = world_in RunStatus.approval_required in
    (run : Run ports) × (a : Analysis) × (c : CandidatePatch) × (get "run_1" "alice" w.store
      ≡ some run)
    × (awaiting_approval run.status ≡ true)
    × (candidate_of run.analysis ≡ some (a, c))
    × ("sha" ≡ c.payload_sha256)
    × Grants ports "run_1" "sha" approval w (approve ports "run_1" "sha" "alice" w).1
approve-Grants_example =
    approve-Grants ports "run_1" "sha" "alice" (world_in RunStatus.approval_required) approval
      approves

abbrev passed_run : Run ports
passed_run = record (run_in RunStatus.verified) {
  action_receipt = some (record receipt {
    external_ci_conclusion = some "success";
    external_ci_completed_at = some 1;
    external_ci_verified = true;
  });
  updated_at = 1;
}

recoverable_rows-OldestFirst_example :
    let s = store_in RunStatus.applying in
    let rows = recoverable_rows 10 s in
    let all = filter (λ r. interrupted r.document.status) s.runs in
    (rest : List (RunRow Analysis)) × Permᴰ (rows ++ rest) all
    × OldestFirst (rows ++ rest)
    × (length rows ≡ min 10 (length all))
recoverable_rows-OldestFirst_example = recoverable_rows-OldestFirst 10 (store_in RunStatus.applying)

recover_incomplete_runs-unwritten_example :
    let w' = (recover_incomplete_runs ports 600 10 (world_in RunStatus.applying)).1 in
    (w'.writes ≡ []) × (w'.store.approvals ≡ (store_in RunStatus.applying).approvals)
recover_incomplete_runs-unwritten_example =
    recover_incomplete_runs-unwritten ports 600 10 (world_in RunStatus.applying)
