-- ===== src/Runs.antt =====
-- The run service (src/coursefuzz/services/run_service.py): the world that its operations act on.
-- An operation is explicit state passing over the repository's store, the number of calls of the
-- clock, the sandbox and the other services made so far, and the log of destination writes.
pub mod Analyze
pub mod Apply
pub mod Poll
pub mod Recover
pub mod Inversion
pub mod Keeps
use course_fuzz.Prelude.{
  ℕ, suc, ◌+◌, String, Bool, true, false, Option, none, some, List, [], ◌∷◌, ◌++◌, ◌&&◌, nat_beq,
  ◌==◌, string_eq, if◌then◌else◌,
}
use course_fuzz.Prelude.Result.{Result, Exn, ok, raised, key_error, runtime_error}
use course_fuzz.Models.{
  HypothesisVerdict, AssignmentSpec, CandidatePatch, ActionReceipt, RunView, RunStatus,
  AnalysisResult, MutationMetrics, OracleDecision, TestCase, Time, AuditEvent,
}
use course_fuzz.Engine.{Env, Timed}
use course_fuzz.Repository
use course_fuzz.Repository.{Store, Method}

-- AppliedDestination of adapters/destinations.py
pub record AppliedDestination : Type 0 where
  pub receipt : ActionReceipt
  pub local_path : Option String

pub data CiState : Type 0 where
  success failure pending : CiState

-- The aggregate of a commit's check runs.
pub record CheckRunStatus : Type 0 where
  pub state : CiState
  pub conclusion : Option String
  pub url : Option String

pub record AssignmentSnapshot : Type 0 where
  pub id : String
  pub snapshot_sha256 : String
  pub spec : AssignmentSpec

-- The dictionary given to `append_event`.
pub data Payload (Percent : Type 0) : Type 0 where
  no_payload : Payload Percent
  created : (assignment_id mode : String) → Payload Percent
  hypotheses : (count : ℕ) → (provider : String) → (providers : List String) → Payload Percent
  verified_test : TestCase → (payload_sha256 : String) → Option OracleDecision → Payload Percent
  -- The evidence of an abstention is made of the verdicts' reasons.
  survivors : List String → List HypothesisVerdict → Option OracleDecision → Payload Percent
  payload_hash : String → Payload Percent
  error : String → Payload Percent
  ci_pending : (external_url commit_sha : Option String) → MutationMetrics Percent → Payload Percent
  read_back : ActionReceipt → MutationMetrics Percent → Payload Percent
  ci_result : (url conclusion : Option String) → Payload Percent

-- What the service is given beside the engine; each call may be answered differently.
pub record Ports : Type 1 where
  pub env : Env
  pub mode : String
  -- `utc_now()`, `secrets.token_urlsafe` and `uuid4().hex`
  pub utc_now : ℕ → Time
  pub token_urlsafe : ℕ → String
  pub new_run_id : ℕ → String
  -- `json.dumps` of a payload, and `f"{type(exc).__name__}: {exc}"`
  pub payload_json : Payload env.Percent → String
  pub describe : Exn → String
  -- equality of two percentages
  pub percent_same : env.Percent → env.Percent → Bool
  -- `Path.read_bytes` and `Path.name`
  pub read_bytes : ℕ → (path : String) → Result String
  pub path_name : String → String
  -- `AssignmentService.require`
  pub require_assignment : ℕ → (assignment_id tenant_id : String) → Result AssignmentSnapshot
  -- `DestinationCoordinator.prepare` and `apply`
  pub prepare :
      ℕ → (run_id : String) → CandidatePatch → (tenant_id : String) → Result CandidatePatch
  pub apply :
      ℕ → (run_id : String) → CandidatePatch → (tenant_id : String) → Result AppliedDestination
  -- `GitHubDestination.repository_available` and `check_runs`
  pub repository_available : ℕ → (repository tenant_id : String) → Bool
  pub check_runs : ℕ → (repository commit_sha tenant_id : String) → Result CheckRunStatus

-- A call of `DestinationCoordinator.apply`.
pub record Write : Type 0 where
  pub run_id : String
  pub candidate : CandidatePatch
  pub tenant_id : String

pub record World (A : Type 0) : Type 0 where
  pub store : Store A
  pub calls : ℕ
  pub writes : List Write

-- An operation of the service.
abbrev pub Service : Type 0 → Type 0 → Type 0
Service A B = World A → Result B × World A

module _ {A B : Type 0} where
  abbrev pub pure : B → Service A B
  pure b w = (ok b, w)

  abbrev pub raise : Exn → Service A B
  raise x w = (raised x, w)

  -- A call of the repository, of the engine, and of anything else.
  abbrev pub repo : Method A B → Service A B
  repo m w = ((m w.store).0, record w { store = (m w.store).1 })

  abbrev pub engine : Timed B → Service A B
  engine m w = ((m w.calls).0, record w { calls = (m w.calls).1 })

  abbrev pub call : (ℕ → Result B) → Service A B
  call f w = (f w.calls, record w { calls = suc w.calls })

module _ {A B C : Type 0} where
  abbrev pub continue : (B → Service A C) → Result B → Service A C
  continue f (ok b) w = f b w
  continue f (raised x) w = (raised x, w)

  infixl 5 ◌>>=◌
  unfoldable pub ◌>>=◌ : Service A B → (B → Service A C) → Service A C
  ◌>>=◌ m f w = continue f (m w).0 (m w).1

  abbrev pub recover : (Exn → Service A C) → (B → Service A C) → Result B → Service A C
  recover fail f (ok b) w = f b w
  recover fail f (raised x) w = fail x w

  -- `try: m; except Exception: fail; else: f`
  unfoldable pub try_else : Service A B → (Exn → Service A C) → (B → Service A C) → Service A C
  try_else m fail f w = recover fail f (m w).0 (m w).1

-- `run.assignment_snapshot_sha256 and snapshot.snapshot_sha256 != run.assignment_snapshot_sha256`
abbrev pub bound : Option String → String → Bool
bound none sha = true
bound (some s) sha = if s == "" then true else sha == s

module _ (ports : Ports) where
  open ports use {env, utc_now, token_urlsafe, new_run_id, payload_json, require_assignment}

  abbrev pub Run : Type 0
  Run = RunView (AnalysisResult env.Percent)

  abbrev pub Act : Type 0 → Type 0
  Act B = Service (AnalysisResult env.Percent) B

  abbrev pub now : Act Time
  now = call (λ n. ok (utc_now n))

  -- A repository method that reads the clock by itself.
  abbrev pub timed : {B : Type 0} → (Time → Method (AnalysisResult env.Percent) B) → Act B
  timed m = now >>= λ t. repo (m t)

  abbrev pub save : Run → Act Unit
  save run = timed (Repository.save run)

  abbrev pub append :
      (run_id event_type stage message : String) → Payload env.Percent → Act AuditEvent
  append run_id event_type stage message payload =
      timed (Repository.append_event run_id event_type stage message (payload_json payload))

  abbrev pub run_or_key_error : String → Option Run → Result Run
  run_or_key_error run_id none = raised (key_error run_id)
  run_or_key_error run_id (some run) = ok run

  unfoldable pub require_run : (run_id tenant_id : String) → Act Run
  require_run run_id tenant_id w =
      (run_or_key_error run_id (Repository.get run_id tenant_id w.store), w)

  unfoldable pub assignment_for_run : Run → (tenant_id : String) → Act AssignmentSpec
  assignment_for_run run tenant_id =
      call (λ n. require_assignment n run.assignment_id tenant_id) >>= λ snapshot.
      if bound run.assignment_snapshot_sha256 snapshot.snapshot_sha256
      then pure snapshot.spec
      else raise (runtime_error "Assignment snapshot hash no longer matches the run binding")
