-- ===== src/Models.antt =====
-- The data model of domain/models.py (src/coursefuzz/domain/models.py).
-- Digests, timestamps and identifiers are text. Fields that no modelled operation reads or writes
-- (`language`, pydantic's own configuration) are left out.
pub mod Atom
use course_fuzz.Prelude.{ℕ, String, Bool, true, false, not, ◌&&◌, Option, List, is_none, nat_beq}
use Atom.{JsonAtom, JsonValue}
use course_fuzz.Prelude.{ℤ}

-- RunStatus
pub data RunStatus : Type 0 where
  queued analyzing approval_required approved applying external_ci_pending : RunStatus
  verified no_action_required external_ci_failed failed : RunStatus

-- TestCase.source
pub data Source : Type 0 where
  instructor gpt deterministic minimized : Source

pub record TestCase : Type 0 where
  pub inputs : List ℤ
  pub expected : Option JsonAtom
  pub label : String
  pub source : Source

pub record ProgramVariant : Type 0 where
  pub id : String
  pub title : String
  pub misconception : String
  pub source : String

-- LocalArtifactDestination | GitHubPullRequestDestination
pub data DestinationConfig : Type 0 where
  local_artifact : (test_directory : String) → DestinationConfig
  github_pull_request : (repository base_branch test_directory : String) → DestinationConfig

pub record AssignmentSpec : Type 0 where
  pub id : String
  pub title : String
  pub summary : String
  pub entrypoint : String
  pub input_names : List String
  pub domain_min : ℤ
  pub domain_max : ℤ
  pub reference : ProgramVariant
  pub accepted_solutions : List ProgramVariant
  pub mutants : List ProgramVariant
  pub instructor_tests : List TestCase
  pub destination : DestinationConfig

-- One entry of `SuiteExecution.outputs`.
pub record CaseOutput : Type 0 where
  pub inputs : List ℤ
  pub expected : Option JsonAtom
  pub actual : JsonValue
  pub passed : Bool
  pub error : Option String

pub record SuiteExecution : Type 0 where
  pub program_id : String
  pub passed : ℕ
  pub failed : ℕ
  pub timed_out : Bool
  pub error : Option String
  pub outputs : List CaseOutput

-- AttackHypothesis.provider
pub data Provider : Type 0 where
  gpt_4o gpt_5_6 deterministic_fallback : Provider

pub record AttackHypothesis : Type 0 where
  pub id : String
  pub inputs : List ℤ
  pub rationale : String
  pub misconception : String
  pub provider : Provider
  pub generator : Option String

pub data VerdictStatus : Type 0 where
  rejected verified : VerdictStatus

pub record HypothesisVerdict : Type 0 where
  pub hypothesis : AttackHypothesis
  pub status : VerdictStatus
  pub reason : String
  pub expected : Option JsonAtom
  pub actual : Option JsonAtom
  pub killed_mutants : List String

-- OracleDecision.decision
pub data Outcome : Type 0 where
  resolved abstained : Outcome

pub record OracleDecision : Type 0 where
  pub expected : Option JsonAtom
  pub decision : Outcome
  pub provenance : String
  pub evidence_sources : List String
  pub quorum : ℕ
  pub abstention_reason : Option String

-- PatchTarget.kind, ActionReceipt.kind
pub data Kind : Type 0 where
  local_artifact github_pull_request : Kind

pub record PatchTarget : Type 0 where
  pub kind : Kind
  pub path : String
  pub repository : Option String
  pub base_branch : Option String
  pub base_commit_sha : Option String
  pub head_branch : Option String

pub record CandidatePatch : Type 0 where
  pub id : String
  pub test : TestCase
  pub observed_actual : Option JsonAtom
  pub rationale : String
  pub target_mutants : List String
  pub payload_sha256 : String
  pub pytest_source : String
  pub oracle : Option OracleDecision
  pub target : PatchTarget

-- Instants are natural numbers of some unit; the program only compares and subtracts them.
abbrev pub Time : Type 0
Time = ℕ

pub record ActionReceipt : Type 0 where
  pub kind : Kind
  pub path : String
  pub artifact_sha256 : String
  pub read_back_verified : Bool
  pub external_url : Option String
  pub repository : Option String
  pub base_commit_sha : Option String
  pub commit_sha : Option String
  pub pull_request_number : Option ℕ
  pub external_ci_started_at : Option Time
  pub external_ci_url : Option String
  pub external_ci_conclusion : Option String
  pub external_ci_completed_at : Option Time
  pub external_ci_verified : Bool

-- RunView, over the type of its analysis.
pub record RunView (A : Type 0) : Type 0 where
  pub id : String
  pub assignment_id : String
  pub assignment_snapshot_sha256 : Option String
  pub status : RunStatus
  pub mode : String
  pub created_at : Time
  pub updated_at : Time
  pub analysis : Option A
  pub approval_payload_sha256 : Option String
  pub artifact_sha256 : Option String
  pub action_receipt : Option ActionReceipt
  pub error : Option String

-- AuditEvent; the payload dictionary is its JSON text.
pub record AuditEvent : Type 0 where
  pub id : ℕ
  pub run_id : String
  pub event_type : String
  pub stage : String
  pub message : String
  pub payload : String
  pub created_at : Time

-- MutationMetrics; its two scores are floats, of a type given by the model's user.
pub record MutationMetrics (Percent : Type 0) : Type 0 where
  pub total_mutants : ℕ
  pub killed_mutants : ℕ
  pub surviving_mutants : ℕ
  pub mutation_score : Percent
  pub accepted_solution_pass_rate : Percent

-- AnalysisResult; `finding`, `decision` and the verdicts stand for the evidence dictionary that they
-- determine together with the assignment.
pub record AnalysisResult (Percent : Type 0) : Type 0 where
  pub before : MutationMetrics Percent
  pub projected_after : MutationMetrics Percent
  pub survivors_before : List String
  pub hypothesis_verdicts : List HypothesisVerdict
  pub candidate : Option CandidatePatch
  pub finding : Bool
  pub decision : Option OracleDecision

-- HypothesisContext and SurvivorHint of adapters/hypotheses.py
pub record HypothesisContext : Type 0 where
  pub title : String
  pub summary : String
  pub input_names : List String
  pub domain_min : ℤ
  pub domain_max : ℤ
  pub existing_tests : List (List ℤ × String)
  pub ast_constants : List ℤ
  pub ast_operators : List String
  pub previous_feedback : List String

pub record SurvivorHint : Type 0 where
  pub id : String
  pub misconception : String

-- SuiteExecution.all_passed
abbrev pub all_passed : SuiteExecution → Bool
all_passed e = not e.timed_out && is_none e.error && nat_beq e.failed 0

abbrev pub outcome_resolved : Outcome → Bool
outcome_resolved resolved = true
outcome_resolved abstained = false

abbrev pub status_beq : RunStatus → RunStatus → Bool
status_beq queued queued = true
status_beq analyzing analyzing = true
status_beq approval_required approval_required = true
status_beq approved approved = true
status_beq applying applying = true
status_beq external_ci_pending external_ci_pending = true
status_beq verified verified = true
status_beq no_action_required no_action_required = true
status_beq external_ci_failed external_ci_failed = true
status_beq failed failed = true
status_beq _ _ = false

-- OracleDecision.resolved
abbrev pub is_resolved : OracleDecision → Bool
is_resolved d = outcome_resolved d.decision
