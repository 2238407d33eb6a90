-- ===== src/Engine/Analyze.antt =====
-- AssessmentEngine.analyze and verify_applied_patch.
pub mod Finding
use course_fuzz.Prelude.{
  ℕ, zero, suc, ◌+◌, ℤ, String, Bool, true, false, Option, none, some, List, [], ◌∷◌, ◌++◌, map,
  filter, find, lookup, ◌==◌, string_eq, int_eq, list_eq, if◌then◌else◌,
}
use course_fuzz.Prelude.Text.{◌++ₛ◌}
use course_fuzz.Prelude.Result.{Result, ok, raised, key_error, value_error, other_error}
use course_fuzz.Models.{
  AssignmentSpec, ProgramVariant, TestCase, Source, Provider, HypothesisVerdict, VerdictStatus,
  OracleDecision, CandidatePatch, MutationMetrics, AnalysisResult, HypothesisContext, SurvivorHint,
}
use course_fuzz.Models.Atom.{JsonAtom}
use course_fuzz.Engine.{Env, Timed, pure, lift, ◌>>=◌}
use course_fuzz.Engine.Measure.{measure}
use course_fuzz.Engine.Verify.{Decisions, decision_at, verify_hypotheses}
use course_fuzz.Engine.Select.{select}
use course_fuzz.Engine.Patch.{build_patch}

abbrev pub verified_status : VerdictStatus → Bool
verified_status VerdictStatus.verified = true
verified_status VerdictStatus.rejected = false

abbrev pub is_verified : HypothesisVerdict → Bool
is_verified v = verified_status v.status

-- What the last attempt left: the verdicts, the decisions, and the verified among the verdicts.
pub record Attempt : Type 0 where
  pub verdicts : List HypothesisVerdict
  pub decisions : Decisions
  pub verified : List HypothesisVerdict

abbrev pub test_source : Provider → Source
test_source Provider.gpt_5_6 = Source.gpt
test_source _ = Source.deterministic

-- `decision.expected` and `selected.actual`, or the error below them.
both_values : Option JsonAtom → Option JsonAtom → Result (JsonAtom × JsonAtom)
both_values (some e) (some v) = ok (e, v)
both_values _ _ = raised (value_error "A verified hypothesis lost its executable oracle evidence")

-- _program_by_id
program_by_id : List ProgramVariant → String → Result ProgramVariant
program_by_id [] pid = raised (other_error "StopIteration")
program_by_id (p ∷ ps) pid = let rest = program_by_id ps pid in if p.id == pid then ok p else rest

first_killed : List String → Result String
first_killed [] = raised (other_error "IndexError")
first_killed (pid ∷ rest) = ok pid

regression_test : HypothesisVerdict → JsonAtom → ProgramVariant → TestCase
regression_test v expected target = record {
  inputs = v.hypothesis.inputs;
  expected = some expected;
  label = "CourseFuzz regression: " ++ₛ target.misconception;
  source = test_source v.hypothesis.provider;
}

-- `break` on an attempt with a verified hypothesis.
or_next : List HypothesisVerdict → Attempt → Timed Attempt → Timed Attempt
or_next [] r next = next
or_next (v ∷ vs) r next = pure r

module _ (env : Env) where
  open env use {Percent, monotonic, max_analysis, propose, analyze_source_ast, repr_inputs}

  -- HypothesisContext.from_assignment
  context_of : AssignmentSpec → HypothesisContext
  context_of a =
      let info = analyze_source_ast a.reference.source in
      record {
        title = a.title;
        summary = a.summary;
        input_names = a.input_names;
        domain_min = a.domain_min;
        domain_max = a.domain_max;
        existing_tests = map (λ t. (t.inputs, t.label)) a.instructor_tests;
        ast_constants = info.0;
        ast_operators = info.1;
        previous_feedback = [];
      }

  feedback : HypothesisVerdict → String
  feedback v = "Hypothesis " ++ₛ repr_inputs v.hypothesis.inputs ++ₛ " rejected: " ++ₛ v.reason

  try_once :
      AssignmentSpec
      → List ProgramVariant
      → (deadline : ℕ) → HypothesisContext
      → List SurvivorHint
      → Timed Attempt
  unfolding verify_hypotheses
  try_once a survivors deadline context hints =
      (λ n. (propose n context hints, suc n)) >>= λ proposed.
      verify_hypotheses env a survivors proposed deadline >>= λ r.
      pure (record { verdicts = r.0; decisions = r.1; verified = filter is_verified r.0 })

  -- The loop over the attempts; `left` counts those that would follow.
  attempts :
      AssignmentSpec
      → List ProgramVariant
      → (deadline : ℕ) → List SurvivorHint
      → (left : ℕ) → HypothesisContext
      → Timed Attempt
  unfolding try_once feedback or_next
  attempts a survivors deadline hints zero context = try_once a survivors deadline context hints
  attempts a survivors deadline hints (suc left) context =
      try_once a survivors deadline context hints >>= λ r. or_next r.verified r (
        attempts a survivors deadline hints left
          (record context { previous_feedback = map feedback r.verdicts }))

  unsolved :
      MutationMetrics Percent
      → List ProgramVariant
      → List HypothesisVerdict
      → AnalysisResult Percent
  unsolved before survivors verdicts = record {
    before = before;
    projected_after = before;
    survivors_before = map (λ p. p.id) survivors;
    hypothesis_verdicts = verdicts;
    candidate = none;
    finding = false;
    decision = none;
  }

  proposal :
      AssignmentSpec
      → HypothesisVerdict
      → OracleDecision
      → JsonAtom × JsonAtom
      → ProgramVariant
      → CandidatePatch
  unfolding regression_test build_patch
  proposal a v d values target =
      build_patch env (regression_test v values.0 target) v.killed_mutants a.entrypoint values.1
        target.title a d

  report :
      MutationMetrics Percent
      → List ProgramVariant
      → Attempt
      → OracleDecision
      → CandidatePatch
      → MutationMetrics Percent
      → AnalysisResult Percent
  report before survivors r d patch after = record {
    before = before;
    projected_after = after;
    survivors_before = map (λ p. p.id) survivors;
    hypothesis_verdicts = r.verdicts;
    candidate = some patch;
    finding = true;
    decision = some d;
  }

  -- The part of `analyze` below the selection.
  conclude :
      AssignmentSpec
      → (deadline : ℕ) → MutationMetrics Percent
      → List ProgramVariant
      → Attempt
      → HypothesisVerdict
      → Timed (AnalysisResult Percent)
  unfolding both_values program_by_id first_killed measure proposal report
  conclude a deadline before survivors r v =
      lift (decision_at r.decisions v.hypothesis.inputs) >>= λ d.
      lift (both_values d.expected v.actual) >>= λ values.
      lift (first_killed v.killed_mutants) >>= λ pid.
      lift (program_by_id survivors pid) >>= λ target.
      measure env a (a.instructor_tests ++ regression_test v values.0 target ∷ []) deadline
      >>= λ after. pure (report before survivors r d (proposal a v d values target) after.0)

  after_attempts :
      AssignmentSpec
      → (deadline : ℕ) → MutationMetrics Percent
      → List ProgramVariant
      → Attempt
      → List HypothesisVerdict
      → Timed (AnalysisResult Percent)
  unfolding unsolved conclude select
  after_attempts a deadline before survivors r [] = pure (unsolved before survivors r.verdicts)
  after_attempts a deadline before survivors r (v ∷ vs) =
      lift (select (v ∷ vs)) >>= conclude a deadline before survivors r

  search_survivors :
      AssignmentSpec
      → (deadline : ℕ) → MutationMetrics Percent
      → List ProgramVariant
      → Timed (AnalysisResult Percent)
  unfolding unsolved context_of attempts after_attempts
  search_survivors a deadline before [] = pure (unsolved before [] [])
  search_survivors a deadline before (s ∷ ss) =
      let hints = map (λ p. record { id = p.id; misconception = p.misconception }) (s ∷ ss) in
      attempts a (s ∷ ss) deadline hints 1 (context_of a) >>= λ r.
      after_attempts a deadline before (s ∷ ss) r r.verified

  unfoldable pub analyze : AssignmentSpec → Timed (AnalysisResult Percent)
  unfolding search_survivors
  analyze a n =
      let deadline = monotonic n + max_analysis in
      (measure env a a.instructor_tests deadline >>= λ r. search_survivors a deadline r.0 r.1)
        (suc n)

  unfoldable pub verify_applied_patch :
      AssignmentSpec → CandidatePatch → Timed (MutationMetrics Percent)
  unfolding measure
  verify_applied_patch a c n =
      let deadline = monotonic n + max_analysis in
      (measure env a (a.instructor_tests ++ c.test ∷ []) deadline >>= λ r. pure r.0) (suc n)
