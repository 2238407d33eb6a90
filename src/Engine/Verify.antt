-- ===== src/Engine/Verify.antt =====
-- AssessmentEngine._verify_hypotheses: two batches, one of the accepted controls over every valid
-- input and one of the survivors over the inputs that the oracle resolved.
pub mod Classify
pub mod Verdicts
pub mod Evidence
use course_fuzz.Prelude.{
  ℕ, ℤ, int_ltb, String, Bool, true, false, not, ◌&&◌, ◌||◌, Option, none, some, is_none, is_some,
  List, [], ◌∷◌, ◌++◌, length, any, contains, filter, map, zip, lookup, insert, nat_beq,
  if◌then◌else◌, ◌==◌, string_eq, int_eq, list_eq,
}
use course_fuzz.Prelude.Result.{Result, ok, raised, key_error, ◌>>=◌ as ◌>>=ᵣ◌}
use course_fuzz.Models.{
  AssignmentSpec, ProgramVariant, TestCase, Source, SuiteExecution, CaseOutput, AttackHypothesis,
  HypothesisVerdict, VerdictStatus, OracleDecision, is_resolved,
}
use course_fuzz.Models.Atom.{JsonAtom, JsonValue, atom_beq}
use course_fuzz.Oracle.{decide}
use course_fuzz.Engine.{Env, Timed, lift, pure, run_batch, ◌>>=◌}
use course_fuzz.Engine.Measure.{zip_strict}

abbrev pub arity_reason : String
arity_reason = "Input arity does not match the assignment signature."

abbrev pub domain_reason : String
domain_reason = "Input is outside the declared bounded domain."

abbrev pub abstained_reason : String
abstained_reason = "Independent accepted solutions disagreed; the oracle abstained."

abbrev pub no_divergence_reason : String
no_divergence_reason = "Execution found no behavioral divergence."

abbrev pub verified_reason : String
verified_reason = "Execution reproduced a real output disagreement."

unfoldable pub wrong_arity : AssignmentSpec → List ℤ → Bool
wrong_arity a inputs = not (nat_beq (length inputs) (length a.input_names))

unfoldable pub out_of_domain : AssignmentSpec → List ℤ → Bool
out_of_domain a inputs = any (λ v. int_ltb v a.domain_min || int_ltb a.domain_max v) inputs

-- `invalid` and `valid_inputs`
abbrev pub Classified : Type 0
Classified = List (String × String) × List (List ℤ)

pub classify_step : AssignmentSpec → AttackHypothesis → Classified → Classified
unfolding wrong_arity out_of_domain
classify_step a h (invalid, valid) =
    if wrong_arity a h.inputs
    then (insert h.id arity_reason invalid, valid)
    else if out_of_domain a h.inputs
    then (insert h.id domain_reason invalid, valid)
    else if contains h.inputs valid
    then (invalid, valid)
    else (invalid, valid ++ h.inputs ∷ [])

pub classify : AssignmentSpec → List AttackHypothesis → Classified → Classified
unfolding classify_step
classify a [] c = c
classify a (h ∷ hs) c = classify a hs (classify_step a h c)

abbrev pub probe_test : List ℤ → TestCase
probe_test inputs = record {
  inputs = inputs;
  expected = none;
  label = "oracle probe";
  source = Source.deterministic;
}

-- The value of `"actual"` if it is an atom.
abbrev pub observed_atom : JsonValue → Option JsonAtom
observed_atom (JsonValue.atom v) = some v
observed_atom JsonValue.null = none
observed_atom (JsonValue.compound s) = none

-- One program's outputs by input; a later entry for an input replaces an earlier one.
abbrev pub Row : Type 0
Row = List (List ℤ × Option JsonAtom)

output_row : List CaseOutput → Row → Row
output_row [] row = row
output_row (o ∷ os) row = output_row os (insert o.inputs (observed_atom o.actual) row)

output_rows : List (ProgramVariant × SuiteExecution) → List (String × Row) → List (String × Row)
unfolding output_row
output_rows [] outputs = outputs
output_rows ((p, e) ∷ ps) outputs = output_rows ps (insert p.id (output_row e.outputs []) outputs)

-- AssessmentEngine._outputs_by_program
unfoldable pub outputs_by_program :
    List ProgramVariant → List SuiteExecution → Result (List (String × Row))
unfolding output_rows
outputs_by_program programs executions =
    zip_strict programs executions >>=ᵣ λ pairs. ok (output_rows pairs [])

abbrev in_row : Option (Option JsonAtom) → Option JsonAtom
in_row none = none
in_row (some v) = v

abbrev in_rows : Option Row → List ℤ → Option JsonAtom
in_rows none inputs = none
in_rows (some row) inputs = in_row (lookup inputs row)

-- outputs.get(program_id, {}).get(inputs)
unfoldable pub output_of : List (String × Row) → String → List ℤ → Option JsonAtom
output_of outputs pid inputs = in_rows (lookup pid outputs) inputs

abbrev pub Decisions : Type 0
Decisions = List (List ℤ × OracleDecision)

-- The inputs in `valid` are distinct, so the comprehension has one entry for each.
pub decisions_for : AssignmentSpec → List (String × Row) → List (List ℤ) → Decisions
unfolding output_of
decisions_for a outputs valid =
    map (λ inputs. (inputs, decide a inputs (λ p. output_of outputs p.id inputs))) valid

candidate_test : List ℤ → Option JsonAtom → TestCase
candidate_test inputs expected = record {
  inputs = inputs;
  expected = expected;
  label = "candidate";
  source = Source.deterministic;
}

is_usable : OracleDecision → Bool
is_usable d = is_resolved d && is_some d.expected

pub resolved_tests : Decisions → List TestCase
unfolding candidate_test is_usable
resolved_tests decisions =
    map (λ p. candidate_test p.0 p.1.expected) (filter (λ p. is_usable p.1) decisions)

-- `actual is None or actual == expected` skips a survivor.
differs : Option JsonAtom → JsonAtom → Bool
differs none expected = false
differs (some actual) expected = not (atom_beq actual expected)

-- The survivors that the input separates from the expected value, with their outputs.
killed_by :
    List (String × Row) → List ProgramVariant → List ℤ → JsonAtom → List (String × Option JsonAtom)
unfolding differs output_of
killed_by outputs [] inputs expected = []
killed_by outputs (s ∷ ss) inputs expected =
    let rest = killed_by outputs ss inputs expected in
    let actual = output_of outputs s.id inputs in
    if differs actual expected then (s.id, actual) ∷ rest else rest

abbrev pub rejection : AttackHypothesis → String → Option JsonAtom → HypothesisVerdict
rejection h reason expected = record {
  hypothesis = h;
  status = VerdictStatus.rejected;
  reason = reason;
  expected = expected;
  actual = none;
  killed_mutants = [];
}

-- The verdict from the survivors that an input kills.
from_killed : AttackHypothesis → JsonAtom → List (String × Option JsonAtom) → HypothesisVerdict
from_killed h expected [] = rejection h no_divergence_reason (some expected)
from_killed h expected ((pid, actual) ∷ rest) = record {
  hypothesis = h;
  status = VerdictStatus.verified;
  reason = verified_reason;
  expected = some expected;
  actual = actual;
  killed_mutants = map (λ p. p.0) ((pid, actual) ∷ rest);
}

from_expected :
    List (String × Row)
    → List ProgramVariant
    → AttackHypothesis
    → Option JsonAtom
    → HypothesisVerdict
unfolding killed_by from_killed
from_expected outputs survivors h none = rejection h abstained_reason none
from_expected outputs survivors h (some v) =
    from_killed h v (killed_by outputs survivors h.inputs v)

from_decision :
    List (String × Row)
    → List ProgramVariant
    → AttackHypothesis
    → OracleDecision
    → HypothesisVerdict
unfolding from_expected
from_decision outputs survivors h d =
    if is_resolved d
    then from_expected outputs survivors h d.expected
    else rejection h abstained_reason none

abbrev pub or_key_error {ℓ} : {A : Type ℓ} → Option A → Result A
or_key_error none = raised (key_error "")
or_key_error (some a) = ok a

-- decisions[inputs]
abbrev pub decision_at : Decisions → List ℤ → Result OracleDecision
decision_at decisions inputs = or_key_error (lookup inputs decisions)

judged :
    Decisions
    → List (String × Row)
    → List ProgramVariant
    → AttackHypothesis
    → Option String
    → Result HypothesisVerdict
unfolding from_decision
judged decisions outputs survivors h (some reason) = ok (rejection h reason none)
judged decisions outputs survivors h none =
    decision_at decisions h.inputs >>=ᵣ λ d. ok (from_decision outputs survivors h d)

pub verdict_for :
    List (String × String)
    → Decisions
    → List (String × Row)
    → List ProgramVariant
    → AttackHypothesis
    → Result HypothesisVerdict
unfolding judged
verdict_for invalid decisions outputs survivors h =
    judged decisions outputs survivors h (lookup h.id invalid)

-- A loop that appends the result of each round.
abbrev pub traverse {ℓ κ} : {A : Type ℓ} {B : Type κ} → (A → Result B) → List A → Result (List B)
traverse f [] = ok []
traverse f (x ∷ xs) = f x >>=ᵣ λ y. traverse f xs >>=ᵣ λ ys. ok (y ∷ ys)

module _ (env : Env) where
  unfoldable pub verify_hypotheses :
      AssignmentSpec
      → List ProgramVariant
      → List AttackHypothesis
      → (deadline : ℕ) → Timed (List HypothesisVerdict × Decisions)
  unfolding classify outputs_by_program decisions_for resolved_tests verdict_for run_batch
  verify_hypotheses a survivors hypotheses deadline =
      let (invalid, valid) = classify a hypotheses ([], []) in
      run_batch env a.accepted_solutions a.entrypoint (map probe_test valid) deadline
      >>= λ controls. lift (outputs_by_program a.accepted_solutions controls) >>= λ control_outputs.
          let decisions = decisions_for a control_outputs valid in
          run_batch env survivors a.entrypoint (resolved_tests decisions) deadline >>= λ executions.
          lift (outputs_by_program survivors executions) >>= λ survivor_outputs.
          lift (traverse (verdict_for invalid decisions survivor_outputs survivors) hypotheses)
          >>= λ verdicts. pure (verdicts, decisions)
