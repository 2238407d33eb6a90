-- ===== src/Examples.antt =====
-- A small assignment, a sandbox that runs it, and the theorems at work on them.
mod Assessment
mod Actions
mod Limits
mod Destinations
mod Delivery
mod Installations
mod Hypotheses
mod Assignments
mod Access
use course_fuzz.Prelude.{
  ℕ, ℤ, pos, suc, String, Bool, true, false, not, Option, none, some, List, [], ◌∷◌, map, filter,
  length, ◌==◌, string_eq, if◌then◌else◌,
}
use course_fuzz.Prelude.Result.{Result, ok, raised}
use course_fuzz.Models.{
  AssignmentSpec, ProgramVariant, TestCase, Source, DestinationConfig, SuiteExecution, CaseOutput,
  AttackHypothesis, Provider,
}
use course_fuzz.Models.Atom.{JsonAtom, JsonValue, atom_beq}
use course_fuzz.Engine.{Env}

abbrev pub program : String → ProgramVariant
program name = record {
  id = name;
  title = name;
  misconception = "forgets the input";
  source = name;
}

abbrev pub instructor_test : TestCase
instructor_test = record {
  inputs = pos 0 ∷ [];
  expected = some (JsonAtom.int (pos 0));
  label = "zero";
  source = Source.instructor;
}

-- Two controls that return their input, and a mutant that returns 0.
abbrev pub demo : AssignmentSpec
demo = record {
  id = "asg";
  title = "Identity";
  summary = "Return the input.";
  entrypoint = "identity";
  input_names = "x" ∷ [];
  domain_min = pos 0;
  domain_max = pos 9;
  reference = program "same";
  accepted_solutions = program "same" ∷ program "again" ∷ [];
  mutants = program "zero" ∷ [];
  instructor_tests = instructor_test ∷ [];
  destination = DestinationConfig.local_artifact "tests";
}

abbrev first_input : List ℤ → ℤ
first_input [] = pos 0
first_input (x ∷ xs) = x

abbrev output : ProgramVariant → List ℤ → JsonAtom
output p inputs =
    if p.source == "zero" then JsonAtom.int (pos 0) else JsonAtom.int (first_input inputs)

abbrev agrees : Option JsonAtom → JsonAtom → Bool
agrees none v = true
agrees (some e) v = atom_beq e v

abbrev case_output : ProgramVariant → TestCase → CaseOutput
case_output p t = record {
  inputs = t.inputs;
  expected = t.expected;
  actual = JsonValue.atom (output p t.inputs);
  passed = agrees t.expected (output p t.inputs);
  error = none;
}

abbrev pub execution : List TestCase → ProgramVariant → SuiteExecution
execution tests p =
    let outputs = map (case_output p) tests in
    record {
      program_id = p.id;
      passed = length (filter (λ o. o.passed) outputs);
      failed = length (filter (λ o. not o.passed) outputs);
      timed_out = false;
      error = none;
      outputs = outputs;
    }

abbrev pub hypothesis : AttackHypothesis
hypothesis = record {
  id = "h1";
  inputs = pos 3 ∷ [];
  rationale = "a value that is not zero";
  misconception = "forgets the input";
  provider = Provider.deterministic_fallback;
  generator = none;
}

-- Percentages are the two numbers that they are made of.
abbrev pub demo_env : Env
demo_env = record {
  Percent = ℕ × ℕ;
  percent = λ a b. (a, b);
  hundred = (1, 1);
  monotonic = λ n. n;
  max_analysis = 60;
  run_suite_batch = λ n programs entrypoint tests t. ok (map (execution tests) programs);
  propose = λ n context hints. ok (hypothesis ∷ []);
  analyze_source_ast = λ source. ([], []);
  sha256_hex = λ s. s;
  candidate_json = λ c. "candidate";
  case_json = λ inputs expected. "case-of-identity";
  repr_inputs = λ inputs. "(3,)";
  repr_expected = λ expected. "3";
  safe_identifier = λ s. s;
}
