-- ===== src/Examples/Assessment.antt =====
-- The engine's theorems on the small assignment.
use mathlib.Core.Path.{subst}
use course_fuzz.Prelude.{
  ◌+◌, pos, String, false, Option, none, some, is_some, List, [], ◌∷◌, length, if◌then◌else◌, ◌≡◌,
  refl, Elem, All, ◌==◌, string_eq,
}
use course_fuzz.Prelude.Result.{Result, ok, raised}
use course_fuzz.Models.{
  TestCase, AnalysisResult, CandidatePatch, HypothesisVerdict, Outcome, VerdictStatus, Kind,
}
use course_fuzz.Models.Atom.{JsonAtom, atom_beq, atom_same}
use course_fuzz.Oracle.{decide, decide_with, default_oracles, ProgramProbe, independent_controls}
use course_fuzz.Oracle.Abstention.{decide_with-abstained}
use course_fuzz.Oracle.Agreement.{
  Established, Agrees, reviewed, decide-Established, Established-decide,
}
use course_fuzz.Engine.Measure.{measure}
use course_fuzz.Engine.Measure.Counts.{Measured, measure-Measured}
use course_fuzz.Engine.Verify.{Decisions, verify_hypotheses}
use course_fuzz.Engine.Verify.Evidence.{Evidence, verify_hypotheses-Evidence}
use course_fuzz.Engine.Select.{select}
use course_fuzz.Engine.Select.Best.{AtLeast, select-AtLeast}
use course_fuzz.Engine.Analyze.{analyze}
use course_fuzz.Engine.Analyze.Finding.{Finding, analyze-Finding}
use course_fuzz.Examples.{demo, demo_env, hypothesis, program, instructor_test}

abbrev value_of : {A : Type 0} → A → Result A → A
value_of a (ok b) = b
value_of a (raised x) = a

abbrev nothing : AnalysisResult demo_env.Percent
nothing = record {
  before = record {
    total_mutants = 0;
    killed_mutants = 0;
    surviving_mutants = 0;
    mutation_score = (0, 0);
    accepted_solution_pass_rate = (0, 0);
  };
  projected_after = record {
    total_mutants = 0;
    killed_mutants = 0;
    surviving_mutants = 0;
    mutation_score = (0, 0);
    accepted_solution_pass_rate = (0, 0);
  };
  survivors_before = [];
  hypothesis_verdicts = [];
  candidate = none;
  finding = false;
  decision = none;
}

abbrev found : AnalysisResult demo_env.Percent
found = value_of nothing (analyze demo_env demo 0).0

measured :
    (measure demo_env demo demo.instructor_tests 60 1).0
    ≡ ok (
      record {
        total_mutants = 1;
        killed_mutants = 0;
        surviving_mutants = 1;
        mutation_score = (0, 1);
        accepted_solution_pass_rate = (2, 2);
      },
      program "zero" ∷ [],
    )
unfolding measure atom_beq
measured = refl

measure-Measured_example :
    Measured demo_env demo demo.instructor_tests 60 1
      (record {
        total_mutants = 1;
        killed_mutants = 0;
        surviving_mutants = 1;
        mutation_score = (0, 1);
        accepted_solution_pass_rate = (2, 2);
      })
      (program "zero" ∷ [])
measure-Measured_example = measure-Measured demo_env demo demo.instructor_tests 60 1 _ _ measured

-- The patch that the analysis finds.
abbrev no_patch : CandidatePatch
no_patch = record {
  id = "";
  test = instructor_test;
  observed_actual = none;
  rationale = "";
  target_mutants = [];
  payload_sha256 = "";
  pytest_source = "";
  oracle = none;
  target = record {
    kind = Kind.local_artifact;
    path = "";
    repository = none;
    base_branch = none;
    base_commit_sha = none;
    head_branch = none;
  };
}

abbrev some_value : {A : Type 0} → A → Option A → A
some_value a none = a
some_value a (some b) = b

abbrev patch : CandidatePatch
patch = some_value no_patch found.candidate

analysed : (analyze demo_env demo 0).0 ≡ ok found
unfolding analyze decide atom_beq
analysed = refl

patched : found.candidate ≡ some patch
unfolding analyze decide atom_beq
patched = refl

target_mutants_test : patch.target_mutants ≡ "zero" ∷ []
unfolding analyze decide atom_beq
target_mutants_test = refl

analyze-Finding_example : Finding demo_env demo found patch
analyze-Finding_example = analyze-Finding demo_env demo 0 found patch analysed patched

abbrev verification : List HypothesisVerdict × Decisions
verification =
    value_of ([], []) (verify_hypotheses demo_env demo demo.mutants (hypothesis ∷ []) 60 5).0

verified :
    (verify_hypotheses demo_env demo demo.mutants (hypothesis ∷ []) 60 5).0
    ≡ ok (verification.0, verification.1)
unfolding verify_hypotheses decide atom_beq
verified = refl

verify_hypotheses-Evidence_example :
    Evidence demo_env demo demo.mutants (hypothesis ∷ []) verification.0 verification.1
verify_hypotheses-Evidence_example =
    verify_hypotheses-Evidence demo_env demo demo.mutants (hypothesis ∷ []) 60 5 verification.0
      verification.1 verified

-- The output of every control on the input 0.
abbrev zeros : ProgramProbe
zeros p = some (JsonAtom.int (pos 0))

resolves : (decide demo (pos 0 ∷ []) zeros).decision ≡ Outcome.resolved
unfolding decide atom_beq
resolves = refl

decide-Established_example :
    (v : JsonAtom) × ((decide demo (pos 0 ∷ []) zeros).expected ≡ some v)
    × Established demo (pos 0 ∷ []) zeros v
decide-Established_example = decide-Established demo (pos 0 ∷ []) zeros resolves

case_of_some : {t u : TestCase} → some t ≡ some u → t ≡ u
case_of_some h = cc

established : Established demo (pos 0 ∷ []) zeros (JsonAtom.int (pos 0))
unfolding atom_beq atom_same
established = record {
  reference = refl;
  controls = ((JsonAtom.int (pos 0), refl, refl), tt);
  fixture = λ t h.
      subst (λ u. Agrees (JsonAtom.int (pos 0)) u.expected) (case_of_some h)
        (JsonAtom.int (pos 0), refl, refl);
}

Established-decide_example :
    ((decide demo (pos 0 ∷ []) zeros).decision ≡ Outcome.resolved)
    × ((decide demo (pos 0 ∷ []) zeros).expected ≡ some (JsonAtom.int (pos 0)))
    × ((decide demo (pos 0 ∷ []) zeros).quorum
        ≡ 1
          + length (independent_controls demo)
          + (if is_some (reviewed demo (pos 0 ∷ [])) then 1 else 0))
Established-decide_example =
    Established-decide demo (pos 0 ∷ []) zeros (JsonAtom.int (pos 0)) established

-- A control fails.
abbrev broken : ProgramProbe
broken p = if p.id == "again" then none else some (JsonAtom.int (pos 0))

abstains : (decide_with default_oracles demo (pos 0 ∷ []) broken).decision ≡ Outcome.abstained
unfolding decide_with default_oracles atom_beq
abstains = refl

decide_with-abstained_example :
    ((decide_with default_oracles demo (pos 0 ∷ []) broken).expected ≡ none)
    × ((decide_with default_oracles demo (pos 0 ∷ []) broken).quorum ≡ 0)
    × ((why : String) × ((decide_with default_oracles demo (pos 0 ∷ []) broken).abstention_reason
          ≡ some why))
decide_with-abstained_example =
    decide_with-abstained default_oracles demo (pos 0 ∷ []) broken abstains

-- Two verified verdicts, of which the second kills more.
abbrev verdict : String → List String → HypothesisVerdict
verdict hid killed = record {
  hypothesis = record hypothesis { id = hid };
  status = VerdictStatus.verified;
  reason = "";
  expected = some (JsonAtom.int (pos 3));
  actual = some (JsonAtom.int (pos 0));
  killed_mutants = killed;
}

abbrev two_verdicts : List HypothesisVerdict
two_verdicts = verdict "a" ("zero" ∷ []) ∷ verdict "b" ("zero" ∷ "one" ∷ []) ∷ []

selects : select two_verdicts ≡ ok (verdict "b" ("zero" ∷ "one" ∷ []))
unfolding select
selects = refl

select-AtLeast_example :
    Elem (verdict "b" ("zero" ∷ "one" ∷ [])) two_verdicts
    × All (AtLeast (verdict "b" ("zero" ∷ "one" ∷ []))) two_verdicts
select-AtLeast_example = select-AtLeast two_verdicts (verdict "b" ("zero" ∷ "one" ∷ [])) selects
