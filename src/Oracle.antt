-- ===== src/Oracle.antt =====
-- How the expected output for an input is established (src/coursefuzz/domain/oracle.py).
-- A `ProgramProbe` runs one program on the input under evaluation; `none` is a failure.
pub mod Agreement
pub mod Abstention
use course_fuzz.Prelude.{
  ℤ, ℕ, String, Bool, true, false, not, ◌&&◌, Option, none, some, List, [], ◌∷◌, ◌++◌, map, ◌==◌,
  all, filter, find, length, is_none, is_some, if◌then◌else◌, int_eq, list_eq, string_eq,
}
use course_fuzz.Prelude.Text.{◌++ₛ◌, sorted_set, join}
use course_fuzz.Models.{AssignmentSpec, ProgramVariant, TestCase, OracleDecision, Outcome}
use course_fuzz.Models.Atom.{JsonAtom, atom_same}

abbrev pub ProgramProbe : Type 0
ProgramProbe = ProgramVariant → Option JsonAtom

-- OracleReading.status
pub data Status : Type 0 where
  resolved unavailable error : Status

pub record OracleReading : Type 0 where
  pub source_name : String
  pub status : Status
  pub value : Option JsonAtom
  pub evidence : List String
  pub detail : Option String

-- An `Oracle` is its `evaluate`.
abbrev pub Oracle : Type 0
Oracle = AssignmentSpec → List ℤ → ProgramProbe → OracleReading

abbrev pub error_reading : String → String → OracleReading
error_reading name why = record {
  source_name = name;
  status = error;
  value = none;
  evidence = [];
  detail = some why;
}

abbrev pub unavailable_reading : String → OracleReading
unavailable_reading name = record {
  source_name = name;
  status = unavailable;
  value = none;
  evidence = [];
  detail = none;
}

abbrev pub resolved_reading : String → JsonAtom → List String → OracleReading
resolved_reading name v evidence = record {
  source_name = name;
  status = resolved;
  value = some v;
  evidence = evidence;
  detail = none;
}

reference_reading : Option JsonAtom → OracleReading
reference_reading none = error_reading "reference" "the instructor reference failed to execute"
reference_reading (some v) = resolved_reading "reference" v ("reference" ∷ [])

reference_oracle : Oracle
unfolding reference_reading
reference_oracle a inputs probe = reference_reading (probe a.reference)

-- The controls that are not the reference.
abbrev pub independent_controls : AssignmentSpec → List ProgramVariant
independent_controls a = filter (λ c. not (c.id == a.reference.id)) a.accepted_solutions

-- One round of the loop over the controls; `none` is its early return.
push_output :
    String → Option JsonAtom → Option (List (String × JsonAtom)) → Option (List (String × JsonAtom))
push_output cid none rest = none
push_output cid (some v) none = none
push_output cid (some v) (some rest) = some ((cid, v) ∷ rest)

control_outputs : ProgramProbe → List ProgramVariant → Option (List (String × JsonAtom))
unfolding push_output
control_outputs probe [] = some []
control_outputs probe (c ∷ cs) = push_output c.id (probe c) (control_outputs probe cs)

-- The reading once every control has an output; no control is the early return above the loop.
consensus_reading : Option (List (String × JsonAtom)) → OracleReading
consensus_reading none = error_reading "consensus" "an accepted control failed to execute"
consensus_reading (some []) = unavailable_reading "consensus"
consensus_reading (some ((cid, v) ∷ rest)) =
    if all (λ p. atom_same v p.1) rest
    then resolved_reading "consensus" v (map (λ p. "control:" ++ₛ p.0) ((cid, v) ∷ rest))
    else error_reading "consensus" "independent accepted controls disagreed"

consensus_oracle : Oracle
unfolding control_outputs consensus_reading
consensus_oracle a inputs probe = consensus_reading (control_outputs probe (independent_controls a))

fixture_value : TestCase → Option JsonAtom → OracleReading → OracleReading
fixture_value t none rest = rest
fixture_value t (some v) rest = resolved_reading "fixture" v (("fixture:" ++ₛ t.label) ∷ [])

-- The first reviewed case for the input that states an expected value.
fixture_reading : List TestCase → List ℤ → OracleReading
unfolding fixture_value
fixture_reading [] inputs = unavailable_reading "fixture"
fixture_reading (t ∷ ts) inputs =
    let rest = fixture_reading ts inputs in
    if t.inputs == inputs then fixture_value t t.expected rest else rest

fixture_oracle : Oracle
unfolding fixture_reading
fixture_oracle a inputs probe = fixture_reading a.instructor_tests inputs

abbrev pub status_error : Status → Bool
status_error error = true
status_error _ = false

abbrev pub status_resolved : Status → Bool
status_resolved resolved = true
status_resolved _ = false

-- One element of a set of `JsonAtom | None`.
abbrev pub value_same : Option JsonAtom → Option JsonAtom → Bool
value_same none none = true
value_same (some a) (some b) = atom_same a b
value_same _ _ = false

abbrev pub flat_evidence : List OracleReading → List String
flat_evidence [] = []
flat_evidence (r ∷ rs) = r.evidence ++ flat_evidence rs

abbrev pub abstention : String → List String → String → OracleDecision
abstention provenance evidence why = record {
  expected = none;
  decision = Outcome.abstained;
  provenance = provenance;
  evidence_sources = evidence;
  quorum = 0;
  abstention_reason = some why;
}

or_default : Option String → String → String
or_default none d = d
or_default (some s) d = if s == "" then d else s

-- The part of `decide` below the error check, over the resolved readings.
resolve : List OracleReading → OracleDecision
resolve [] = abstention "composite" [] "no independent source resolved the expected output"
resolve (r ∷ rs) =
    let evidence = flat_evidence (r ∷ rs) in
    if all (λ q. value_same r.value q.value) rs
    then record {
      expected = r.value;
      decision = Outcome.resolved;
      provenance = join "+" (sorted_set (map (λ q. q.source_name) (r ∷ rs)));
      evidence_sources = evidence;
      quorum = length evidence;
      abstention_reason = none;
    }
    else abstention "disagreement" evidence
        "independent truth sources disagreed on the expected output"

after_errors : Option OracleReading → List OracleReading → OracleDecision
unfolding or_default resolve
after_errors (some e) readings =
    abstention "composite" [] (or_default e.detail "a truth source failed to execute")
after_errors none readings = resolve (filter (λ r. status_resolved r.status) readings)

from_readings : List OracleReading → OracleDecision
unfolding after_errors
from_readings readings = after_errors (find (λ r. status_error r.status) readings) readings

-- CompositeOracle.decide over a given list of oracles.
unfoldable pub decide_with : List Oracle → AssignmentSpec → List ℤ → ProgramProbe → OracleDecision
unfolding from_readings
decide_with oracles a inputs probe = from_readings (map (λ (o : Oracle). o a inputs probe) oracles)

unfoldable pub default_oracles : List Oracle
unfolding reference_oracle consensus_oracle fixture_oracle
default_oracles = reference_oracle ∷ consensus_oracle ∷ fixture_oracle ∷ []

-- CompositeOracle().decide
unfoldable pub decide : AssignmentSpec → List ℤ → ProgramProbe → OracleDecision
unfolding decide_with default_oracles
decide = decide_with default_oracles
