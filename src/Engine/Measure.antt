-- ===== src/Engine/Measure.antt =====
-- AssessmentEngine._measure: one batch of every mutant and accepted control over one suite.
pub mod Counts
use course_fuzz.Prelude.{
  ℕ, zero, String, Bool, not, List, [], ◌∷◌, ◌++◌, length, take, drop, count, zip, filter, map,
  nat_beq, if◌then◌else◌,
}
use course_fuzz.Prelude.Result.{Result, ok, raised, value_error, other_error, ◌>>=◌ as ◌>>=ᵣ◌}
use course_fuzz.Models.{
  AssignmentSpec, ProgramVariant, TestCase, SuiteExecution, MutationMetrics, all_passed,
}
use course_fuzz.Engine.{Env, Timed, lift, run_batch, ◌>>=◌}

-- zip(xs, ys, strict=True)
abbrev pub zip_strict {ℓ κ} : {A : Type ℓ} {B : Type κ} → List A → List B → Result (List (A × B))
zip_strict xs ys =
    if nat_beq (length xs) (length ys)
    then ok (zip xs ys)
    else raised (value_error "zip() argument 2 has another length than argument 1")

abbrev passed_pairs : List (ProgramVariant × SuiteExecution) → List ProgramVariant
passed_pairs pairs = map (λ p. p.0) (filter (λ p. all_passed p.1) pairs)

module _ (env : Env) where
  open env use {Percent, percent, hundred}

  -- A rate over nothing is a division by zero.
  rate : ℕ → ℕ → Result Percent
  rate a zero = raised (other_error "ZeroDivisionError")
  rate a b = ok (percent a b)

  score : ℕ → ℕ → Percent
  score killed zero = hundred
  score killed total = percent killed total

  -- The computation below the batch.
  pub tally :
      AssignmentSpec → List SuiteExecution → Result (MutationMetrics Percent × List ProgramVariant)
  unfolding rate score
  tally a executions =
      let total = length a.mutants in
      let mutant_results = take total executions in
      let accepted_results = drop total executions in
      zip_strict a.mutants mutant_results >>=ᵣ λ pairs.
      let survivors = passed_pairs pairs in
      let killed = count (λ r. not (all_passed r)) mutant_results in
      rate (count all_passed accepted_results) (length a.accepted_solutions) >>=ᵣ λ accepted. ok (
        record {
          total_mutants = total;
          killed_mutants = killed;
          surviving_mutants = length survivors;
          mutation_score = score killed total;
          accepted_solution_pass_rate = accepted;
        },
        survivors,
      )

  unfoldable pub measure :
      AssignmentSpec
      → List TestCase
      → (deadline : ℕ) → Timed (MutationMetrics Percent × List ProgramVariant)
  unfolding run_batch tally
  measure a tests deadline =
      run_batch env (a.mutants ++ a.accepted_solutions) a.entrypoint tests deadline
      >>= λ executions. lift (tally a executions)
