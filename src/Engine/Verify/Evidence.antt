-- ===== src/Engine/Verify/Evidence.antt =====
-- Verification as a whole: the two batches, and one verdict for each hypothesis.
use course_fuzz.Prelude.{
  ℕ, ℤ, String, List, [], ◌∷◌, map, string_eq, Elem, inl, inr, ◌≡◌, refl, sym, ◌∙◌,
}
use mathlib.Core.Path.{subst}
use course_fuzz.Prelude.Result.{Result, ok, ok-injective, ok-pair_injective}
use course_fuzz.Models.{
  AssignmentSpec, TestCase, ProgramVariant, SuiteExecution, AttackHypothesis, HypothesisVerdict,
}
use course_fuzz.Engine.{Env, lift, run_batch, >>=-eq-ok}
use course_fuzz.Engine.Measure.Counts.{run_batch-eq-ok}
use course_fuzz.Engine.Verify.{
  Row, Decisions, probe_test, classify, outputs_by_program, decisions_for, resolved_tests,
  verdict_for, traverse, verify_hypotheses,
}
use course_fuzz.Engine.Verify.Classify.{Declared}
use course_fuzz.Engine.Verify.Verdicts.{Judged, verdict_for-Judged}

-- `R` holds of the lists' entries at the same places, and the lists are equally long.
abbrev pub Each : {A B : Type 0} → (A → B → Type 0) → List A → List B → Type 0
Each R [] [] = Unit
Each R [] (y ∷ ys) = ⊥
Each R (x ∷ xs) [] = ⊥
Each R (x ∷ xs) (y ∷ ys) = R x y × Each R xs ys

module _ {A B : Type 0} (f : A → Result B) (R : A → B → Type 0) where
  traverse-Each :
      (xs : List A)
      → ((x : A) → Elem x xs → (y : B) × (f x ≡ ok y) × R x y)
      → (ys : List B) × (traverse f xs ≡ ok ys) × Each R xs ys
  traverse-Each [] h = ([], refl, tt)
  traverse-Each (x ∷ xs) h =
      let a = h x (inl refl) in
      let b = traverse-Each xs (λ z m. h z (inr m)) in (a.0 ∷ b.0, rw (a.1, b.1), (a.2, b.2))

-- The outputs that a batch of programs gave for a list of tests.
pub record Observed (env : Env) (programs : List ProgramVariant) (entrypoint : String)
    (tests : List TestCase) (rows : List (String × Row)) : Type 0 where
  pub call : ℕ
  pub remaining : ℕ
  pub executions : List SuiteExecution
  pub answered : env.run_suite_batch call programs entrypoint tests remaining ≡ ok executions
  pub collected : outputs_by_program programs executions ≡ ok rows

-- What a verification that returned rests on.
pub record Evidence (env : Env) (a : AssignmentSpec) (survivors : List ProgramVariant)
    (hypotheses : List AttackHypothesis) (verdicts : List HypothesisVerdict) (decisions : Decisions)
    : Type 0 where
  pub controls : List (String × Row)
  pub outputs : List (String × Row)
  pub decided : decisions ≡ decisions_for a controls (classify a hypotheses ([], [])).1
  pub control_run :
      Observed env a.accepted_solutions a.entrypoint
        (map probe_test (classify a hypotheses ([], [])).1)
        controls
  pub survivor_run : Observed env survivors a.entrypoint (resolved_tests decisions) outputs
  pub judged :
      Each
        (λ h v. Judged a controls outputs survivors (Declared a hypotheses h) h v)
        hypotheses
        verdicts

module _ (env : Env) (a : AssignmentSpec) (survivors : List ProgramVariant)
    (hypotheses : List AttackHypothesis) (deadline n : ℕ) where
  abbrev sorted : List (String × String) × List (List ℤ)
  sorted = classify a hypotheses ([], [])

  abbrev probes : List TestCase
  probes = map probe_test sorted.1

  -- A verification that returns has run every accepted control on every declared input that was
  -- proposed, and every survivor on every input that the oracle resolved, and gives one verdict for
  -- each hypothesis, in order. A verdict is `verified` only if the input is declared, all truth
  -- sources established one value for it, and at least one survivor is named, each with an output
  -- that differs from that value; and it is `verified` whenever every hypothesis with its id has
  -- declared inputs, the truth sources establish a value for its own, and a survivor's output there
  -- differs from that value.
  pub verify_hypotheses-Evidence :
      (verdicts : List HypothesisVerdict) (decisions : Decisions)
      → (verify_hypotheses env a survivors hypotheses deadline n).0 ≡ ok (verdicts, decisions)
      → Evidence env a survivors hypotheses verdicts decisions
  unfolding verify_hypotheses
  verify_hypotheses-Evidence verdicts decisions h =
      let s1 = >>=-eq-ok (run_batch env a.accepted_solutions a.entrypoint probes deadline) _ n h in
      let b1 = run_batch-eq-ok env a.accepted_solutions a.entrypoint probes deadline n s1.1 in
      let s2 = >>=-eq-ok (lift (outputs_by_program a.accepted_solutions s1.0)) _ _ s1.2 in
      let tests = resolved_tests (decisions_for a s2.0 sorted.1) in
      let s3 = >>=-eq-ok (run_batch env survivors a.entrypoint tests deadline) _ _ s2.2 in
      let b3 = run_batch-eq-ok env survivors a.entrypoint tests deadline _ s3.1 in
      let s4 = >>=-eq-ok (lift (outputs_by_program survivors s3.0)) _ _ s3.2 in
      let judge = verdict_for sorted.0 (decisions_for a s2.0 sorted.1) s4.0 survivors in
      let s5 = >>=-eq-ok (lift (traverse judge hypotheses)) _ _ s4.2 in
      let t =
        traverse-Each judge _ hypotheses (verdict_for-Judged a s2.0 s4.0 survivors hypotheses) in
      let (vs, ds) =
        ok-pair_injective s5.0 verdicts (decisions_for a s2.0 sorted.1) decisions s5.2 in
      let ys = ok-injective t.0 s5.0 (sym t.1 ∙ s5.1) ∙ vs in
      record {
        controls = s2.0;
        outputs = s4.0;
        decided = sym ds;
        control_run = record {
          call = _;
          remaining = _;
          executions = s1.0;
          answered = b1.0;
          collected = s2.1;
        };
        survivor_run =
            subst (λ d. Observed env survivors a.entrypoint (resolved_tests d) s4.0) ds
              (record {
                call = _;
                remaining = _;
                executions = s3.0;
                answered = b3.0;
                collected = s4.1;
              });
        judged =
            subst
              (Each (λ g v. Judged a s2.0 s4.0 survivors (Declared a hypotheses g) g v) hypotheses)
              ys t.2;
      }
