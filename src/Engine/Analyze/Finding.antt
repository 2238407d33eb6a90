-- ===== src/Engine/Analyze/Finding.antt =====
-- What an analysis that proposes a patch has established.
use mathlib.Core.Path.{subst}
use course_fuzz.Prelude.{
  ℕ, zero, suc, ◌+◌, ℤ, true, Option, none, some, List, [], ◌∷◌, ◌++◌, map, filter, lookup,
  string_eq, int_eq, list_eq, Elem, Elem-filter, All, ◌≡◌, inl, inr, refl, sym, ap, ◌∙◌,
  Option-cases, arith,
}
use course_fuzz.Prelude.Result.{ok, ok-injective}
use course_fuzz.Models.{
  AssignmentSpec, ProgramVariant, AttackHypothesis, HypothesisVerdict, VerdictStatus,
  OracleDecision, CandidatePatch, MutationMetrics, AnalysisResult, HypothesisContext, SurvivorHint,
}
use course_fuzz.Models.Atom.{JsonAtom}
use course_fuzz.Oracle.Agreement.{Established-decide}
use course_fuzz.Engine.{Env, lift, >>=-eq-ok}
use course_fuzz.Engine.Measure.{measure}
use course_fuzz.Engine.Measure.Counts.{Measured, measure-Measured}
use course_fuzz.Engine.Verify.{Decisions, decision_at, verify_hypotheses}
use course_fuzz.Engine.Verify.Classify.{decisions-lookup}
use course_fuzz.Engine.Verify.Verdicts.{Verified, control_probe}
use course_fuzz.Engine.Verify.Evidence.{Each, Evidence, verify_hypotheses-Evidence}
use course_fuzz.Engine.Select.{select}
use course_fuzz.Engine.Select.Best.{AtLeast, select-AtLeast}
use course_fuzz.Engine.Analyze.{
  Attempt, is_verified, both_values, program_by_id, first_killed, regression_test, context_of,
  try_once, or_next, feedback, attempts, unsolved, proposal, report, conclude, after_attempts,
  search_survivors, analyze,
}

eq_of_some : {A : Type 0} (x y : A) → some x ≡ some y → x ≡ y
eq_of_some x y h = cc

Each-Elem :
    {A B : Type 0} (R : A → B → Type 0) (xs : List A) (ys : List B) (y : B)
    → Each R xs ys
    → Elem y ys
    → (x : A) × R x y
Each-Elem R [] [] y e m = absurd m
Each-Elem R [] (z ∷ ys) y e m = absurd e
Each-Elem R (x ∷ xs) [] y e m = absurd m
Each-Elem R (x ∷ xs) (z ∷ ys) y e (inl p) = (x, subst (R x) (sym p) e.0)
Each-Elem R (x ∷ xs) (z ∷ ys) y e (inr m) = Each-Elem R xs ys y e.1 m

is_verified-status :
    (v : HypothesisVerdict) → is_verified v ≡ true → v.status ≡ VerdictStatus.verified
is_verified-status v h = ground arith

decision_at-eq-ok :
    (ds : Decisions) (i : List ℤ) {d : OracleDecision}
    → decision_at ds i ≡ ok d
    → lookup i ds ≡ some d
decision_at-eq-ok ds i h = elim (Option-cases (lookup i ds)) [
  | inl e ↦ cc (rw e at h)
  | inr (x, e) ↦ e ∙ cc (rw e at h)
]

module _ (env : Env) (a : AssignmentSpec) where
  open env use {Percent}

  -- An attempt keeps what one verification returned.
  record Tried (survivors : List ProgramVariant) (r : Attempt) : Type 0 where
    hypotheses : List AttackHypothesis
    evidence : Evidence env a survivors hypotheses r.verdicts r.decisions
    verified : r.verified ≡ filter is_verified r.verdicts

  module _ (survivors : List ProgramVariant) (deadline : ℕ) (hints : List SurvivorHint) where
    try_once-Tried :
        (context : HypothesisContext) (n : ℕ) (r : Attempt)
        → (try_once env a survivors deadline context hints n).0 ≡ ok r
        → Tried survivors r
    unfolding try_once
    try_once-Tried context n r h =
        let s = >>=-eq-ok (λ k. (env.propose k context hints, suc k)) _ n h in
        let t = >>=-eq-ok (verify_hypotheses env a survivors s.0 deadline) _ _ s.2 in
        let e = verify_hypotheses-Evidence env a survivors s.0 deadline _ t.0.0 t.0.1 t.1 in
        subst (Tried survivors) (ok-injective _ r t.2)
          (record { hypotheses = s.0; evidence = e; verified = refl })

    attempts-Tried :
        (left : ℕ) (context : HypothesisContext) (n : ℕ) (r : Attempt)
        → (attempts env a survivors deadline hints left context n).0 ≡ ok r
        → Tried survivors r
    unfolding attempts
    attempts-Tried zero context n r h = try_once-Tried context n r h
    attempts-Tried (suc left) context n r h =
        let s = >>=-eq-ok (try_once env a survivors deadline context hints) _ n h in
        pick s.0 s.0.verified (try_once-Tried context n s.0 s.1)
          (λ c k q. attempts-Tried left c k r q) _ s.2
      where
        pick :
            (t : Attempt) (vs : List HypothesisVerdict)
            → Tried survivors t
            → ((c : HypothesisContext) (k : ℕ)
                → (attempts env a survivors deadline hints left c k).0 ≡ ok r
                → Tried survivors r)
            → (k : ℕ)
            → (or_next vs t
                (attempts env a survivors deadline hints left
                  (record context { previous_feedback = map (feedback env) t.verdicts }))
                k).0
              ≡ ok r
            → Tried survivors r
        pick t [] tried next k q = next _ k q
        pick t (v ∷ vs) tried next k q = subst (Tried survivors) (ok-injective t r q) tried

  -- What a proposed patch rests on: the hypothesis `source` that was selected.
  pub record Finding (r : AnalysisResult Percent) (c : CandidatePatch) : Type 0 where
    pub survivors : List ProgramVariant
    pub hypotheses : List AttackHypothesis
    pub decisions : Decisions
    pub evidence : Evidence env a survivors hypotheses r.hypothesis_verdicts decisions
    pub source : HypothesisVerdict
    pub among : Elem source r.hypothesis_verdicts
    pub best : All (AtLeast source) (filter is_verified r.hypothesis_verdicts)
    pub backed : Verified a evidence.controls evidence.outputs survivors source
    pub inputs : c.test.inputs ≡ source.hypothesis.inputs
    pub expected : c.test.expected ≡ some backed.value
    pub targets : c.target_mutants ≡ source.killed_mutants
    pub before : (d k : ℕ) × Measured env a a.instructor_tests d k r.before survivors
    pub after :
        (d k : ℕ) × (left : List ProgramVariant) × Measured env a
          (a.instructor_tests ++ c.test ∷ [])
          d
          k
          r.projected_after
          left

  both_values-eq-ok :
      (e v : Option JsonAtom) (p : JsonAtom × JsonAtom)
      → both_values e v ≡ ok p
      → (e ≡ some p.0) × (v ≡ some p.1)
  unfolding both_values
  both_values-eq-ok none v p h = cc
  both_values-eq-ok (some x) none p h = cc
  both_values-eq-ok (some x) (some y) p h = ground (arith, h)

  module _ (survivors : List ProgramVariant) (before : MutationMetrics Percent) (deadline : ℕ)
      (t : Attempt) (tried : Tried survivors t)
      (measured : (d k : ℕ) × Measured env a a.instructor_tests d k before survivors)
      (v : HypothesisVerdict) (m : Elem v t.verified) (b : All (AtLeast v) t.verified)
      (r : AnalysisResult Percent) (c : CandidatePatch) where
    -- The selected verdict, with what stands behind it.
    listed : Elem v t.verdicts × (is_verified v ≡ true)
    listed = Elem-filter is_verified t.verdicts v (rw tried.verified at m)

    judged : Verified a tried.evidence.controls tried.evidence.outputs survivors v
    judged =
        let j = Each-Elem _ tried.hypotheses t.verdicts v tried.evidence.judged listed.0 in
        j.1.sound (is_verified-status v listed.1)

    -- The decision for its inputs states the established value.
    decided :
        (d : OracleDecision)
        → decision_at t.decisions v.hypothesis.inputs ≡ ok d
        → d.expected ≡ some judged.value
    decided d h =
        let e = tried.evidence in
        let inputs = v.hypothesis.inputs in
        let l = decision_at-eq-ok t.decisions inputs h in
        let q =
          decisions-lookup a e.controls _ inputs d
            (subst (λ x. lookup inputs x ≡ some d) e.decided l) in
        ap (λ (x : OracleDecision). x.expected) q
        ∙ (Established-decide a inputs (control_probe a e.controls e.outputs survivors inputs)
            judged.value judged.established).1

    report-Finding :
        (d : OracleDecision) (values : JsonAtom × JsonAtom) (target : ProgramVariant)
        (after : MutationMetrics Percent) (left : List ProgramVariant) (n : ℕ)
        → d.expected ≡ some judged.value
        → both_values d.expected v.actual ≡ ok values
        → (measure env a
            (a.instructor_tests ++ regression_test v values.0 target ∷ [])
            deadline
            n).0
          ≡ ok (after, left)
        → report env before survivors t d (proposal env a v d values target) after ≡ r
        → r.candidate ≡ some c
        → Finding r c
    unfolding report proposal
    report-Finding d values target after left n e b' h p k =
        let patch = proposal env a v d values target in
        let q = ap (λ (x : AnalysisResult Percent). x.candidate) p ∙ k in
        let value = sym (both_values-eq-ok d.expected v.actual values b').0 ∙ e in
        let tests = a.instructor_tests ++ regression_test v values.0 target ∷ [] in
        subst (λ x. Finding x c) p
          (subst (λ x. Finding (report env before survivors t d patch after) x)
            (eq_of_some patch c q)
            (record {
              survivors = survivors;
              hypotheses = tried.hypotheses;
              decisions = t.decisions;
              evidence = tried.evidence;
              source = v;
              among = listed.0;
              best = subst (All (AtLeast v)) tried.verified b;
              backed = judged;
              inputs = refl;
              expected = value;
              targets = refl;
              before = measured;
              after = (deadline, n, left, measure-Measured env a tests deadline n after left h);
            }))

    conclude-Finding :
        (n : ℕ)
        → (conclude env a deadline before survivors t v n).0 ≡ ok r
        → r.candidate ≡ some c
        → Finding r c
    unfolding conclude
    conclude-Finding n h k =
        let s1 = >>=-eq-ok (lift (decision_at t.decisions v.hypothesis.inputs)) _ n h in
        let s2 = >>=-eq-ok (lift (both_values s1.0.expected v.actual)) _ _ s1.2 in
        let s3 = >>=-eq-ok (lift (first_killed v.killed_mutants)) _ _ s2.2 in
        let s4 = >>=-eq-ok (lift (program_by_id survivors s3.0)) _ _ s3.2 in
        let test = regression_test v s2.0.0 s4.0 in
        let s5 = >>=-eq-ok (measure env a (a.instructor_tests ++ test ∷ []) deadline) _ _ s4.2 in
        report-Finding s1.0 s2.0 s4.0 s5.0.0 s5.0.1 _ (decided s1.0 s1.1) s2.1 s5.1
          (ok-injective _ r s5.2) k

  module _ (r : AnalysisResult Percent) (c : CandidatePatch) where
    after_attempts-Finding :
        (survivors : List ProgramVariant) (before : MutationMetrics Percent) (deadline : ℕ)
        (t : Attempt) (vs : List HypothesisVerdict) (n : ℕ)
        → Tried survivors t
        → t.verified ≡ vs
        → (d k : ℕ) × Measured env a a.instructor_tests d k before survivors
        → (after_attempts env a deadline before survivors t vs n).0 ≡ ok r
        → r.candidate ≡ some c
        → Finding r c
    unfolding after_attempts unsolved
    after_attempts-Finding survivors before deadline t [] n tried e m h k =
        cc (ap (λ (x : AnalysisResult Percent). x.candidate) (ok-injective _ r h), k)
    after_attempts-Finding survivors before deadline t (v ∷ vs) n tried e m h k =
        let s =
          >>=-eq-ok (lift (select (v ∷ vs))) (conclude env a deadline before survivors t) n h in
        let b = select-AtLeast (v ∷ vs) s.0 s.1 in
        conclude-Finding survivors before deadline t tried m s.0 (rw e b.0) (rw e b.1) r c _ s.2 k

    search_survivors-Finding :
        (survivors : List ProgramVariant) (before : MutationMetrics Percent) (deadline n : ℕ)
        → (d k : ℕ) × Measured env a a.instructor_tests d k before survivors
        → (search_survivors env a deadline before survivors n).0 ≡ ok r
        → r.candidate ≡ some c
        → Finding r c
    unfolding search_survivors unsolved
    search_survivors-Finding [] before deadline n m h k =
        cc (ap (λ (x : AnalysisResult Percent). x.candidate) (ok-injective _ r h), k)
    search_survivors-Finding (p ∷ ps) before deadline n m h k =
        let hints =
          map (λ (q : ProgramVariant). record { id = q.id; misconception = q.misconception })
            (p ∷ ps) in
        let s = >>=-eq-ok (attempts env a (p ∷ ps) deadline hints 1 (context_of env a)) _ n h in
        after_attempts-Finding (p ∷ ps) before deadline s.0 s.0.verified _
          (attempts-Tried (p ∷ ps) deadline hints 1 (context_of env a) n s.0 s.1) refl m s.2 k

-- An analysis that returns a patch has measured the instructor's suite and verified hypotheses
-- against the mutants that survived it. The patch's test is the selected hypothesis's input with the
-- value that every truth source established for it, inside the declared domain; the patch names
-- surviving mutants alone, at least one, each with an output that differs from that value; no other
-- verified hypothesis kills more; and the projected metrics are those of the suite with the test
-- added.
pub analyze-Finding :
    (env : Env) (a : AssignmentSpec) (n : ℕ) (r : AnalysisResult env.Percent) (c : CandidatePatch)
    → (analyze env a n).0 ≡ ok r
    → r.candidate ≡ some c
    → Finding env a r c
unfolding analyze
analyze-Finding env a n r c h k =
    let deadline = env.monotonic n + env.max_analysis in
    let s = >>=-eq-ok (measure env a a.instructor_tests deadline) _ (suc n) h in
    search_survivors-Finding env a r c s.0.1 s.0.0 deadline _
      (deadline, suc n, measure-Measured env a a.instructor_tests deadline (suc n) s.0.0 s.0.1 s.1)
      s.2 k
