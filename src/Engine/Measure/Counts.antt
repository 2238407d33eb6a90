-- ===== src/Engine/Measure/Counts.antt =====
-- What the metrics count, and which mutants survive.
use course_fuzz.Prelude.{
  ℕ, suc, ◌<◌, String, ◌+◌, true, not, List, [], ◌∷◌, ◌++◌, length, length-map, take, drop, count,
  count-not, count-filter, zip, filter, Elem, Elem-filter, filter-Elem, nat_beq, nat_beq_iff,
  Bool-cases, inl, inr, ◌≡◌, refl, sym, ◌∙◌, Elem-map, map-Elem, ◌-◌, ap, ◌↔◌, arith,
}
use course_fuzz.Prelude.Result.{ok, bind-eq-ok}
use course_fuzz.Models.{
  AssignmentSpec, ProgramVariant, TestCase, SuiteExecution, MutationMetrics, all_passed,
}
use course_fuzz.Engine.{Env, lift, run_batch, >>=-eq-ok}
use course_fuzz.Engine.Measure.{zip_strict, passed_pairs, rate, tally, measure}

zip-take {ℓ κ} :
    {A : Type ℓ} {B : Type κ} (xs : List A) (ys : List B) → zip xs (take (length xs) ys) ≡ zip xs ys
zip-take [] ys = refl
zip-take (x ∷ xs) [] = refl
zip-take (x ∷ xs) (y ∷ ys) = rw (zip-take xs ys)

-- Counting over the second parts of a zip of lists of one length.
count-zip :
    (xs : List ProgramVariant) (ys : List SuiteExecution)
    → length xs ≡ length ys
    → count (λ p. all_passed p.1) (zip xs ys) ≡ count all_passed ys
count-zip [] [] h = refl
count-zip [] (y ∷ ys) h = absurd (omega arith)
count-zip (x ∷ xs) [] h = absurd (omega arith)
count-zip (x ∷ xs) (y ∷ ys) h = rw (count-zip xs ys (omega arith))

zip_strict-eq-ok {ℓ κ} :
    {A : Type ℓ} {B : Type κ} (xs : List A) (ys : List B) {ps : List (A × B)}
    → zip_strict xs ys ≡ ok ps
    → (length xs ≡ length ys) × (zip xs ys ≡ ps)
zip_strict-eq-ok xs ys h = elim (Bool-cases (nat_beq (length xs) (length ys))) [
  | inl e ↦ ((nat_beq_iff _ _).0 e, cc (rw e at h))
  | inr e ↦ cc (rw e at h)
]

module _ (env : Env) (a : AssignmentSpec) (executions : List SuiteExecution) where
  open env use {Percent}

  -- What a tally that returned has computed.
  record Tallied (m : MutationMetrics Percent) (survivors : List ProgramVariant) : Type 0 where
    total : m.total_mutants ≡ length a.mutants
    paired : length a.mutants ≡ length (take (length a.mutants) executions)
    survived : survivors ≡ passed_pairs (zip a.mutants executions)
    killed : m.killed_mutants ≡ count (λ r. not (all_passed r)) (take (length a.mutants) executions)
    surviving : m.surviving_mutants ≡ length survivors

  tally-Tallied :
      (m : MutationMetrics Percent) (survivors : List ProgramVariant)
      → tally env a executions ≡ ok (m, survivors)
      → Tallied m survivors
  unfolding tally
  tally-Tallied m survivors h =
      let p = bind-eq-ok (zip_strict a.mutants (take (length a.mutants) executions)) _ h in
      let z = zip_strict-eq-ok a.mutants (take (length a.mutants) executions) p.1 in
      let q =
        bind-eq-ok
          (rate env (count all_passed (drop (length a.mutants) executions))
            (length a.accepted_solutions))
          _ p.2 in
      let e = q.2 in
      let s : passed_pairs p.0 ≡ survivors = cc e in
      record {
        total = cc e;
        paired = z.0;
        survived = sym s ∙ ap passed_pairs (sym z.1 ∙ zip-take a.mutants executions);
        killed = cc e;
        surviving =
            let k : length (passed_pairs p.0) ≡ m.surviving_mutants = cc e in sym k ∙ ap length s;
      }

  Tallied-counts :
      {m : MutationMetrics Percent} {survivors : List ProgramVariant}
      → Tallied m survivors
      → m.killed_mutants + m.surviving_mutants ≡ m.total_mutants
  Tallied-counts {m} {survivors} t =
      let taken = take (length a.mutants) executions in
      let pairs = zip a.mutants executions in
      let s : length survivors ≡ count (λ p. all_passed p.1) pairs =
        ap length t.survived
        ∙ length-map (λ p. p.0) (filter (λ p. all_passed p.1) pairs)
        ∙ count-filter (λ p. all_passed p.1) pairs in
      let c : count (λ p. all_passed p.1) pairs ≡ count all_passed taken =
        ap (count (λ p. all_passed p.1)) (sym (zip-take a.mutants executions))
        ∙ count-zip a.mutants taken t.paired in
      omega (arith, count-not all_passed taken, t.total, t.paired, t.killed, t.surviving, s, c)

  Tallied-survivors :
      {m : MutationMetrics Percent} {survivors : List ProgramVariant}
      → Tallied m survivors
      → (p : ProgramVariant)
      → Elem p survivors
        ↔ ((e : SuiteExecution) × Elem (p, e) (zip a.mutants executions) × (all_passed e ≡ true))
  Tallied-survivors {survivors = survivors} t p = (fwd, bwd)
    where
      pairs : List (ProgramVariant × SuiteExecution)
      pairs = zip a.mutants executions

      fwd : Elem p survivors → (e : SuiteExecution) × Elem (p, e) pairs × (all_passed e ≡ true)
      fwd h =
          let q = Elem-map (λ q. q.0) (filter (λ q. all_passed q.1) pairs) p (rw t.survived at h) in
          let r = Elem-filter (λ q. all_passed q.1) pairs q.0 q.1 in (q.0.1, rw (← q.2) r.0, r.1)

      bwd : ((e : SuiteExecution) × Elem (p, e) pairs × (all_passed e ≡ true)) → Elem p survivors
      bwd (e, i, k) = rw t.survived (
          map-Elem (λ q. q.0) (filter (λ q. all_passed q.1) pairs) (p, e)
            (filter-Elem (λ q. all_passed q.1) pairs (p, e) i k))

-- A batch that returned was asked for before the deadline.
pub run_batch-eq-ok :
    (env : Env) (programs : List ProgramVariant) (entrypoint : String) (tests : List TestCase)
    (deadline n : ℕ) {executions : List SuiteExecution}
    → (run_batch env programs entrypoint tests deadline n).0 ≡ ok executions
    → (env.run_suite_batch (suc n) programs entrypoint tests (deadline - env.monotonic n)
        ≡ ok executions)
      × (env.monotonic n < deadline)
unfolding run_batch
run_batch-eq-ok env programs entrypoint tests deadline n h = ground arith

-- What a measurement says of the executions that it rests on.
pub record Measured (env : Env) (a : AssignmentSpec) (tests : List TestCase) (deadline n : ℕ)
    (m : MutationMetrics env.Percent) (survivors : List ProgramVariant) : Type 0 where
  pub executions : List SuiteExecution
  pub answered :
      env.run_suite_batch
        (suc n)
        (a.mutants ++ a.accepted_solutions)
        a.entrypoint
        tests
        (deadline - env.monotonic n)
      ≡ ok executions
  pub in_time : env.monotonic n < deadline
  pub total : m.total_mutants ≡ length a.mutants
  pub conserved : m.killed_mutants + m.surviving_mutants ≡ m.total_mutants
  pub surviving : m.surviving_mutants ≡ length survivors
  pub survives :
      (p : ProgramVariant)
      → Elem p survivors
        ↔ ((e : SuiteExecution) × Elem (p, e) (zip a.mutants executions) × (all_passed e ≡ true))

-- A measurement that returns was made before the deadline from the sandbox's answer for the mutants
-- followed by the accepted controls. Every mutant is counted, as killed or as surviving and never
-- as both, and the survivors are exactly the mutants whose own execution passed the whole suite.
pub measure-Measured :
    (env : Env) (a : AssignmentSpec) (tests : List TestCase) (deadline n : ℕ)
    (m : MutationMetrics env.Percent) (survivors : List ProgramVariant)
    → (measure env a tests deadline n).0 ≡ ok (m, survivors)
    → Measured env a tests deadline n m survivors
unfolding measure
measure-Measured env a tests deadline n m survivors h =
    let programs = a.mutants ++ a.accepted_solutions in
    let r =
      >>=-eq-ok (run_batch env programs a.entrypoint tests deadline)
        (λ executions. lift (tally env a executions)) n h in
    let b = run_batch-eq-ok env programs a.entrypoint tests deadline n r.1 in
    let t = tally-Tallied env a r.0 m survivors r.2 in
    record {
      executions = r.0;
      answered = b.0;
      in_time = b.1;
      total = t.total;
      conserved = Tallied-counts env a r.0 t;
      surviving = t.surviving;
      survives = Tallied-survivors env a r.0 t;
    }
