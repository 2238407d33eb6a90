-- ===== src/Assignments/Checked.antt =====
-- What an assignment has gone through when it is created (AssignmentService.create and _preflight of
-- src/coursefuzz/services/assignment_service.py).
use course_fuzz.Prelude.{
  String, Bool, true, Option, some, List, [], ◌∷◌, ◌++◌, map, All, ◌≡◌, refl, inl, inr, Bool-cases,
}
use course_fuzz.Prelude.Result.{Result, ok, raised}
use course_fuzz.Prelude.Text.{all_distinct}
use course_fuzz.Prelude.State.{lift, ◌>>=◌, >>=-returned}
use course_fuzz.Models.{AssignmentSpec, ProgramVariant, TestCase, SuiteExecution, all_passed}
use course_fuzz.Assignments.{
  Snapshot, Tables, Provenance, Tools, rejected, validate_all, passed_all, run_controls, preflight,
  snapshot_of, store, create, get_assignment,
}
use course_fuzz.Assignments.Stored.{IsKeyed, IsStored, create_assignment-IsStored}

module _ (tools : Tools) where
  open tools use {validate_source, run_suite, is_rejection, snapshot_sha256}

  unfoldable pub Valid : (entrypoint : String) → ProgramVariant → Type 0
  Valid entrypoint p = validate_source p.source entrypoint ≡ ok tt

  unfoldable pub Passes : (entrypoint : String) → List TestCase → ProgramVariant → Type 0
  Passes entrypoint tests p =
      (e : SuiteExecution) × (run_suite p entrypoint tests ≡ ok e) × (all_passed e ≡ true)

  rejected-ok :
      (p : ProgramVariant) (r : Result (Unit {0})) → rejected tools p r ≡ ok tt → r ≡ ok tt
  unfolding rejected
  rejected-ok p (ok u) h = refl
  rejected-ok p (raised x) h = elim (Bool-cases (is_rejection x)) [
    | inl e ↦ cc (rw e at h)
    | inr e ↦ cc (rw e at h)
  ]

  passed_all-ok :
      (p : ProgramVariant) (r : Result SuiteExecution)
      → passed_all tools p r ≡ ok tt
      → (e : SuiteExecution) × (r ≡ ok e) × (all_passed e ≡ true)
  unfolding passed_all
  passed_all-ok p (raised x) h = cc
  passed_all-ok p (ok e) h = elim (Bool-cases (all_passed e)) [
    | inl k ↦ (e, refl, k)
    | inr k ↦ cc (rw k at h)
  ]

  -- A sequence of two checks that went well.
  both_ok :
      (first rest : Result (Unit {0}))
      → (elim first [ ok u ↦ rest | raised x ↦ raised x ]) ≡ ok tt
      → (first ≡ ok tt) × (rest ≡ ok tt)
  both_ok (ok u) rest h = (refl, h)
  both_ok (raised x) rest h = cc

  validate_all-Valid :
      (entrypoint : String) (ps : List ProgramVariant)
      → validate_all tools entrypoint ps ≡ ok tt
      → All (Valid entrypoint) ps
  unfolding validate_all Valid
  validate_all-Valid entrypoint [] h = tt
  validate_all-Valid entrypoint (p ∷ ps) h =
      let (a, b) =
        both_ok (rejected tools p (validate_source p.source entrypoint))
          (validate_all tools entrypoint ps) h in
      (rejected-ok p _ a, validate_all-Valid entrypoint ps b)

  run_controls-Passes :
      (entrypoint : String) (tests : List TestCase) (ps : List ProgramVariant)
      → run_controls tools entrypoint tests ps ≡ ok tt
      → All (Passes entrypoint tests) ps
  unfolding run_controls Passes
  run_controls-Passes entrypoint tests [] h = tt
  run_controls-Passes entrypoint tests (p ∷ ps) h =
      let (a, b) =
        both_ok (passed_all tools p (run_suite p entrypoint tests))
          (run_controls tools entrypoint tests ps) h in
      (passed_all-ok p _ a, run_controls-Passes entrypoint tests ps b)

  -- What the preflight has established.
  pub record IsChecked (a : AssignmentSpec) : Type 0 where
    pub distinct : all_distinct (map (λ p. p.source) a.accepted_solutions) ≡ true
    pub valid : All (Valid a.entrypoint) (a.accepted_solutions ++ a.mutants)
    pub passing : All (Passes a.entrypoint a.instructor_tests) a.accepted_solutions

  -- Two checks in sequence leave the state as it was.
  two_lifts_same : (r q : Result (Unit {0})) (t : Tables) → ((lift r >>= λ _. lift q) t).1 ≡ t
  unfolding ◌>>=◌
  two_lifts_same (ok u) q t = refl
  two_lifts_same (raised x) q t = refl

  preflight-same : (a : AssignmentSpec) (t : Tables) → (preflight tools a t).1 ≡ t
  unfolding preflight
  preflight-same a t = elim (Bool-cases (all_distinct (map (λ p. p.source) a.accepted_solutions))) [
    | inl e ↦ rw e (
        two_lifts_same (validate_all tools a.entrypoint (a.accepted_solutions ++ a.mutants))
          (run_controls tools a.entrypoint a.instructor_tests a.accepted_solutions) t)
    | inr e ↦ rw e refl
  ]

  preflight-IsChecked :
      (a : AssignmentSpec) (t : Tables) (u : Unit {0})
      → (preflight tools a t).0 ≡ ok u
      → IsChecked a
  unfolding preflight
  preflight-IsChecked a t u h =
      elim (Bool-cases (all_distinct (map (λ p. p.source) a.accepted_solutions))) [
        | inl e ↦
            let (v, j, k) =
              >>=-returned
                (lift (validate_all tools a.entrypoint (a.accepted_solutions ++ a.mutants)))
                (λ _.
                  lift (run_controls tools a.entrypoint a.instructor_tests a.accepted_solutions))
                t (rw e at h) in
            record {
              distinct = e;
              valid = validate_all-Valid a.entrypoint (a.accepted_solutions ++ a.mutants) j;
              passing = run_controls-Passes a.entrypoint a.instructor_tests a.accepted_solutions k;
            }
        | inr e ↦ cc (rw e at h)
      ]

  -- Where no two rows have one identifier, an assignment that the service has created has accepted
  -- solutions with distinct sources, sources that are all valid, and accepted solutions that ran on
  -- the instructor's tests and passed all of them; it is read back by the same tenant under the
  -- identifier that was returned, its digest is that of the specification, and no two rows have one
  -- identifier after it.
  pub create-IsChecked :
      (a : AssignmentSpec) (tenant_id : String) (p : Provenance) (g : Option String) (t : Tables)
      → IsKeyed t
      → (r : Snapshot) (new : Bool) → (create tools a tenant_id p g t).0 ≡ ok (r, new)
      → IsChecked a
        × (get_assignment r.id tenant_id (create tools a tenant_id p g t).1 ≡ some r)
        × (r.snapshot_sha256 ≡ snapshot_sha256 a)
        × IsKeyed (create tools a tenant_id p g t).1
  unfolding create ◌>>=◌ IsStored
  create-IsChecked a tenant_id p g t k r new h =
      let (u, j, l) = >>=-returned (preflight tools a) (store tools a tenant_id p g) t h in
      let same = preflight-same a t in
      let (m, d, o) =
        create_assignment-IsStored (snapshot_of tools a p g) tenant_id t k r new (rw same at l) in
      (preflight-IsChecked a t u j, rw (j, same) m, d, rw (j, same) o)
