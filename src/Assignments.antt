-- ===== src/Assignments.antt =====
-- The assignments of the repository (create_assignment, get_assignment and list_assignments of
-- src/coursefuzz/repositories/sqlite.py) and the service over them
-- (src/coursefuzz/services/assignment_service.py).
pub mod Stored
pub mod Checked
pub mod Private
use course_fuzz.Prelude.{
  ℕ, suc, String, Bool, true, false, not, ◌&&◌, ◌||◌, Option, none, some, List, [], ◌∷◌, ◌++◌, map,
  any, filter, find, length, is_none, contains, ◌==◌, string_eq, if◌then◌else◌, ltb,
}
use course_fuzz.Prelude.Text.{◌++ₛ◌, take_chars, all_distinct}
use course_fuzz.Prelude.Result.{Result, Exn, ok, raised, value_error, key_error}
use course_fuzz.Prelude.State.{St, pure, raise, lift, ◌>>=◌}
use course_fuzz.Models.{AssignmentSpec, ProgramVariant, TestCase, SuiteExecution, Time, all_passed}
use course_fuzz.Hypotheses.{sort_by}

-- AssignmentSnapshot.provenance
pub data Provenance : Type 0 where
  seeded manual github_import : Provenance

-- AssignmentSnapshot; `github_provenance` is its JSON.
pub record Snapshot : Type 0 where
  pub id : String
  pub snapshot_sha256 : String
  pub provenance : Provenance
  pub github_provenance : Option String
  pub created_at : Time
  pub spec : AssignmentSpec

-- The tables assignments, whose columns are those of the document, and assignment_access.
pub record Tables : Type 0 where
  pub assignments : List Snapshot
  pub access : List (String × String)

-- GLOBAL_TENANT
abbrev pub global_tenant : String
global_tenant = "*"

abbrev pub has_digest : String → Snapshot → Bool
has_digest digest s = s.snapshot_sha256 == digest

abbrev pub has_id : String → Snapshot → Bool
has_id id s = s.id == id

abbrev pub is_grant : (assignment_id tenant_id : String) → String × String → Bool
is_grant assignment_id tenant_id g = g.0 == assignment_id && g.1 == tenant_id

unfoldable pub has_access : (assignment_id tenant_id : String) → Tables → Bool
has_access assignment_id tenant_id t = any (is_grant assignment_id tenant_id) t.access

-- INSERT OR IGNORE INTO assignment_access
unfoldable pub grant : (assignment_id tenant_id : String) → Tables → Tables
unfolding has_access
grant assignment_id tenant_id t =
    if has_access assignment_id tenant_id t
    then t
    else record t { access = (assignment_id, tenant_id) ∷ t.access }

abbrev pub is_seeded : Provenance → Bool
is_seeded Provenance.seeded = true
is_seeded Provenance.manual = false
is_seeded Provenance.github_import = false

-- UPDATE assignments SET ... WHERE id = ?
unfoldable pub replace_row : Snapshot → List Snapshot → List Snapshot
replace_row s rows = map (λ r. if r.id == s.id then s else r) rows

-- What follows the two queries, by the rows that they find. The insertion of a new row's grant is
-- INSERT and not INSERT OR IGNORE: no grant is of a row that is not stored (IsGranted of
-- Assignments/Private), so that the two are the same.
unfoldable pub store_new :
    Snapshot → (tenant_id : String) → Option Snapshot → St Tables (Snapshot × Bool)
unfolding replace_row grant
store_new s tenant_id none t =
    (ok (s, true), grant s.id tenant_id (record t { assignments = s ∷ t.assignments }))
store_new s tenant_id (some stored) t =
    if not (is_seeded stored.provenance) || not (is_seeded s.provenance)
    then (raised (value_error "Assignment ID collision for an immutable manual snapshot"), t)
    else (
      ok (s, false),
      grant s.id tenant_id (record t { assignments = replace_row s t.assignments }),
    )

unfoldable pub store_snapshot :
    Snapshot → (tenant_id : String) → Option Snapshot → St Tables (Snapshot × Bool)
unfolding store_new grant
store_snapshot s tenant_id (some stored) t = (ok (stored, false), grant stored.id tenant_id t)
store_snapshot s tenant_id none t = store_new s tenant_id (find (has_id s.id) t.assignments) t

unfoldable pub create_assignment : Snapshot → (tenant_id : String) → St Tables (Snapshot × Bool)
unfolding store_snapshot
create_assignment s tenant_id t =
    store_snapshot s tenant_id (find (has_digest s.snapshot_sha256) t.assignments) t

-- The join: a row of the assignment and a grant to the tenant or to all.
unfoldable pub get_assignment : (assignment_id tenant_id : String) → Tables → Option Snapshot
unfolding has_access
get_assignment assignment_id tenant_id t =
    if has_access assignment_id tenant_id t || has_access assignment_id global_tenant t
    then find (has_id assignment_id) t.assignments
    else none

-- The newest first.
unfoldable pub list_assignments : (tenant_id : String) → Tables → List Snapshot
unfolding has_access
list_assignments tenant_id t =
    sort_by (λ a b. ltb b.created_at a.created_at)
      (filter (λ a. has_access a.id tenant_id t || has_access a.id global_tenant t) t.assignments)

-- What the service is given: `datetime.now(UTC)`, the digest of a specification without its
-- identifier, `validate_source`, the sandbox, and the text of an exception.
pub record Tools : Type 0 where
  pub now : Time
  pub snapshot_sha256 : AssignmentSpec → String
  pub validate_source : (source entrypoint : String) → Result (Unit {0})
  pub run_suite : ProgramVariant → (entrypoint : String) → List TestCase → Result SuiteExecution
  pub is_rejection : Exn → Bool
  pub message : Exn → String
  pub shown : ℕ → String

module _ (tools : Tools) where
  open tools use {now, snapshot_sha256, validate_source, run_suite, is_rejection, message, shown}

  abbrev pub found : (assignment_id : String) → Option Snapshot → Result Snapshot
  found assignment_id none = raised (key_error assignment_id)
  found assignment_id (some s) = ok s

  unfoldable pub require : (assignment_id tenant_id : String) → St Tables Snapshot
  unfolding get_assignment
  require assignment_id tenant_id t =
      (found assignment_id (get_assignment assignment_id tenant_id t), t)

  unfoldable pub seed : AssignmentSpec → St Tables Snapshot
  unfolding create_assignment
  seed spec =
      create_assignment
        (record {
          id = spec.id;
          snapshot_sha256 = snapshot_sha256 spec;
          provenance = Provenance.seeded;
          github_provenance = none;
          created_at = now;
          spec = spec;
        })
        global_tenant
      >>= λ r. pure r.0

  unfoldable pub rejected : ProgramVariant → Result (Unit {0}) → Result (Unit {0})
  rejected p (ok u) = ok tt
  rejected p (raised x) =
      if is_rejection x then raised (value_error (p.title ++ₛ ": " ++ₛ message x)) else raised x

  unfoldable pub validate_all : (entrypoint : String) → List ProgramVariant → Result (Unit {0})
  unfolding rejected
  validate_all entrypoint [] = ok tt
  validate_all entrypoint (p ∷ ps) =
      let rest = validate_all entrypoint ps in
      elim (rejected p (validate_source p.source entrypoint)) [ ok u ↦ rest | raised x ↦ raised x ]

  -- execution.error or f"failed {execution.failed} instructor tests"
  abbrev pub detail_of : SuiteExecution → Option String → String
  detail_of e none = "failed " ++ₛ shown e.failed ++ₛ " instructor tests"
  detail_of e (some t) = if t == "" then "failed " ++ₛ shown e.failed ++ₛ " instructor tests" else t

  unfoldable pub passed_all : ProgramVariant → Result SuiteExecution → Result (Unit {0})
  passed_all p (raised x) = raised x
  passed_all p (ok e) =
      if all_passed e
      then ok tt
      else raised (value_error ("accepted control '" ++ₛ p.title ++ₛ "' " ++ₛ detail_of e e.error))

  unfoldable pub run_controls :
      (entrypoint : String) → List TestCase → List ProgramVariant → Result (Unit {0})
  unfolding passed_all
  run_controls entrypoint tests [] = ok tt
  run_controls entrypoint tests (p ∷ ps) =
      let rest = run_controls entrypoint tests ps in
      elim (passed_all p (run_suite p entrypoint tests)) [ ok u ↦ rest | raised x ↦ raised x ]

  -- _preflight
  unfoldable pub preflight : AssignmentSpec → St Tables Unit
  unfolding all_distinct validate_all run_controls
  preflight a =
      if all_distinct (map (λ p. p.source) a.accepted_solutions)
      then (lift (validate_all a.entrypoint (a.accepted_solutions ++ a.mutants)) >>= λ _.
          lift (run_controls a.entrypoint a.instructor_tests a.accepted_solutions))
      else raise (value_error "reference and accepted controls must have distinct source code")

  -- The snapshot that create stores: its identifier is the start of its digest.
  abbrev pub snapshot_of :
      AssignmentSpec → Provenance → (github_provenance : Option String) → Snapshot
  snapshot_of a provenance github_provenance =
      let digest = snapshot_sha256 a in
      let assignment_id = "asg_" ++ₛ take_chars 16 digest in
      record {
        id = assignment_id;
        snapshot_sha256 = digest;
        provenance = provenance;
        github_provenance = github_provenance;
        created_at = now;
        spec = record a { id = assignment_id };
      }

  -- What follows the preflight.
  abbrev pub store :
      AssignmentSpec
      → (tenant_id : String) → Provenance
      → (github_provenance : Option String) → Unit {0}
      → St Tables (Snapshot × Bool)
  store a tenant_id provenance github_provenance u =
      create_assignment (snapshot_of a provenance github_provenance) tenant_id

  -- create, below _build_spec
  unfoldable pub create :
      AssignmentSpec
      → (tenant_id : String) → Provenance
      → (github_provenance : Option String) → St Tables (Snapshot × Bool)
  unfolding preflight create_assignment
  create a tenant_id provenance github_provenance =
      preflight a >>= store a tenant_id provenance github_provenance
