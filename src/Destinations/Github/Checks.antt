-- ===== src/Destinations/Github/Checks.antt =====
-- The aggregate of a commit's check runs (GitHubDestinationAdapter.check_runs,
-- src/coursefuzz/adapters/destinations.py).
use mathlib.Core.Path.{subst}
use course_fuzz.Prelude.{
  String, Bool, true, false, not, Option, none, some, List, [], ◌∷◌, all, any, find, All, All-mem,
  All-intro, Elem, Elem-map, map-Elem, find-Elem, all_iff, string_eq, Elem-any, ◌≡◌, ◌≢◌, ◌⊎◌, inl,
  inr, refl, sym, ap, ◌∙◌, arith, Bool-cases, Option-cases,
}
use course_fuzz.Prelude.Result.{ok, ok-injective}
use course_fuzz.Prelude.State.{lift, >>=-returned}
use course_fuzz.Destinations.Github.Receipt.{Answered, request_json-Answered}
use course_fuzz.Runs.{CheckRunStatus, CiState}
use course_fuzz.Destinations.{
  CheckRun, Response, Remote, Conn, request_json, repository_in_scope, require_allowed_repository,
}
use course_fuzz.Destinations.Github.{
  aggregate, judge, is_passing, conclusions, check_runs, checks_request,
}

abbrev Unfinished : List CheckRun → Type 0
Unfinished runs = (r : CheckRun) × Elem r runs × (r.completed ≡ false)

abbrev AllCompleted : List CheckRun → Type 0
AllCompleted runs = All (λ r. r.completed ≡ true) runs

abbrev AllPassing : List CheckRun → Type 0
AllPassing runs = All (λ r. is_passing r.conclusion ≡ true) runs

-- What a status means for the check runs that it summarises.
unfoldable pub Summarises : CiState → Option String → List CheckRun → Type 0
Summarises CiState.pending conclusion runs = (runs ≡ []) ⊎ Unfinished runs
Summarises CiState.success conclusion runs = (runs ≢ []) × AllCompleted runs × AllPassing runs
Summarises CiState.failure conclusion runs =
    AllCompleted runs
    × ((r : CheckRun) × Elem r runs
        × (is_passing r.conclusion ≡ false)
        × (conclusion ≡ some r.conclusion))

all_completed : (runs : List CheckRun) → any (λ s. not s.completed) runs ≡ false → AllCompleted runs
all_completed [] h = tt
all_completed (r ∷ rs) h = elim (Bool-cases r.completed) [
  | inl e ↦ (e, all_completed rs (rw e at h))
  | inr e ↦ cc (rw e at h)
]

all_passing : (runs : List CheckRun) → all is_passing (conclusions runs) ≡ true → AllPassing runs
all_passing runs h = All-intro _ runs λ r m.
    All-mem (λ t. is_passing t ≡ true) r.conclusion (conclusions runs)
      ((all_iff is_passing (conclusions runs)).0 h) (map-Elem (λ s. s.conclusion) runs r m)

failing_exists :
    (ts : List String) → all is_passing ts ≡ false → find (λ t. not (is_passing t)) ts ≢ none
failing_exists [] h k = cc
failing_exists (t ∷ ts) h k = elim (Bool-cases (is_passing t)) [
  | inl e ↦ failing_exists ts (rw e at h) (rw e at k)
  | inr e ↦ cc (rw e at k)
]

first_failing :
    (runs : List CheckRun)
    → all is_passing (conclusions runs) ≡ false
    → (r : CheckRun) × Elem r runs
      × (is_passing r.conclusion ≡ false)
      × (find (λ t. not (is_passing t)) (conclusions runs) ≡ some r.conclusion)
first_failing runs h = elim (Option-cases (find (λ t. not (is_passing t)) (conclusions runs))) [
  | inl e ↦ absurd (failing_exists (conclusions runs) h e)
  | inr (t, e) ↦
      let f = find-Elem (λ t. not (is_passing t)) (conclusions runs) t e in
      let m = Elem-map (λ s. s.conclusion) runs t f.0 in
      let failing : is_passing t ≡ false = ground (arith, f.1) in
      (m.0, m.1, subst (λ u. is_passing u ≡ false) (sym m.2) failing, e ∙ ap some (sym m.2))
]

judge-Summarises :
    (unfinished passing : Bool) (runs : List CheckRun)
    → runs ≢ []
    → any (λ s. not s.completed) runs ≡ unfinished
    → all is_passing (conclusions runs) ≡ passing
    → Summarises
        (judge unfinished passing runs).state
        (judge unfinished passing runs).conclusion
        runs
unfolding judge Summarises
judge-Summarises true passing runs n h k =
    let r = Elem-any (λ s. not s.completed) runs h in inr (r.0, r.1, ground (arith, r.2))
judge-Summarises false true runs n h k = (n, all_completed runs h, all_passing runs k)
judge-Summarises false false runs n h k = (all_completed runs h, first_failing runs k)

aggregate-Summarises :
    (runs : List CheckRun) → Summarises (aggregate runs).state (aggregate runs).conclusion runs
unfolding aggregate Summarises
aggregate-Summarises [] = inl refl
aggregate-Summarises (r ∷ rs) =
    judge-Summarises (any (λ s. not s.completed) (r ∷ rs)) (all is_passing (conclusions (r ∷ rs)))
      (r ∷ rs) (λ e. cc) refl refl

in_scope-returned :
    (remote : Remote) (repository tenant_id : String) (conn : Conn) {u : Unit {0}}
    → (require_allowed_repository remote repository tenant_id conn).0 ≡ ok u
    → repository_in_scope remote repository tenant_id ≡ true
unfolding require_allowed_repository
in_scope-returned remote repository tenant_id conn h =
    elim (Bool-cases (repository_in_scope remote repository tenant_id)) [
      | inl e ↦ e
      | inr e ↦ cc (rw e at h)
    ]

-- When `check_runs` returns, the repository is in the allowed scope, and its status tells of the
-- check runs that GitHub answered for the commit: pending when there are none or one is unfinished,
-- success when all are completed and passing, and failure when all are completed and the
-- conclusion that it names is that of one that does not pass.
pub check_runs-Summarises :
    (remote : Remote) (repository commit_sha tenant_id : String) (conn : Conn)
    (status : CheckRunStatus)
    → (check_runs remote repository commit_sha tenant_id conn).0 ≡ ok status
    → (repository_in_scope remote repository tenant_id ≡ true)
      × ((response : Response) × (runs : List CheckRun) × Answered remote
            (checks_request remote repository commit_sha tenant_id)
            response
          × (response.check_runs ≡ ok runs)
          × Summarises status.state status.conclusion runs)
unfolding check_runs checks_request
check_runs-Summarises remote repository commit_sha tenant_id conn status h =
    let s = >>=-returned (require_allowed_repository remote repository tenant_id) _ conn h in
    let u =
      >>=-returned (request_json remote (checks_request remote repository commit_sha tenant_id)) _ _
        s.2 in
    let v = >>=-returned (lift u.0.check_runs) _ _ u.2 in
    let k : aggregate v.0 ≡ status = ok-injective _ _ v.2 in
    (
      in_scope-returned remote repository tenant_id conn s.1,
      (
        u.0,
        v.0,
        request_json-Answered remote _ _ u.0 u.1,
        v.1,
        subst (λ t. Summarises t.state t.conclusion v.0) k (aggregate-Summarises v.0),
      ),
    )
