-- ===== src/Examples/Destinations.antt =====
-- The theorems on the destinations, with a repository that does not hold the file yet.
use course_fuzz.Prelude.{
  ℕ, String, true, false, none, some, List, [], ◌∷◌, Elem, ◌==◌, string_eq, nat_beq, if◌then◌else◌,
  ◌≡◌, refl, ◌⊎◌, inl, inr,
}
use text.Mathlib.Text.{starts_with}
use course_fuzz.Prelude.Text.{◌++ₛ◌}
use course_fuzz.Prelude.Result.{ok}
use course_fuzz.Prelude.State.{◌>>=◌}
use course_fuzz.Models.{CandidatePatch, Kind, ActionReceipt}
use course_fuzz.Runs.{CiState}
use course_fuzz.Destinations.{
  given, require_allowed_repository, repository_in_scope, request_json, fetch_token, attempt, send,
  Response, Remote, Conn, CheckRun,
}
use course_fuzz.Destinations.Github
use course_fuzz.Destinations.Github.{Bound, bound_target, branch_request, get_request}
use course_fuzz.Destinations.Github.Requests.{IsAllowed, apply-IsAllowed}
use course_fuzz.Destinations.Github.Receipt.{Receipted, apply-Receipted, Answered}
use course_fuzz.Destinations.Github.Checks.{Summarises, check_runs-Summarises}
use course_fuzz.Destinations.Coordinator
use course_fuzz.Destinations.Coordinator.{Files, Place}
use course_fuzz.Destinations.Coordinator.Contained.{IsContained, apply-IsContained}
use course_fuzz.Examples.Actions.{candidate}

abbrev pub unit_check : CheckRun
unit_check = record { html_url = some "https://ci/1"; completed = true; conclusion = "success" }

abbrev pub lint_check : CheckRun
lint_check = record { html_url = none; completed = true; conclusion = "timed_out" }

-- The answer with a status; every expression of its JSON can be read.
abbrev pub answer : ℕ → Response
answer status = record {
  status_code = status;
  text = "";
  object_sha = ok "base";
  content = ok "def test_it(): pass";
  sha = ok "blob";
  written_commit = ok "c0ffee";
  pull = ok (record { html_url = ok "https://pull/7"; number = ok 7 });
  pulls = ok [];
  check_runs = ok (unit_check ∷ lint_check ∷ []);
  retry_after = ok 200;
}

-- The fourth call is the first read of the file, which is not there yet.
abbrev pub remote : Remote
remote = record {
  request = λ n r token.
      ok (answer (if nat_beq n 3 then 404 else if r.method == "POST" then 201 else 200));
  token_for = λ n repository tenant_id. ok (some "token");
  credentials_available = true;
  is_public_api = true;
  mode = "static";
  allows = λ repository tenant_id. true;
  allowed_repositories = "org/course" ∷ [];
  lower = λ t. t;
  repr = λ t. t;
  quote = λ t. t;
  encode = λ t. t;
  sha256_hex = λ t. "digest";
  b64encode = λ t. t;
  b64decode = λ t. ok t;
  shown_inputs = λ c. "[0]";
  shown_expected = λ c. "0";
  shown_number = λ n. "1";
}

abbrev pub conn : Conn
conn = record { calls = 0; sent = [] }

abbrev pub published : CandidatePatch
published = record candidate {
  pytest_source = "def test_it(): pass";
  target = record {
    kind = Kind.github_pull_request;
    path = "tests/test_it.py";
    repository = some "org/course";
    base_branch = some "main";
    base_commit_sha = some "base";
    head_branch = some "coursefuzz/run_1-1";
  };
}

abbrev pub bound : Bound
bound = record {
  repository = "org/course";
  base_branch = "main";
  base_commit_sha = "base";
  head_branch = "coursefuzz/run_1-1";
}

abbrev pub pull_receipt : ActionReceipt
pull_receipt = record {
  kind = Kind.github_pull_request;
  path = "tests/test_it.py";
  artifact_sha256 = "digest";
  read_back_verified = true;
  external_url = some "https://pull/7";
  repository = some "org/course";
  base_commit_sha = some "base";
  commit_sha = some "c0ffee";
  pull_request_number = some 7;
  external_ci_started_at = none;
  external_ci_url = none;
  external_ci_conclusion = none;
  external_ci_completed_at = none;
  external_ci_verified = false;
}

apply-Receipted_example :
    (b : Bound) × (bound_target published.target ≡ some b)
    × Receipted remote published "alice" b (record { receipt = pull_receipt; local_path = none })
unfolding Github.apply Github.apply_bound bound_target Github.bound_of given
    require_allowed_repository repository_in_scope Github.publish Github.ensure_branch request_json
    fetch_token attempt send Github.write_file Github.write_over Github.put_file Github.open_pull
    Github.pull_request Github.pull_request_body Github.owner_of Github.write_payload
    Github.first_pull Github.read_back Github.receipt_of ◌>>=◌
apply-Receipted_example =
    apply-Receipted remote published "alice" conn
      (record { receipt = pull_receipt; local_path = none }) refl

apply-IsAllowed_example :
    Elem (branch_request remote published bound "alice") []
    ⊎ IsAllowed remote published "alice" (branch_request remote published bound "alice")
unfolding Github.apply Github.apply_bound bound_target Github.bound_of given
    require_allowed_repository repository_in_scope Github.publish Github.ensure_branch request_json
    fetch_token attempt send Github.write_file Github.write_over Github.put_file Github.open_pull
    Github.pull_request Github.pull_request_body Github.owner_of Github.write_payload
    Github.first_pull Github.read_back Github.receipt_of ◌>>=◌
apply-IsAllowed_example =
    apply-IsAllowed remote published "alice" conn (branch_request remote published bound "alice")
      (inr (inr (inr (inr (inl refl)))))

check_runs-Summarises_example :
    (repository_in_scope remote "org/course" "alice" ≡ true)
    × ((response : Response) × (runs : List CheckRun) × Answered remote
          (Github.checks_request remote "org/course" "c0ffee" "alice")
          response
        × (response.check_runs ≡ ok runs)
        × Summarises CiState.failure (some "timed_out") runs)
unfolding Github.check_runs Github.checks_request require_allowed_repository repository_in_scope
    request_json fetch_token attempt send Github.aggregate Github.judge Github.first_url given ◌>>=◌
check_runs-Summarises_example =
    check_runs-Summarises remote "org/course" "c0ffee" "alice" conn
      (record { state = CiState.failure; conclusion = some "timed_out"; url = some "https://ci/1" })
      refl

abbrev pub files : Files
files = record {
  artifact_dir = "artifacts";
  resolve = λ directory path. directory ++ₛ "/" ++ₛ path;
  is_relative_to = λ path directory. starts_with path directory;
  parent = λ path. path;
  mkdir = λ n directory. ok tt;
  write_bytes = λ n path bytes. ok tt;
  read_bytes = λ n path. ok "";
  decode = λ bytes. ok bytes;
}

abbrev pub place : Place
place = record { calls = 0; written = []; made = []; conn = conn }

apply-IsContained_example :
    Elem {A = String × String} ("artifacts/run_1/p.py", "") []
    ⊎ IsContained files remote "run_1" candidate ("artifacts/run_1/p.py", "")
unfolding Coordinator.apply Coordinator.apply_at Coordinator.artifact_path Coordinator.run_dir
    Coordinator.write_local Coordinator.make_directory Coordinator.write_artifact
    Coordinator.read_artifact Coordinator.local_receipt ◌>>=◌
apply-IsContained_example =
    apply-IsContained files remote "run_1" candidate "alice" place ("artifacts/run_1/p.py", "")
      (inl refl)

abbrev pub local_receipt : ActionReceipt
local_receipt = record {
  kind = Kind.local_artifact;
  path = "p.py";
  artifact_sha256 = "digest";
  read_back_verified = true;
  external_url = none;
  repository = none;
  base_commit_sha = none;
  commit_sha = none;
  pull_request_number = none;
  external_ci_started_at = none;
  external_ci_url = none;
  external_ci_conclusion = none;
  external_ci_completed_at = none;
  external_ci_verified = false;
}
