-- ===== src/Destinations/Github.antt =====
-- GitHubDestinationAdapter (src/coursefuzz/adapters/destinations.py): the branch, the file and the
-- draft pull request of an approved candidate, and the target repository's own checks.
pub mod Requests
pub mod Receipt
pub mod Checks
use Prim.Native.String.{slice, len}
use Prim.Native.String.{find as find_text}
use text.Mathlib.Text.{starts_with}
use course_fuzz.Prelude.{
  ℕ, String, Bool, true, false, Option, none, some, is_some, List, [], ◌∷◌, map, all, any, find,
  length, contains, ◌==◌, string_eq, nat_eq, nat_beq, not, if◌then◌else◌,
}
use course_fuzz.Prelude.Text.{◌++ₛ◌, take_chars}
use course_fuzz.Prelude.Result.{Result, ok, raised, runtime_error}
use course_fuzz.Prelude.State.{pure, raise, lift, ◌>>=◌}
use course_fuzz.Models.{CandidatePatch, PatchTarget, ActionReceipt, Kind}
use course_fuzz.Engine.{Env}
use course_fuzz.Engine.Patch.{bind_candidate_payload}
use course_fuzz.Runs.{AppliedDestination, CheckRunStatus, CiState}
use course_fuzz.Destinations.{
  Body, Request, CheckRun, PullData, Response, Remote, Http, given, request_json, available,
  require_allowed_repository,
}

-- id.removeprefix("patch-")[:8]
unfoldable pub branch_suffix : String → String
branch_suffix id = take_chars 8 (if starts_with id "patch-" then slice id 6 (len id) else id)

-- repository.split("/", 1)[0]
unfoldable pub owner_of : String → String
owner_of repository = slice repository 0 (find_text repository "/")

-- The target of a candidate that `prepare` has bound.
pub record Bound : Type 0 where
  pub repository : String
  pub base_branch : String
  pub base_commit_sha : String
  pub head_branch : String

unfoldable pub bound_of :
    Kind → (repository base_branch base_commit_sha head_branch : Option String) → Option Bound
bound_of Kind.github_pull_request (some r) (some b) (some s) (some h) =
    some (record { repository = r; base_branch = b; base_commit_sha = s; head_branch = h })
bound_of _ _ _ _ _ = none

-- `none` where the guard of `apply` raises.
unfoldable pub bound_target : PatchTarget → Option Bound
unfolding given bound_of
bound_target t =
    bound_of t.kind (given t.repository) (given t.base_branch) (given t.base_commit_sha)
      (given t.head_branch)

-- The request of `_request` with its defaults.
abbrev pub get_request : (url repository tenant_id : String) → List (String × String) → Request
get_request url repository tenant_id params = record {
  method = "GET";
  url = url;
  repository = repository;
  tenant_id = tenant_id;
  params = params;
  json = Body.no_body;
  allowed = 200 ∷ [];
}

module _ (remote : Remote) where
  open remote use {
    quote, encode, sha256_hex, b64encode, b64decode, shown_inputs, shown_expected, shown_number,
  }

  -- _write_payload
  unfoldable pub write_payload : CandidatePatch → (existing_sha : Option String) → Body
  unfolding given
  write_payload c existing_sha =
      Body.file_write ("Add CourseFuzz regression " ++ₛ c.id) (b64encode (encode c.pytest_source))
        c.target.head_branch (given existing_sha)

  -- _pull_request_body
  unfoldable pub pull_request_body : CandidatePatch → String
  pull_request_body c =
      "## Verified assessment repair\n\n"
      ++ₛ "- Counterexample: `"
      ++ₛ shown_inputs c
      ++ₛ "` -> `"
      ++ₛ shown_expected c
      ++ₛ "`\n"
      ++ₛ "- Killed misconception programs: "
      ++ₛ shown_number (length c.target_mutants)
      ++ₛ "\n"
      ++ₛ "- Approved payload SHA-256: `"
      ++ₛ c.payload_sha256
      ++ₛ "`\n"
      ++ₛ "- Correctness source: independent execution, not model self-evaluation\n\n"
      ++ₛ "This draft PR was created only after exact-payload approval. CourseFuzz read the "
      ++ₛ "destination bytes back before reporting verification."

  -- What `prepare` does for a repository and a base branch that are given.
  pub prepare_in :
      Env
      → (run_id : String) → CandidatePatch
      → (tenant_id : String) → Option String
      → Option String
      → Http CandidatePatch
  unfolding require_allowed_repository request_json branch_suffix bind_candidate_payload
  prepare_in env run_id c tenant_id (some repository) (some base_branch) =
      require_allowed_repository remote repository tenant_id >>= λ _.
      request_json remote (
        get_request ("/repos/" ++ₛ repository ++ₛ "/git/ref/heads/" ++ₛ quote base_branch)
          repository tenant_id [])
      >>= λ response. lift response.object_sha >>= λ base_commit_sha.
          let head_branch = "coursefuzz/" ++ₛ run_id ++ₛ "-" ++ₛ branch_suffix c.id in
          let target = record c.target {
            base_commit_sha = some base_commit_sha;
            head_branch = some head_branch;
          } in
          pure (bind_candidate_payload env (record c { target = target }))
  prepare_in env run_id c tenant_id _ _ =
      raise (runtime_error "GitHub destination is missing repository or base branch")

  prepare_kind :
      Env → Kind → (run_id : String) → CandidatePatch → (tenant_id : String) → Http CandidatePatch
  unfolding prepare_in available given
  prepare_kind env Kind.local_artifact run_id c tenant_id = pure c
  prepare_kind env Kind.github_pull_request run_id c tenant_id =
      if available remote
      then prepare_in env run_id c tenant_id (given c.target.repository)
          (given c.target.base_branch)
      else raise
          (runtime_error "GitHub destination requires configured credentials and repository scope")

  unfoldable pub prepare :
      Env → (run_id : String) → CandidatePatch → (tenant_id : String) → Http CandidatePatch
  unfolding prepare_kind
  prepare env run_id c tenant_id = prepare_kind env c.target.kind run_id c tenant_id

  module _ (c : CandidatePatch) (b : Bound) (tenant_id : String) where
    abbrev pub branch_request : Request
    branch_request = record {
      method = "POST";
      url = "/repos/" ++ₛ b.repository ++ₛ "/git/refs";
      repository = b.repository;
      tenant_id = tenant_id;
      params = [];
      json = Body.new_ref ("refs/heads/" ++ₛ b.head_branch) b.base_commit_sha;
      allowed = 201 ∷ 422 ∷ [];
    }

    abbrev pub head_request : Request
    head_request =
        get_request ("/repos/" ++ₛ b.repository ++ₛ "/git/ref/heads/" ++ₛ quote b.head_branch)
          b.repository tenant_id []

    abbrev pub file_url : String
    file_url = "/repos/" ++ₛ b.repository ++ₛ "/contents/" ++ₛ c.target.path

    abbrev pub file_request : Request
    file_request = get_request file_url b.repository tenant_id (("ref", b.head_branch) ∷ [])

    abbrev pub write_request : Body → Request
    write_request payload = record {
      method = "PUT";
      url = file_url;
      repository = b.repository;
      tenant_id = tenant_id;
      params = [];
      json = payload;
      allowed = 200 ∷ 201 ∷ [];
    }

    unfoldable pub pull_request : Request
    unfolding pull_request_body
    pull_request = record {
      method = "POST";
      url = "/repos/" ++ₛ b.repository ++ₛ "/pulls";
      repository = b.repository;
      tenant_id = tenant_id;
      params = [];
      json =
          Body.new_pull ("CourseFuzz: add verified regression for " ++ₛ c.test.label)
            (pull_request_body c) b.head_branch b.base_branch true;
      allowed = 201 ∷ 422 ∷ [];
    }

    unfoldable pub open_pulls_request : Request
    unfolding owner_of
    open_pulls_request =
        get_request ("/repos/" ++ₛ b.repository ++ₛ "/pulls") b.repository tenant_id (
          ("state", "open")
          ∷ ("head", owner_of b.repository ++ₛ ":" ++ₛ b.head_branch)
          ∷ ("base", b.base_branch)
          ∷ [])

    unfoldable pub ensure_branch : Http Unit
    unfolding request_json
    ensure_branch = request_json remote branch_request >>= λ response.
        if nat_beq response.status_code 422
        then (request_json remote head_request >>= λ _. pure tt)
        else pure tt

    -- The PUT and the commit that it made.
    unfoldable pub put_file : (existing_sha : Option String) → Http (Option String)
    unfolding request_json write_payload
    put_file existing_sha =
        request_json remote (write_request (write_payload c existing_sha)) >>= λ response.
        lift response.written_commit >>= λ commit_sha. pure (some commit_sha)

    -- What follows the first read of the file.
    unfoldable pub write_over : Response → Http (Option String)
    unfolding put_file
    write_over existing =
        if nat_beq existing.status_code 200
        then (lift existing.content >>= λ content. lift (b64decode content) >>= λ current_bytes.
            if current_bytes == encode c.pytest_source
            then pure none
            else (lift existing.sha >>= λ sha. put_file (some sha)))
        else put_file none

    unfoldable pub write_file : Http (Option String)
    unfolding request_json write_over
    write_file =
        request_json remote (record file_request { allowed = 200 ∷ 404 ∷ [] }) >>= write_over

    unfoldable pub first_pull : List PullData → Result PullData
    first_pull [] =
        raised (runtime_error "GitHub rejected the pull request and no retryable PR exists")
    first_pull (p ∷ ps) = ok p

    unfoldable pub open_pull : Http PullData
    unfolding request_json first_pull pull_request open_pulls_request
    open_pull = request_json remote pull_request >>= λ response.
        if nat_beq response.status_code 422
        then (request_json remote open_pulls_request >>= λ found.
            lift found.pulls >>= λ pulls. lift (first_pull pulls))
        else lift response.pull

    -- The read-back; its result is the bytes.
    unfoldable pub read_back : Http String
    unfolding request_json
    read_back = request_json remote file_request >>= λ response.
        lift response.content >>= λ content. lift (b64decode content) >>= λ read_back_bytes.
        if read_back_bytes == encode c.pytest_source
        then pure read_back_bytes
        else raise (runtime_error "GitHub destination read-back did not match the approved payload")

    unfoldable pub receipt_of :
        (commit_sha : Option String)
        → (html_url : String) → (number : ℕ) → (bytes : String) → AppliedDestination
    receipt_of commit_sha html_url number bytes = record {
      receipt = record {
        kind = Kind.github_pull_request;
        path = c.target.path;
        artifact_sha256 = sha256_hex bytes;
        read_back_verified = true;
        external_url = some html_url;
        repository = some b.repository;
        base_commit_sha = some b.base_commit_sha;
        commit_sha = commit_sha;
        pull_request_number = some number;
        external_ci_started_at = none;
        external_ci_url = none;
        external_ci_conclusion = none;
        external_ci_completed_at = none;
        external_ci_verified = false;
      };
      local_path = none;
    }

    -- `apply` below its guards.
    unfoldable pub publish : Http AppliedDestination
    unfolding ensure_branch write_file open_pull read_back receipt_of
    publish = ensure_branch >>= λ _. write_file >>= λ commit_sha. open_pull >>= λ p.
        read_back >>= λ bytes. lift p.html_url >>= λ html_url.
        lift p.number >>= λ number. pure (receipt_of commit_sha html_url number bytes)

  unfoldable pub apply_bound :
      CandidatePatch → (tenant_id : String) → Option Bound → Http AppliedDestination
  unfolding require_allowed_repository publish
  apply_bound c tenant_id none =
      raise (runtime_error "GitHub candidate is not bound to an exact destination")
  apply_bound c tenant_id (some b) =
      require_allowed_repository remote b.repository tenant_id >>= λ _. publish c b tenant_id

  unfoldable pub apply : CandidatePatch → (tenant_id : String) → Http AppliedDestination
  unfolding apply_bound bound_target
  apply c tenant_id = apply_bound c tenant_id (bound_target c.target)

-- PASSING_CONCLUSIONS
abbrev pub passing_conclusions : List String
passing_conclusions = "success" ∷ "neutral" ∷ "skipped" ∷ []

abbrev pub is_passing : String → Bool
is_passing conclusion = contains conclusion passing_conclusions

-- next((run.get("html_url") for run in runs if run.get("html_url")), None)
unfoldable pub first_url : List CheckRun → Option String
unfolding given
first_url [] = none
first_url (r ∷ rs) =
    let rest = first_url rs in if is_some (given r.html_url) then r.html_url else rest

abbrev pub conclusions : List CheckRun → List String
conclusions runs = map (λ r. r.conclusion) runs

-- What follows the guard on an empty list, by the outcomes of its two tests.
unfoldable pub judge : (unfinished passing : Bool) → List CheckRun → CheckRunStatus
unfolding first_url
judge true passing runs = record {
  state = CiState.pending;
  conclusion = none;
  url = first_url runs;
}
judge false true runs = record {
  state = CiState.success;
  conclusion = some "success";
  url = first_url runs;
}
judge false false runs = record {
  state = CiState.failure;
  conclusion = find (λ t. not (is_passing t)) (conclusions runs);
  url = first_url runs;
}

unfoldable pub aggregate : List CheckRun → CheckRunStatus
unfolding judge
aggregate [] = record { state = CiState.pending; conclusion = none; url = none }
aggregate (r ∷ rs) =
    judge (any (λ s. not s.completed) (r ∷ rs)) (all is_passing (conclusions (r ∷ rs))) (r ∷ rs)

unfoldable pub checks_request : Remote → (repository commit_sha tenant_id : String) → Request
checks_request remote repository commit_sha tenant_id =
    get_request
      ("/repos/" ++ₛ repository ++ₛ "/commits/" ++ₛ remote.quote commit_sha ++ₛ "/check-runs")
      repository tenant_id []

unfoldable pub check_runs :
    Remote → (repository commit_sha tenant_id : String) → Http CheckRunStatus
unfolding require_allowed_repository request_json aggregate checks_request
check_runs remote repository commit_sha tenant_id =
    require_allowed_repository remote repository tenant_id >>= λ _.
    request_json remote (checks_request remote repository commit_sha tenant_id) >>= λ response.
    lift response.check_runs >>= λ runs. pure (aggregate runs)
