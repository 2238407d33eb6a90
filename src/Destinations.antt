-- ===== src/Destinations.antt =====
-- The destinations (src/coursefuzz/adapters/destinations.py): what they are given, and the requests
-- that they send. Bytes are a text with a character for each byte.
pub mod Github
pub mod Coordinator
pub mod Delivered
use course_fuzz.Prelude.{
  ℕ, zero, suc, String, Bool, true, false, ◌&&◌, ◌||◌, Option, none, some, List, [], ◌∷◌, contains,
  ◌==◌, string_eq, nat_eq, not, if◌then◌else◌,
}
use course_fuzz.Prelude.Text.{◌++ₛ◌, take_chars}
use course_fuzz.Prelude.Result.{Result, Exn, ok, raised, runtime_error}
use course_fuzz.Prelude.State.{St, pure, raise, lift, ◌>>=◌}
use course_fuzz.Models.{CandidatePatch}

-- The JSON that a request carries.
pub data Body : Type 0 where
  no_body : Body
  new_ref : (ref sha : String) → Body
  file_write : (message content : String) → (branch sha : Option String) → Body
  new_pull : (title body head base : String) → (draft : Bool) → Body

pub record Request : Type 0 where
  pub method : String
  pub url : String
  pub repository : String
  pub tenant_id : String
  pub params : List (String × String)
  pub json : Body
  pub allowed : List ℕ

-- One entry of "check_runs"; `conclusion` is its `str`.
pub record CheckRun : Type 0 where
  pub html_url : Option String
  pub completed : Bool
  pub conclusion : String

-- A pull request; a missing key or a number that is none raises where it is read.
pub record PullData : Type 0 where
  pub html_url : Result String
  pub number : Result ℕ

-- A response, with a field for each expression that the code reads of its JSON; a missing key or a
-- body that is no JSON raises there.
pub record Response : Type 0 where
  pub status_code : ℕ
  pub text : String
  pub object_sha : Result String
  pub content : Result String
  pub sha : Result String
  pub written_commit : Result String
  pub pull : Result PullData
  pub pulls : Result (List PullData)
  pub check_runs : Result (List CheckRun)
  -- `float(response.headers.get("Retry-After", "0.2"))` in milliseconds
  pub retry_after : Result ℕ

-- GitHub over HTTP and the credentials of the App; each call may be answered differently.
pub record Remote : Type 0 where
  pub request : ℕ → Request → (token : Option String) → Result Response
  pub token_for : ℕ → (repository tenant_id : String) → Result (Option String)
  pub credentials_available : Bool
  pub is_public_api : Bool
  pub mode : String
  pub allows : (repository tenant_id : String) → Bool
  pub allowed_repositories : List String
  -- `str.lower`, `repr`, `quote(text, safe="")`, `str.encode` and `hashlib.sha256(...).hexdigest()`
  pub lower : String → String
  pub repr : String → String
  pub quote : String → String
  pub encode : String → String
  pub sha256_hex : String → String
  -- `base64.b64encode(...).decode("ascii")` and `base64.b64decode`
  pub b64encode : String → String
  pub b64decode : String → Result String
  -- The inputs and the expected value of the test, and a number, as an f-string shows them
  pub shown_inputs : CandidatePatch → String
  pub shown_expected : CandidatePatch → String
  pub shown_number : ℕ → String

-- The calls made, and the requests sent, the last one first.
pub record Conn : Type 0 where
  pub calls : ℕ
  pub sent : List Request

abbrev pub Http : Type 0 → Type 0
Http A = St Conn A

-- A text that is given and not empty is a true value.
unfoldable pub given : Option String → Option String
given none = none
given (some t) = if t == "" then none else some t

abbrev is_nonempty : List String → Bool
is_nonempty [] = false
is_nonempty (x ∷ xs) = true

-- RETRYABLE_STATUSES
abbrev pub retryable_statuses : List ℕ
retryable_statuses = 429 ∷ 502 ∷ 503 ∷ 504 ∷ []

module _ (remote : Remote) where
  open remote use {
    request, token_for, credentials_available, is_public_api, mode, allows, allowed_repositories,
    lower, shown_number,
  }

  -- self.client.request
  unfoldable pub send : Request → Option String → Http Response
  send r token c = (request c.calls r token, record c { calls = suc c.calls; sent = r ∷ c.sent })

  -- self.credentials.token_for
  unfoldable pub fetch_token : (repository tenant_id : String) → Http (Option String)
  fetch_token repository tenant_id c =
      (token_for c.calls repository tenant_id, record c { calls = suc c.calls })

  unfoldable pub failure : Request → Response → Exn
  failure r response = runtime_error (
      "GitHub API "
      ++ₛ r.method
      ++ₛ " "
      ++ₛ r.url
      ++ₛ " failed with "
      ++ₛ shown_number response.status_code
      ++ₛ ": "
      ++ₛ take_chars 500 response.text)

  -- The loop over two attempts; `left` counts those that would follow.
  unfoldable pub attempt : Request → Option String → (left : ℕ) → Http Response
  unfolding send failure
  attempt r token zero = send r token >>= λ response.
      if contains response.status_code r.allowed then pure response else raise (failure r response)
  attempt r token (suc left) = send r token >>= λ response.
      if contains response.status_code r.allowed
      then pure response
      else if contains response.status_code retryable_statuses
      then (lift response.retry_after >>= λ _. attempt r token left)
      else raise (failure r response)

  unfoldable pub request_json : Request → Http Response
  unfolding fetch_token attempt
  request_json r = fetch_token r.repository r.tenant_id >>= λ token. attempt r token 1

  -- available
  unfoldable pub available : Bool
  available =
      (credentials_available || not is_public_api)
      && (is_nonempty allowed_repositories || mode == "github-app")

  unfoldable pub repository_in_scope : (repository tenant_id : String) → Bool
  repository_in_scope repository tenant_id =
      if contains (lower repository) allowed_repositories
      then true
      else mode == "github-app" && allows repository tenant_id

  unfoldable pub repository_available : (repository tenant_id : String) → Bool
  unfolding available repository_in_scope
  repository_available repository tenant_id =
      available && allows repository tenant_id && repository_in_scope repository tenant_id

  unfoldable pub require_allowed_repository : (repository tenant_id : String) → Http Unit
  require_allowed_repository repository tenant_id =
      if repository_in_scope repository tenant_id
      then pure tt
      else raise (
          runtime_error (
            "GitHub repository "
            ++ₛ remote.repr repository
            ++ₛ " is not in COURSEFUZZ_GITHUB_ALLOWED_REPOS"))
