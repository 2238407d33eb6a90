-- ===== src/Destinations/Github/Requests.antt =====
-- The requests that an apply sends (GitHubDestinationAdapter.apply,
-- src/coursefuzz/adapters/destinations.py).
use course_fuzz.Prelude.{
  ℕ, zero, suc, String, true, Option, none, some, Elem, contains, ◌==◌, string_eq, nat_eq, nat_beq,
  ◌≡◌, refl, ap, ◌⊎◌, inl, inr, Bool-cases,
}
use course_fuzz.Prelude.State.{
  ◌>>=◌, Relates, IsPreorder, Relates-pure, Relates-raise, Relates-lift, Relates-bind, Relates-test,
}
use course_fuzz.Models.{CandidatePatch, PatchTarget, Kind}
use course_fuzz.Prelude.Text.{◌++ₛ◌}
use course_fuzz.Destinations.{
  given, Body, Request, Response, Remote, Conn, retryable_statuses, send, fetch_token, attempt,
  request_json, repository_in_scope, require_allowed_repository,
}
use course_fuzz.Destinations.Github.{
  Bound, bound_of, bound_target, pull_request, write_payload, apply, open_pulls_request,
  ensure_branch, put_file, write_over, write_file, open_pull, read_back, publish, apply_bound,
}

-- The requests of the second connection that the first has not sent are of one sort.
abbrev Adds : (Request → Type 0) → Conn → Conn → Type 0
Adds P s t = (r : Request) → Elem r t.sent → Elem r s.sent ⊎ P r

Adds-IsPreorder : (P : Request → Type 0) → IsPreorder (Adds P)
Adds-IsPreorder P = record {
  reflexive = λ s r m. inl m;
  transitive = λ s t u h k r m. elim (k r m) [ inl n ↦ h r n | inr p ↦ inr p ];
}

module _ (remote : Remote) (P : Request → Type 0) where
  Relates-send :
      (r : Request) (token : Option String) → P r → Relates (Adds P) (send remote r token)
  unfolding send
  Relates-send r token p = record {
    relates = λ s q m. elim m [ inl e ↦ inr (rw e p) | inr n ↦ inl n ];
  }

  Relates-fetch_token :
      (repository tenant_id : String) → Relates (Adds P) (fetch_token remote repository tenant_id)
  unfolding fetch_token
  Relates-fetch_token repository tenant_id = record { relates = λ s q m. inl m }

  Relates-attempt :
      (r : Request) (token : Option String) (left : ℕ)
      → P r
      → Relates (Adds P) (attempt remote r token left)
  unfolding attempt
  Relates-attempt r token zero p =
      let o = Adds-IsPreorder P in
      Relates-bind (Adds P) o _ _ (Relates-send r token p) λ response.
        Relates-test (Adds P) (contains response.status_code r.allowed) _ _
          (Relates-pure (Adds P) o response) (Relates-raise (Adds P) o Response _)
  Relates-attempt r token (suc left) p =
      let o = Adds-IsPreorder P in
      Relates-bind (Adds P) o _ _ (Relates-send r token p) λ response.
        Relates-test (Adds P) (contains response.status_code r.allowed) _ _
          (Relates-pure (Adds P) o response)
          (Relates-test (Adds P) (contains response.status_code retryable_statuses) _ _
            (Relates-bind (Adds P) o _ _ (Relates-lift (Adds P) o response.retry_after)
              λ t. Relates-attempt r token left p)
            (Relates-raise (Adds P) o Response _))

  Relates-request_json : (r : Request) → P r → Relates (Adds P) (request_json remote r)
  unfolding request_json
  Relates-request_json r p =
      Relates-bind (Adds P) (Adds-IsPreorder P) _ _ (Relates-fetch_token r.repository r.tenant_id)
        λ token. Relates-attempt r token 1 p

-- What the apply of a candidate may ask of GitHub: reads of the head branch, the file and the pull
-- requests of the candidate's repository, and three writes there, none of which touches the base branch.
pub data Permitted (remote : Remote) (c : CandidatePatch) (b : Bound) (r : Request) : Type 0 where
  a_read :
      r.method ≡ "GET"
      → ((r.url ≡ "/repos/" ++ₛ b.repository ++ₛ "/git/ref/heads/" ++ₛ remote.quote b.head_branch)
          ⊎ ((r.url ≡ "/repos/" ++ₛ b.repository ++ₛ "/contents/" ++ₛ c.target.path)
              ⊎ (r.url ≡ "/repos/" ++ₛ b.repository ++ₛ "/pulls")))
      → r.json ≡ Body.no_body
      → Permitted remote c b r
  the_branch :
      r.method ≡ "POST"
      → r.url ≡ "/repos/" ++ₛ b.repository ++ₛ "/git/refs"
      → r.json ≡ Body.new_ref ("refs/heads/" ++ₛ b.head_branch) b.base_commit_sha
      → Permitted remote c b r
  the_file :
      r.method ≡ "PUT"
      → r.url ≡ "/repos/" ++ₛ b.repository ++ₛ "/contents/" ++ₛ c.target.path
      → (message : String) (sha : Option String)
      → r.json
        ≡ Body.file_write message
            (remote.b64encode (remote.encode c.pytest_source))
            (some b.head_branch)
            sha
      → Permitted remote c b r
  the_pull :
      r.method ≡ "POST"
      → r.url ≡ "/repos/" ++ₛ b.repository ++ₛ "/pulls"
      → (title body : String) → r.json ≡ Body.new_pull title body b.head_branch b.base_branch true
      → Permitted remote c b r

given-eq-some : (o : Option String) (t : String) → given o ≡ some t → o ≡ some t
unfolding given
given-eq-some none t h = cc
given-eq-some (some u) t h = elim (Bool-cases (u == "")) [
  | inl e ↦ cc (rw e at h)
  | inr e ↦ rw e at h
]

bound_of-head :
    (k : Kind) (r b s h : Option String) (bound : Bound)
    → bound_of k r b s h ≡ some bound
    → h ≡ some bound.head_branch
unfolding bound_of
bound_of-head Kind.github_pull_request (some r) (some b) (some s) (some h) bound e =
    let k : ◌≡◌ {A = Option Bound}
        (some (record { repository = r; base_branch = b; base_commit_sha = s; head_branch = h }))
        (some bound) =
      e in
    let f : Option Bound → Option String =
      λ o. elim o [ none ↦ none | some x ↦ some x.head_branch ] in
    ap f k
bound_of-head Kind.github_pull_request (some r) (some b) (some s) none bound e = cc
bound_of-head Kind.github_pull_request (some r) (some b) none h bound e = cc
bound_of-head Kind.github_pull_request (some r) none s h bound e = cc
bound_of-head Kind.github_pull_request none b s h bound e = cc
bound_of-head Kind.local_artifact r b s h bound e = cc

bound_target-head :
    (t : PatchTarget) (b : Bound) → bound_target t ≡ some b → t.head_branch ≡ some b.head_branch
unfolding bound_target
bound_target-head t b h = given-eq-some t.head_branch b.head_branch (
    bound_of-head t.kind (given t.repository) (given t.base_branch) (given t.base_commit_sha)
      (given t.head_branch) b h)

module _ (remote : Remote) (c : CandidatePatch) (tenant_id : String) where
  -- A permitted request of a candidate whose destination is exact and in the allowed scope.
  unfoldable pub IsAllowed : Request → Type 0
  IsAllowed r =
      (b : Bound) × (bound_target c.target ≡ some b)
      × (repository_in_scope remote b.repository tenant_id ≡ true)
      × (r.repository ≡ b.repository)
      × (r.tenant_id ≡ tenant_id)
      × Permitted remote c b r

  module _ (b : Bound) (bound : bound_target c.target ≡ some b)
      (scope : repository_in_scope remote b.repository tenant_id ≡ true) where
    asks :
        (r : Request)
        → r.repository ≡ b.repository
        → r.tenant_id ≡ tenant_id
        → Permitted remote c b r
        → Relates (Adds IsAllowed) (request_json remote r)
    unfolding IsAllowed
    asks r at_home by_tenant p =
        Relates-request_json remote IsAllowed r (b, bound, scope, at_home, by_tenant, p)

    Relates-ensure_branch : Relates (Adds IsAllowed) (ensure_branch remote c b tenant_id)
    unfolding ensure_branch
    Relates-ensure_branch =
        let o = Adds-IsPreorder IsAllowed in
        Relates-bind _ o _ _ (asks _ refl refl (Permitted.the_branch refl refl refl)) λ response.
          Relates-test _ (nat_beq response.status_code 422) _ _
            (Relates-bind _ o _ _ (asks _ refl refl (Permitted.a_read refl (inl refl) refl))
              λ found. Relates-pure _ o tt)
            (Relates-pure _ o tt)

    Relates-put_file :
        (sha : Option String) → Relates (Adds IsAllowed) (put_file remote c b tenant_id sha)
    unfolding put_file write_payload
    Relates-put_file sha =
        let o = Adds-IsPreorder IsAllowed in
        Relates-bind _ o _ _
          (asks _ refl refl (
            Permitted.the_file refl refl _ (given sha) (
              ap
                (λ h.
                  Body.file_write ("Add CourseFuzz regression " ++ₛ c.id)
                    (remote.b64encode (remote.encode c.pytest_source)) h (given sha))
                (bound_target-head c.target b bound))))
          λ response. Relates-bind _ o _ _ (Relates-lift _ o _) λ commit. Relates-pure _ o _

    Relates-write_over :
        (existing : Response) → Relates (Adds IsAllowed) (write_over remote c b tenant_id existing)
    unfolding write_over
    Relates-write_over existing =
        let o = Adds-IsPreorder IsAllowed in
        Relates-test _ (nat_beq existing.status_code 200) _ _
          (Relates-bind _ o _ _ (Relates-lift _ o _) λ content.
            Relates-bind _ o _ _ (Relates-lift _ o _) λ current_bytes.
              Relates-test _ (current_bytes == remote.encode c.pytest_source) _ _
                (Relates-pure _ o _)
                (Relates-bind _ o _ _ (Relates-lift _ o _) λ sha. Relates-put_file (some sha)))
          (Relates-put_file none)

    Relates-write_file : Relates (Adds IsAllowed) (write_file remote c b tenant_id)
    unfolding write_file
    Relates-write_file =
        let o = Adds-IsPreorder IsAllowed in
        Relates-bind _ o _ _ (asks _ refl refl (Permitted.a_read refl (inr (inl refl)) refl))
          Relates-write_over

    Relates-open_pull : Relates (Adds IsAllowed) (open_pull remote c b tenant_id)
    unfolding open_pull open_pulls_request pull_request
    Relates-open_pull =
        let o = Adds-IsPreorder IsAllowed in
        Relates-bind _ o _ _ (asks _ refl refl (Permitted.the_pull refl refl _ _ refl)) λ response.
          Relates-test _ (nat_beq response.status_code 422) _ _
            (Relates-bind _ o _ _
              (asks (open_pulls_request remote c b tenant_id) refl refl
                (Permitted.a_read refl (inr (inr refl)) refl))
              λ found. Relates-bind _ o _ _ (Relates-lift _ o _) λ pulls. Relates-lift _ o _)
            (Relates-lift _ o _)

    Relates-read_back : Relates (Adds IsAllowed) (read_back remote c b tenant_id)
    unfolding read_back
    Relates-read_back =
        let o = Adds-IsPreorder IsAllowed in
        Relates-bind _ o _ _ (asks _ refl refl (Permitted.a_read refl (inr (inl refl)) refl))
          λ response. Relates-bind _ o _ _ (Relates-lift _ o _) λ content.
            Relates-bind _ o _ _ (Relates-lift _ o _) λ bytes.
              Relates-test _ (bytes == remote.encode c.pytest_source) _ _ (Relates-pure _ o _)
                (Relates-raise _ o _ _)

    Relates-publish : Relates (Adds IsAllowed) (publish remote c b tenant_id)
    unfolding publish
    Relates-publish =
        let o = Adds-IsPreorder IsAllowed in
        Relates-bind _ o _ _ Relates-ensure_branch λ u.
          Relates-bind _ o _ _ Relates-write_file λ commit_sha.
            Relates-bind _ o _ _ Relates-open_pull λ p.
              Relates-bind _ o _ _ Relates-read_back λ bytes.
                Relates-bind _ o _ _ (Relates-lift _ o _)
                  λ html_url. Relates-bind _ o _ _ (Relates-lift _ o _) λ number. Relates-pure _ o _

  Relates-apply_bound :
      (o : Option Bound)
      → bound_target c.target ≡ o
      → Relates (Adds IsAllowed) (apply_bound remote c tenant_id o)
  unfolding apply_bound require_allowed_repository ◌>>=◌
  Relates-apply_bound none h = Relates-raise _ (Adds-IsPreorder IsAllowed) _ _
  Relates-apply_bound (some b) h =
      elim (Bool-cases (repository_in_scope remote b.repository tenant_id)) [
        | inl e ↦ rw e (
            Relates-bind _ (Adds-IsPreorder IsAllowed) _ _
              (Relates-pure _ (Adds-IsPreorder IsAllowed) tt) λ u. Relates-publish b h e)
        | inr e ↦ rw e (record { relates = λ s r m. inl m })
      ]

  -- However `apply` ends, each request that it has sent is a read of the head branch, the file or the
  -- pull requests of the candidate's repository without a body, the creation of the candidate's own head branch, the write of the candidate's
  -- source to its path on that branch, or the draft pull request; and none at all is sent unless
  -- the candidate is bound to an exact destination in the allowed scope.
  pub apply-IsAllowed :
      (conn : Conn) (r : Request)
      → Elem r (apply remote c tenant_id conn).1.sent
      → Elem r conn.sent ⊎ IsAllowed r
  unfolding apply
  apply-IsAllowed conn = (Relates-apply_bound (bound_target c.target) refl).relates conn
