-- ===== src/Destinations/Github/Receipt.antt =====
-- What the receipt of an apply stands for (GitHubDestinationAdapter.apply,
-- src/coursefuzz/adapters/destinations.py).
use mathlib.Core.Path.{subst}
use course_fuzz.Prelude.{
  ℕ, zero, suc, String, true, Option, none, some, [], ◌∷◌, contains, ◌==◌, string_eq, nat_eq,
  nat_beq, eq_of_beq, ◌≡◌, refl, sym, ◌∙◌, ap, inl, inr, Bool-cases,
}
use course_fuzz.Prelude.Result.{ok, ok-injective}
use course_fuzz.Prelude.State.{lift, >>=-returned}
use course_fuzz.Models.{CandidatePatch}
use course_fuzz.Runs.{AppliedDestination}
use course_fuzz.Destinations.{
  Request, Response, Remote, Conn, retryable_statuses, send, attempt, request_json,
  require_allowed_repository,
}
use course_fuzz.Destinations.Github.{
  Bound, bound_target, write_request, write_payload, apply, file_request, put_file, write_over,
  write_file, read_back, publish, apply_bound, ensure_branch, open_pull, receipt_of,
}

module _ (remote : Remote) where
  -- GitHub answered the request, with a status that the caller allows.
  unfoldable pub Answered : Request → Response → Type 0
  Answered r response =
      (n : ℕ) × (token : Option String) × (remote.request n r token ≡ ok response)
      × (contains response.status_code r.allowed ≡ true)

  attempt-Answered :
      (r : Request) (token : Option String) (left : ℕ) (conn : Conn) (response : Response)
      → (attempt remote r token left conn).0 ≡ ok response
      → Answered r response
  unfolding attempt send Answered
  attempt-Answered r token zero conn response h =
      let s = >>=-returned (send remote r token) _ conn h in
      elim (Bool-cases (contains s.0.status_code r.allowed)) [
        | inl e ↦
            let k : s.0 ≡ response = ok-injective _ _ (rw e at s.2) in
            subst (λ t. Answered r t) k (conn.calls, token, s.1, e)
        | inr e ↦ cc (rw e at s.2)
      ]
  attempt-Answered r token (suc left) conn response h =
      let s = >>=-returned (send remote r token) _ conn h in
      elim (Bool-cases (contains s.0.status_code r.allowed)) [
        | inl e ↦
            let k : s.0 ≡ response = ok-injective _ _ (rw e at s.2) in
            subst (λ t. Answered r t) k (conn.calls, token, s.1, e)
        | inr e ↦ elim (Bool-cases (contains s.0.status_code retryable_statuses)) [
          | inl f ↦
              let u =
                >>=-returned (lift s.0.retry_after) (λ t. attempt remote r token left) _
                  (rw (e, f) at s.2) in
              attempt-Answered r token left _ response u.2
          | inr f ↦ cc (rw (e, f) at s.2)
        ]
      ]

  pub request_json-Answered :
      (r : Request) (conn : Conn) (response : Response)
      → (request_json remote r conn).0 ≡ ok response
      → Answered r response
  unfolding request_json
  request_json-Answered r conn response h =
      let s = >>=-returned _ _ conn h in attempt-Answered r s.0 1 _ response s.2

  module _ (c : CandidatePatch) (tenant_id : String) (b : Bound) where
    -- The bytes of a file that GitHub has shown are the candidate's.
    unfoldable pub Holds : Response → Type 0
    Holds response =
        (content : String) × (response.content ≡ ok content)
        × (remote.b64decode content ≡ ok (remote.encode c.pytest_source))

    -- What the commit in a receipt says of the file: it was written in that commit, or it held the
    -- candidate's bytes before.
    unfoldable pub Origin : Option String → Type 0
    unfolding Answered Holds
    Origin none =
        (response : Response) × Answered
          (record (file_request remote c b tenant_id) { allowed = 200 ∷ 404 ∷ [] }) response
        × Holds response
    Origin (some commit) =
        (sha : Option String) × (response : Response) × Answered
          (write_request remote c b tenant_id (write_payload remote c sha)) response
        × (response.written_commit ≡ ok commit)

    put_file-Origin :
        (sha : Option String) (conn : Conn) (commit : Option String)
        → (put_file remote c b tenant_id sha conn).0 ≡ ok commit
        → Origin commit
    unfolding put_file Origin
    put_file-Origin sha conn commit h =
        let s = >>=-returned _ _ conn h in
        let u = >>=-returned (lift s.0.written_commit) _ _ s.2 in
        let k : some u.0 ≡ commit = ok-injective _ _ u.2 in
        subst Origin k (sha, s.0, request_json-Answered _ conn s.0 s.1, u.1)

    write_over-Origin :
        (existing : Response) (conn : Conn) (commit : Option String)
        → Answered
            (record (file_request remote c b tenant_id) { allowed = 200 ∷ 404 ∷ [] })
            existing
        → (write_over remote c b tenant_id existing conn).0 ≡ ok commit
        → Origin commit
    unfolding write_over Origin Holds
    write_over-Origin existing conn commit answered h =
        elim (Bool-cases (nat_beq existing.status_code 200)) [
          | inl e ↦
              let s = >>=-returned (lift existing.content) _ conn (rw e at h) in
              let u = >>=-returned (lift (remote.b64decode s.0)) _ conn s.2 in
              elim (Bool-cases (u.0 == remote.encode c.pytest_source)) [
                | inl f ↦
                    let k : none ≡ commit = ok-injective _ _ (rw f at u.2) in
                    let same : u.0 ≡ remote.encode c.pytest_source = eq_of_beq _ _ f in
                    subst Origin k (existing, answered, (s.0, s.1, u.1 ∙ ap ok same))
                | inr f ↦
                    let v = >>=-returned (lift existing.sha) _ conn (rw f at u.2) in
                    put_file-Origin (some v.0) conn commit v.2
              ]
          | inr e ↦ put_file-Origin none conn commit (rw e at h)
        ]

    write_file-Origin :
        (conn : Conn) (commit : Option String)
        → (write_file remote c b tenant_id conn).0 ≡ ok commit
        → Origin commit
    unfolding write_file
    write_file-Origin conn commit h =
        let s = >>=-returned _ (write_over remote c b tenant_id) conn h in
        write_over-Origin s.0 _ commit (request_json-Answered _ conn s.0 s.1) s.2

    -- The read-back saw the candidate's bytes.
    unfoldable pub ReadBack : Type 0
    unfolding Answered Holds
    ReadBack =
        (response : Response) × Answered (file_request remote c b tenant_id) response
        × Holds response

    read_back-ReadBack :
        (conn : Conn) (bytes : String)
        → (read_back remote c b tenant_id conn).0 ≡ ok bytes
        → (bytes ≡ remote.encode c.pytest_source) × ReadBack
    unfolding read_back ReadBack Holds
    read_back-ReadBack conn bytes h =
        let s = >>=-returned _ _ conn h in
        let u = >>=-returned (lift s.0.content) _ _ s.2 in
        let v = >>=-returned (lift (remote.b64decode u.0)) _ _ u.2 in
        elim (Bool-cases (v.0 == remote.encode c.pytest_source)) [
          | inl f ↦
              let k : v.0 ≡ bytes = ok-injective _ _ (rw f at v.2) in
              let same : v.0 ≡ remote.encode c.pytest_source = eq_of_beq _ _ f in
              (
                sym k ∙ same,
                (s.0, request_json-Answered _ conn s.0 s.1, (u.0, u.1, v.1 ∙ ap ok same)),
              )
          | inr f ↦ cc (rw f at v.2)
        ]

    -- What a receipt establishes.
    unfoldable pub Receipted : AppliedDestination → Type 0
    unfolding ReadBack Origin
    Receipted applied =
        (applied.receipt.artifact_sha256 ≡ remote.sha256_hex (remote.encode c.pytest_source))
        × (applied.receipt.path ≡ c.target.path)
        × (applied.receipt.repository ≡ some b.repository)
        × (applied.receipt.base_commit_sha ≡ some b.base_commit_sha)
        × ReadBack
        × Origin applied.receipt.commit_sha

    publish-Receipted :
        (conn : Conn) (applied : AppliedDestination)
        → (publish remote c b tenant_id conn).0 ≡ ok applied
        → Receipted applied
    unfolding publish Receipted receipt_of
    publish-Receipted conn applied h =
        let s = >>=-returned (ensure_branch remote c b tenant_id) _ conn h in
        let u = >>=-returned (write_file remote c b tenant_id) _ _ s.2 in
        let v = >>=-returned (open_pull remote c b tenant_id) _ _ u.2 in
        let w = >>=-returned (read_back remote c b tenant_id) _ _ v.2 in
        let x = >>=-returned (lift v.0.html_url) _ _ w.2 in
        let y = >>=-returned (lift v.0.number) _ _ x.2 in
        let k : receipt_of remote c b tenant_id u.0 x.0 y.0 w.0 ≡ applied = ok-injective _ _ y.2 in
        let r = read_back-ReadBack _ w.0 w.1 in
        subst Receipted k
          (ap remote.sha256_hex r.0, refl, refl, refl, r.1, write_file-Origin _ u.0 u.1)

  apply_bound-Receipted :
      (c : CandidatePatch) (tenant_id : String) (o : Option Bound) (conn : Conn)
      (applied : AppliedDestination)
      → (apply_bound remote c tenant_id o conn).0 ≡ ok applied
      → (b : Bound) × (o ≡ some b) × Receipted c tenant_id b applied
  unfolding apply_bound require_allowed_repository
  apply_bound-Receipted c tenant_id none conn applied h = cc
  apply_bound-Receipted c tenant_id (some b) conn applied h =
      let s = >>=-returned (require_allowed_repository remote b.repository tenant_id) _ conn h in
      (b, refl, publish-Receipted c tenant_id b _ applied s.2)

  -- When `apply` returns, the candidate was bound to an exact destination; GitHub has answered a
  -- read of the file on the head branch with the candidate's bytes; the receipt holds the digest of
  -- these bytes, the candidate's path, the repository and the base commit; a commit that it names
  -- is the one that GitHub answered for the write of this source, and when it names none, the file
  -- held these bytes before.
  pub apply-Receipted :
      (c : CandidatePatch) (tenant_id : String) (conn : Conn) (applied : AppliedDestination)
      → (apply remote c tenant_id conn).0 ≡ ok applied
      → (b : Bound) × (bound_target c.target ≡ some b) × Receipted c tenant_id b applied
  unfolding apply
  apply-Receipted c tenant_id conn applied h =
      apply_bound-Receipted c tenant_id (bound_target c.target) conn applied h
