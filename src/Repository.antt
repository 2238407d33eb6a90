-- ===== src/Repository.antt =====
-- The run repository (src/coursefuzz/repositories/sqlite.py): its tables, and each method as one
-- transaction. A row's document is the `RunView` that it serializes. What a method reads of the
-- clock, of `secrets` or of a file is an argument. Tokens are taken to be fresh: the UNIQUE of the
-- column approval_token is not modelled.
pub mod Claims
pub mod Tenants
pub mod Events
pub mod Recoverable
use course_fuzz.Prelude.{
  ℕ, suc, ◌+◌, String, Bool, true, false, not, ◌&&◌, ◌||◌, Option, none, some, is_some, List, [],
  ◌∷◌, ◌++◌, map, filter, find, count, take, lookup, insert, ◌==◌, string_eq, nat_beq, ltb,
  if◌then◌else◌,
}
use course_fuzz.Prelude.Text.{◌++ₛ◌}
use course_fuzz.Prelude.Result.{Result, ok, raised, key_error, other_error}
use course_fuzz.Models.{RunView, RunStatus, AuditEvent, Time, status_beq}

pub record RunRow (A : Type 0) : Type 0 where
  pub id : String
  pub idempotency_key : String
  pub document : RunView A
  pub created_at : Time
  pub updated_at : Time
  pub owner_id : String

pub record Approval : Type 0 where
  pub payload_sha256 : String
  pub approval_token : String
  pub approved_at : Time
  pub consumed_at : Option Time

pub record Artifact : Type 0 where
  pub path : String
  pub filename : String
  pub content : String
  pub sha256 : String
  pub created_at : Time

pub record Store (A : Type 0) : Type 0 where
  pub runs : List (RunRow A)
  pub events : List AuditEvent
  -- the last id of the AUTOINCREMENT column
  pub last_event : ℕ
  pub approvals : List (String × Approval)
  pub artifacts : List (String × Artifact)

abbrev pub empty_store {ℓ} : {A : Type 0} → Store A
empty_store = record { runs = []; events = []; last_event = 0; approvals = []; artifacts = [] }

-- A method of the repository; one that raises rolls its transaction back.
abbrev pub Method : Type 0 → Type 0 → Type 0
Method A B = Store A → Result B × Store A

abbrev pub scoped_key : String → String → String
scoped_key owner key = owner ++ₛ ":" ++ₛ key

-- The approval is there, for this token and payload, and not consumed.
unfoldable pub grants : Option Approval → (token payload : String) → Bool
grants none token payload = false
grants (some a) token payload =
    a.approval_token == token && a.payload_sha256 == payload && not (is_some a.consumed_at)

-- The statuses of an interrupted run.
abbrev pub recoverable : RunStatus → Bool
recoverable RunStatus.queued = true
recoverable RunStatus.analyzing = true
recoverable RunStatus.applying = true
recoverable RunStatus.external_ci_pending = true
recoverable _ = false

module _ {A : Type 0} where
  abbrev pub has_id : String → RunRow A → Bool
  has_id run_id r = r.id == run_id

  abbrev pub owned : String → String → RunRow A → Bool
  owned run_id owner r = r.id == run_id && r.owner_id == owner

  -- UPDATE runs SET document = ?, updated_at = ? WHERE p
  unfoldable pub update_rows :
      (RunRow A → Bool) → RunView A → Time → List (RunRow A) → List (RunRow A)
  update_rows p run now [] = []
  update_rows p run now (r ∷ rs) =
      let rest = update_rows p run now rs in
      (if p r then record r { document = run; updated_at = now } else r) ∷ rest

  insert_run : RunView A → String → String → Time → Method A (RunView A × Bool)
  insert_run run scoped owner now s =
      if is_some (find (has_id run.id) s.runs)
      then (raised (other_error "IntegrityError"), s)
      else (
        ok (run, true),
        record s {
          runs =
              s.runs
              ++ record {
                id = run.id;
                idempotency_key = scoped;
                document = run;
                created_at = now;
                updated_at = now;
                owner_id = owner;
              }
                ∷ [];
        },
      )

  create_or : Option (RunRow A) → Method A (RunView A × Bool) → Method A (RunView A × Bool)
  create_or (some existing) rest s = (ok (existing.document, false), s)
  create_or none rest s = rest s

  unfoldable pub create :
      RunView A → (idempotency_key owner : String) → Time → Method A (RunView A × Bool)
  unfolding create_or insert_run
  create run key owner now s =
      create_or (find (λ r. r.idempotency_key == scoped_key owner key) s.runs)
        (insert_run run (scoped_key owner key) owner now) s

  abbrev pub document_of : Option (RunRow A) → Option (RunView A)
  document_of none = none
  document_of (some r) = some r.document

  unfoldable pub get : (run_id owner : String) → Store A → Option (RunView A)
  get run_id owner s = document_of (find (owned run_id owner) s.runs)

  unfoldable pub save : RunView A → Time → Method A Unit
  unfolding update_rows
  save run now s =
      if nat_beq (count (has_id run.id) s.runs) 1
      then (ok tt, record s { runs = update_rows (has_id run.id) run now s.runs })
      else (raised (key_error run.id), s)

  -- UPDATE approvals SET consumed_at = ? WHERE run_id = ? AND consumed_at IS NULL
  unfoldable pub consume : Option Approval → String → Time → Method A Bool
  consume none run_id now s = (ok false, s)
  consume (some a) run_id now s = if is_some a.consumed_at then (ok false, s) else (
    ok true,
    record s { approvals = insert run_id (record a { consumed_at = some now }) s.approvals },
  )

  abbrev pub in_status : String → RunStatus → RunRow A → Bool
  in_status run_id status r = r.id == run_id && status_beq r.document.status status

  unfoldable pub claim_approved_apply : RunView A → (token payload : String) → Time → Method A Bool
  unfolding grants consume update_rows
  claim_approved_apply run token payload now s =
      let p = in_status run.id RunStatus.approved in
      if grants (lookup run.id s.approvals) token payload
      then if nat_beq (count p s.runs) 1
        then consume (lookup run.id s.approvals) run.id now
            (record s { runs = update_rows p run now s.runs })
        else (ok false, s)
      else (ok false, s)

  -- INSERT ... ON CONFLICT(run_id) DO UPDATE; the foreign key wants the run.
  unfoldable pub approve : (run_id payload token : String) → Time → Method A (String × Time)
  approve run_id payload token now s =
      if is_some (find (has_id run_id) s.runs)
      then (
        ok (token, now),
        record s {
          approvals =
              insert run_id
                (record {
                  payload_sha256 = payload;
                  approval_token = token;
                  approved_at = now;
                  consumed_at = none;
                })
                s.approvals;
        },
      )
      else (raised (other_error "IntegrityError"), s)

  unfoldable pub consume_approval : (run_id token payload : String) → Time → Method A Bool
  unfolding grants consume
  consume_approval run_id token payload now s =
      if grants (lookup run_id s.approvals) token payload
      then consume (lookup run_id s.approvals) run_id now s
      else (ok false, s)

  unfoldable pub append_event :
      (run_id event_type stage message payload : String) → Time → Method A AuditEvent
  append_event run_id event_type stage message payload now s =
      if is_some (find (has_id run_id) s.runs)
      then (let event : AuditEvent = record {
        id = suc s.last_event;
        run_id = run_id;
        event_type = event_type;
        stage = stage;
        message = message;
        payload = payload;
        created_at = now;
      } in
          (ok event, record s { events = s.events ++ event ∷ []; last_event = suc s.last_event }))
      else (raised (other_error "IntegrityError"), s)

  -- Rows stand in the order of their ids.
  unfoldable pub events_after : (run_id : String) → (after_id : ℕ) → Store A → List AuditEvent
  events_after run_id after_id s = filter (λ e. e.run_id == run_id && ltb after_id e.id) s.events

  -- ON CONFLICT(run_id) DO UPDATE, below the read of the file
  insert_artifact :
      (run_id path filename sha256 : String) → Time → (content : Result String) → Method A Unit
  insert_artifact run_id path filename sha256 now (raised x) s = (raised x, s)
  insert_artifact run_id path filename sha256 now (ok content) s =
      if is_some (find (has_id run_id) s.runs)
      then (
        ok tt,
        record s {
          artifacts =
              insert run_id
                (record {
                  path = path;
                  filename = filename;
                  content = content;
                  sha256 = sha256;
                  created_at = now;
                })
                s.artifacts;
        },
      )
      else (raised (other_error "IntegrityError"), s)

  unfoldable pub save_artifact :
      (run_id path filename sha256 : String) → (content : Result String) → Time → Method A Unit
  unfolding insert_artifact
  save_artifact run_id path filename sha256 content now =
      insert_artifact run_id path filename sha256 now content

  -- ORDER BY updated_at ASC; rows of the same instant keep the order of the table.
  pub put_by_updated_at : RunRow A → List (RunRow A) → List (RunRow A)
  put_by_updated_at r [] = r ∷ []
  put_by_updated_at r (x ∷ xs) =
      let rest = put_by_updated_at r xs in
      if ltb x.updated_at r.updated_at then x ∷ rest else r ∷ x ∷ xs

  pub by_updated_at : List (RunRow A) → List (RunRow A)
  unfolding put_by_updated_at
  by_updated_at [] = []
  by_updated_at (r ∷ rs) = put_by_updated_at r (by_updated_at rs)

  -- The rows that `list_recoverable_runs` selects.
  pub recoverable_rows : (limit : ℕ) → Store A → List (RunRow A)
  unfolding by_updated_at
  recoverable_rows limit s =
      take limit (by_updated_at (filter (λ r. recoverable r.document.status) s.runs))

  unfoldable pub list_recoverable_runs : (limit : ℕ) → Store A → List (String × RunView A)
  unfolding recoverable_rows
  list_recoverable_runs limit s = map (λ r. (r.owner_id, r.document)) (recoverable_rows limit s)
