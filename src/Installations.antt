-- ===== src/Installations.antt =====
-- GitHub App installations (src/coursefuzz/security/installations.py): the tables, the statements
-- on them, the interface of a store, and apply_installation_event.
pub mod Sqlite
pub mod Rows
pub mod Tables
pub mod Access
pub mod Owners
pub mod Repeat
pub mod Payload
pub mod Webhook
use course_fuzz.Prelude.{
  ℕ, String, Bool, true, false, not, ◌&&◌, Option, none, some, List, [], ◌∷◌, map, any, filter,
  find, lookup, insert, contains, is_some, ltb, nat_beq, nat_eq, ◌==◌, string_eq, if◌then◌else◌,
}
use course_fuzz.Prelude.Result.{Result, Exn, ok, raised, other_error}
use course_fuzz.Prelude.State.{St, pure, raise, ◌>>=◌}

-- InstallationEvent of security/webhooks.py
pub record InstallationEvent : Type 0 where
  pub installation_id : ℕ
  pub account_login : Option String
  pub action : String
  pub repositories : List String

abbrev pub full_sync_actions : List String
full_sync_actions = "created" ∷ "unsuspend" ∷ []

abbrev pub is_full_sync : String → Bool
is_full_sync action = contains action full_sync_actions

abbrev pub is_add : String → Bool
is_add action = action == "added"

abbrev pub is_remove : String → Bool
is_remove action = action == "removed"

abbrev pub is_delete : String → Bool
is_delete action = action == "deleted"

abbrev pub is_suspend : String → Bool
is_suspend action = action == "suspend"

-- A row of github_installations, behind its key.
pub record Installation : Type 0 where
  pub account_login : Option String
  pub suspended : Bool
  pub updated_at : String

-- A row of github_workspace_installations.
pub record Binding : Type 0 where
  pub tenant_id : String
  pub installation_id : ℕ
  pub bound_at : String

-- The tables. The rows of github_installation_repos are in no order that a reader sees.
pub record Db : Type 0 where
  pub installations : List (ℕ × Installation)
  pub repos : List (ℕ × String)
  pub workspaces : List Binding
  pub deliveries : List (String × String)

-- How a transaction ends: what was done is undone when an exception leaves it.
abbrev pub conclude : {A : Type 0} → (before : Db) → Result A × Db → Result A × Db
conclude before (ok a, after) = (ok a, after)
conclude before (raised x, after) = (raised x, before)

-- A connection's context.
unfoldable pub transaction : {A : Type 0} → St Db A → St Db A
transaction m db = conclude db (m db)

-- sqlite3 binds integers of 64 bits; the ids of events are positive.
abbrev pub id_limit : ℕ
id_limit = 9223372036854775808

abbrev pub overflow : Exn
overflow = other_error "OverflowError: Python int too large to convert to SQLite INTEGER"

-- A statement with an id among its parameters.
abbrev pub binds : {A : Type 0} → (installation_id : ℕ) → St Db A → St Db A
binds installation_id m db = if ltb installation_id id_limit then m db else (raised overflow, db)

abbrev pub is_row : ℕ → String → ℕ × String → Bool
is_row installation_id repository row = nat_beq row.0 installation_id && row.1 == repository

abbrev pub has_row : ℕ → String → List (ℕ × String) → Bool
has_row installation_id repository rows = any (is_row installation_id repository) rows

-- INSERT OR IGNORE INTO github_installation_repos, whose foreign key is enforced
unfoldable pub insert_repository : (installation_id : ℕ) (repository : String) → St Db Unit
insert_repository installation_id repository = binds installation_id λ db.
    if has_row installation_id repository db.repos
    then (ok tt, db)
    else if is_some (lookup installation_id db.installations)
    then (ok tt, record db { repos = (installation_id, repository) ∷ db.repos })
    else (raised (other_error "IntegrityError"), db)

-- DELETE FROM github_installation_repos WHERE installation_id = ? AND repository = ?
unfoldable pub delete_repository : (installation_id : ℕ) (repository : String) → St Db Unit
delete_repository installation_id repository = binds installation_id λ db.
    (ok tt, record db { repos = filter (λ p. not (is_row installation_id repository p)) db.repos })

-- DELETE FROM github_installation_repos WHERE installation_id = ?
unfoldable pub delete_repositories : (installation_id : ℕ) → St Db Unit
delete_repositories installation_id =
    binds installation_id
      λ db. (ok tt, record db { repos = filter (λ p. not (nat_beq p.0 installation_id)) db.repos })

-- DELETE FROM github_workspace_installations WHERE installation_id = ?
unfoldable pub delete_bindings : (installation_id : ℕ) → St Db Unit
delete_bindings installation_id = binds installation_id λ db. (
  ok tt,
  record db {
    workspaces = filter (λ b. not (nat_beq b.installation_id installation_id)) db.workspaces;
  },
)

-- DELETE FROM github_installations WHERE installation_id = ?, which cascades to the repositories
unfoldable pub delete_row : (installation_id : ℕ) → St Db Unit
delete_row installation_id = binds installation_id λ db. (
  ok tt,
  record db {
    installations = filter (λ p. not (nat_beq p.0 installation_id)) db.installations;
    repos = filter (λ p. not (nat_beq p.0 installation_id)) db.repos;
  },
)

-- INSERT INTO github_workspace_installations ... ON CONFLICT(tenant_id) DO UPDATE
unfoldable pub put_binding : Binding → List Binding → List Binding
put_binding b [] = b ∷ []
put_binding b (c ∷ cs) =
    let rest = put_binding b cs in if c.tenant_id == b.tenant_id then b ∷ cs else c ∷ rest

-- SELECT 1 FROM github_installations WHERE installation_id = ? AND suspended = 0
abbrev pub active_row : Option Installation → Bool
active_row none = false
active_row (some i) = not i.suspended

unfoldable pub is_active : (installation_id : ℕ) → Db → Bool
is_active installation_id db = active_row (lookup installation_id db.installations)

-- The row that an upsert leaves behind.
abbrev pub upserted :
    (account_login : Option String) (suspended : Option Bool) (now : String)
    → Option Installation
    → Installation
upserted login none now none = record { account_login = login; suspended = false; updated_at = now }
upserted login (some s) now none = record { account_login = login; suspended = s; updated_at = now }
upserted none none now (some i) = record i { updated_at = now }
upserted none (some s) now (some i) = record i { suspended = s; updated_at = now }
upserted (some login) none now (some i) = record i { account_login = some login; updated_at = now }
upserted (some login) (some s) now (some i) = record i {
  account_login = some login;
  suspended = s;
  updated_at = now;
}

-- `InstallationStore`, over the state of a backend. `now` is what `_utc_iso` answers in the call.
pub record InstallationStore (S : Type 0) : Type 0 where
  pub record_delivery : (delivery_id now : String) → St S Bool
  pub upsert_installation :
      (installation_id : ℕ) (account_login : Option String) (suspended : Option Bool) (now : String)
      → St S Unit
  pub set_repositories : (installation_id : ℕ) (repositories : List String) → St S Unit
  pub add_repositories : (installation_id : ℕ) (repositories : List String) → St S Unit
  pub remove_repositories : (installation_id : ℕ) (repositories : List String) → St S Unit
  pub delete_installation : (installation_id : ℕ) → St S Unit
  pub installation_exists : (installation_id : ℕ) → St S Bool
  pub repositories_for_installation : (installation_id : ℕ) → St S (List String)
  pub bind_workspace : (tenant_id : String) (installation_id : ℕ) (now : String) → St S Unit
  pub claim_installation : (tenant_id : String) (installation_id : ℕ) (now : String) → St S Bool
  pub installation_for_workspace : (tenant_id : String) → St S (Option ℕ)
  pub repositories_for_workspace : (tenant_id : String) → St S (List String)

module _ {S : Type 0} (store : InstallationStore S) where
  -- The repositories of an event that neither deletes nor suspends.
  pub sync_repositories : InstallationEvent → St S Unit
  sync_repositories event =
      if is_full_sync event.action
      then store.set_repositories event.installation_id event.repositories
      else if is_add event.action
      then store.add_repositories event.installation_id event.repositories
      else if is_remove event.action
      then store.remove_repositories event.installation_id event.repositories
      else pure tt

  unfoldable pub apply_installation_event : InstallationEvent → (now : String) → St S Unit
  unfolding sync_repositories
  apply_installation_event event now =
      if is_delete event.action
      then store.delete_installation event.installation_id
      else if is_suspend event.action
      then store.upsert_installation event.installation_id event.account_login (some true) now
      else (store.upsert_installation event.installation_id event.account_login
            (if is_full_sync event.action then some false else none) now
          >>= λ _. sync_repositories event)
