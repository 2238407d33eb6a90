-- ===== src/Installations/Sqlite.antt =====
-- SqliteInstallationStore (src/coursefuzz/security/installations.py): each method is one transaction.
use course_fuzz.Prelude.{
  ℕ, String, Bool, true, false, not, ◌&&◌, Option, none, some, List, [], ◌∷◌, map, filter, find,
  lookup, insert, is_some, nat_beq, nat_eq, ◌==◌, string_eq, if◌then◌else◌,
}
use course_fuzz.Prelude.Text.{sorted_set}
use course_fuzz.Prelude.Result.{ok}
use course_fuzz.Prelude.State.{St, pure, ◌>>=◌}
use course_fuzz.Installations.{
  Binding, Db, InstallationStore, binds, transaction, insert_repository, delete_repository,
  delete_repositories, delete_bindings, delete_row, put_binding, is_active, upserted,
}

unfoldable pub record_delivery : (delivery_id now : String) → St Db Bool
unfolding transaction
record_delivery delivery_id now = transaction λ db.
    if is_some (lookup delivery_id db.deliveries)
    then (ok false, db)
    else (ok true, record db { deliveries = (delivery_id, now) ∷ db.deliveries })

unfoldable pub upsert_installation :
    (installation_id : ℕ) (account_login : Option String) (suspended : Option Bool) (now : String)
    → St Db Unit
unfolding transaction
upsert_installation installation_id account_login suspended now = transaction (
    binds installation_id λ db. (
      ok tt,
      record db {
        installations =
            insert installation_id
              (upserted account_login suspended now (lookup installation_id db.installations))
              db.installations;
      },
    ))

module _ (lower : String → String) where
  -- executemany, over the names in lower case
  unfoldable pub insert_each : (installation_id : ℕ) (repositories : List String) → St Db Unit
  unfolding insert_repository
  insert_each installation_id [] = pure tt
  insert_each installation_id (repo ∷ repositories) =
      insert_repository installation_id (lower repo) >>= λ _.
      insert_each installation_id repositories

  unfoldable pub delete_each : (installation_id : ℕ) (repositories : List String) → St Db Unit
  unfolding delete_repository
  delete_each installation_id [] = pure tt
  delete_each installation_id (repo ∷ repositories) =
      delete_repository installation_id (lower repo) >>= λ _.
      delete_each installation_id repositories

  unfoldable pub set_repositories : (installation_id : ℕ) (repositories : List String) → St Db Unit
  unfolding transaction delete_repositories insert_each
  set_repositories installation_id repositories =
      transaction
        (delete_repositories installation_id >>= λ _. insert_each installation_id repositories)

  unfoldable pub add_repositories : (installation_id : ℕ) (repositories : List String) → St Db Unit
  unfolding transaction insert_each
  add_repositories installation_id repositories =
      transaction (insert_each installation_id repositories)

  unfoldable pub remove_repositories :
      (installation_id : ℕ) (repositories : List String) → St Db Unit
  unfolding transaction delete_each
  remove_repositories installation_id repositories =
      transaction (delete_each installation_id repositories)

unfoldable pub delete_installation : (installation_id : ℕ) → St Db Unit
unfolding transaction delete_repositories delete_bindings delete_row
delete_installation installation_id = transaction (
    delete_repositories installation_id >>= λ _.
    delete_bindings installation_id >>= λ _. delete_row installation_id)

unfoldable pub installation_exists : (installation_id : ℕ) → St Db Bool
unfolding is_active
installation_exists installation_id =
    binds installation_id λ db. (ok (is_active installation_id db), db)

-- The set of names that the query finds.
unfoldable pub repositories_for_installation : (installation_id : ℕ) → St Db (List String)
unfolding is_active
repositories_for_installation installation_id = binds installation_id λ db. (
  ok (
      map (λ p. p.1)
        (filter (λ p. nat_beq p.0 installation_id && is_active installation_id db) db.repos)),
  db,
)

unfoldable pub bind_workspace :
    (tenant_id : String) (installation_id : ℕ) (now : String) → St Db Unit
unfolding transaction put_binding
bind_workspace tenant_id installation_id now = transaction (
    binds installation_id λ db. (
      ok tt,
      record db {
        workspaces =
            put_binding
              (record { tenant_id = tenant_id; installation_id = installation_id; bound_at = now })
              db.workspaces;
      },
    ))

-- `owner and owner["tenant_id"] != tenant_id`
abbrev pub owned_by_another : (tenant_id : String) → Option Binding → Bool
owned_by_another tenant_id none = false
owned_by_another tenant_id (some owner) = not (owner.tenant_id == tenant_id)

unfoldable pub claim_installation :
    (tenant_id : String) (installation_id : ℕ) (now : String) → St Db Bool
unfolding transaction is_active put_binding
claim_installation tenant_id installation_id now = transaction (
    binds installation_id λ db.
      if not (is_active installation_id db)
      then (ok false, db)
      else if owned_by_another tenant_id
          (find (λ b. nat_beq b.installation_id installation_id) db.workspaces)
      then (ok false, db)
      else (
        ok true,
        record db {
          workspaces =
              put_binding
                (record {
                  tenant_id = tenant_id;
                  installation_id = installation_id;
                  bound_at = now;
                })
                db.workspaces;
        },
      ))

abbrev pub bound_installation : Option Binding → Option ℕ
bound_installation none = none
bound_installation (some b) = some b.installation_id

unfoldable pub installation_for_workspace : (tenant_id : String) → Db → Option ℕ
installation_for_workspace tenant_id db =
    bound_installation (find (λ b. b.tenant_id == tenant_id) db.workspaces)

abbrev pub names_of : Option ℕ → St Db (List String)
unfolding repositories_for_installation
names_of none = pure []
names_of (some installation_id) =
    repositories_for_installation installation_id >>= λ names. pure (sorted_set names)

unfoldable pub repositories_for_workspace : (tenant_id : String) → St Db (List String)
unfolding names_of installation_for_workspace
repositories_for_workspace tenant_id db = names_of (installation_for_workspace tenant_id db) db

-- The store as its clients see it.
abbrev pub store : (lower : String → String) → InstallationStore Db
store lower = record {
  record_delivery = record_delivery;
  upsert_installation = upsert_installation;
  set_repositories = set_repositories lower;
  add_repositories = add_repositories lower;
  remove_repositories = remove_repositories lower;
  delete_installation = delete_installation;
  installation_exists = installation_exists;
  repositories_for_installation = repositories_for_installation;
  bind_workspace = bind_workspace;
  claim_installation = claim_installation;
  installation_for_workspace = λ tenant_id db. (ok (installation_for_workspace tenant_id db), db);
  repositories_for_workspace = repositories_for_workspace;
}
