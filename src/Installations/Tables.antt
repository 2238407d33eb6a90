-- ===== src/Installations/Tables.antt =====
-- The tables that apply_installation_event (src/coursefuzz/security/installations.py) leaves in SQLite.
use course_fuzz.Prelude.{
  String, Bool, true, false, not, Option, none, some, filter, lookup, insert, is_some, nat_beq,
  nat_eq, string_eq, if◌then◌else◌, ◌≡◌, refl, ap, ◌∙◌, inl, inr, ltb, Bool-cases, arith,
  lookup-insert,
}
use course_fuzz.Prelude.State.{◌>>=◌}
use course_fuzz.Prelude.Result.{ok, raised}
use course_fuzz.Installations.{
  InstallationEvent, Db, id_limit, overflow, upserted, apply_installation_event, transaction,
  delete_repositories, delete_bindings, delete_row, is_full_sync, is_add, is_remove, is_delete,
  is_suspend, sync_repositories,
}
use course_fuzz.Installations.Sqlite
use course_fuzz.Installations.Rows.{
  put_rows, drop_rows, set_repositories-put_rows, add_repositories-put_rows,
  remove_repositories-drop_rows,
}

-- What an action asks for.
pub data Intent : Type 0 where
  deletion suspension full_sync addition removal other : Intent

unfoldable pub intent : String → Intent
intent action =
    if is_delete action
    then Intent.deletion
    else if is_suspend action
    then Intent.suspension
    else if is_full_sync action
    then Intent.full_sync
    else if is_add action
    then Intent.addition
    else if is_remove action
    then Intent.removal
    else Intent.other

-- The tables that an event leaves, by its intent.
unfoldable pub upsert_in : InstallationEvent → (suspended : Option Bool) → (now : String) → Db → Db
upsert_in event suspended now db = record db {
  installations =
      insert event.installation_id
        (upserted event.account_login suspended now (lookup event.installation_id db.installations))
        db.installations;
}

unfoldable pub tables :
    (lower : String → String) → Intent → InstallationEvent → (now : String) → Db → Db
unfolding upsert_in put_rows drop_rows
tables lower Intent.deletion event now db = record {
  installations = filter (λ p. not (nat_beq p.0 event.installation_id)) db.installations;
  repos =
      filter (λ p. not (nat_beq p.0 event.installation_id))
        (filter (λ p. not (nat_beq p.0 event.installation_id)) db.repos);
  workspaces = filter (λ b. not (nat_beq b.installation_id event.installation_id)) db.workspaces;
  deliveries = db.deliveries;
}
tables lower Intent.suspension event now db = upsert_in event (some true) now db
tables lower Intent.full_sync event now db = record (upsert_in event (some false) now db) {
  repos =
      put_rows lower event.installation_id event.repositories
        (filter (λ p. not (nat_beq p.0 event.installation_id)) db.repos);
}
tables lower Intent.addition event now db = record (upsert_in event none now db) {
  repos = put_rows lower event.installation_id event.repositories db.repos;
}
tables lower Intent.removal event now db = record (upsert_in event none now db) {
  repos = drop_rows lower event.installation_id event.repositories db.repos;
}
tables lower Intent.other event now db = upsert_in event none now db

known :
    (event : InstallationEvent) (s : Option Bool) (now : String) (db : Db)
    → is_some (lookup event.installation_id (upsert_in event s now db).installations) ≡ true
unfolding upsert_in
known event s now db =
    ap is_some (lookup-insert event.installation_id event.installation_id _ db.installations)
    ∙ ground arith

pub apply-tables :
    (lower : String → String) (event : InstallationEvent) (now : String) (db : Db)
    → ltb event.installation_id id_limit ≡ true
    → apply_installation_event (Sqlite.store lower) event now db
      ≡ (ok tt, tables lower (intent event.action) event now db)
unfolding apply_installation_event sync_repositories intent tables upsert_in transaction ◌>>=◌
    Sqlite.delete_installation Sqlite.upsert_installation Sqlite.set_repositories
    Sqlite.add_repositories Sqlite.remove_repositories delete_repositories delete_bindings
    delete_row
apply-tables lower event now db fits = elim (Bool-cases (is_delete event.action)) [
  | inl e ↦ rw (e, fits) (rw fits (rw fits refl))
  | inr e ↦ elim (Bool-cases (is_suspend event.action)) [
    | inl f ↦ rw (e, f, fits) refl
    | inr f ↦ elim (Bool-cases (is_full_sync event.action)) [
      | inl g ↦
          rw (e, f, g, fits)
            (set_repositories-put_rows lower event.installation_id event.repositories
              (upsert_in event (some false) now db) fits (known event (some false) now db))
      | inr g ↦ elim (Bool-cases (is_add event.action)) [
        | inl h ↦
            rw (e, f, g, h, fits)
              (add_repositories-put_rows lower event.installation_id event.repositories
                (upsert_in event none now db) fits (known event none now db))
        | inr h ↦ elim (Bool-cases (is_remove event.action)) [
          | inl k ↦
              rw (e, f, g, h, k, fits)
                (remove_repositories-drop_rows lower event.installation_id event.repositories
                  (upsert_in event none now db) fits)
          | inr k ↦ rw (e, f, g, h, k, fits) refl
        ]
      ]
    ]
  ]
]

-- An id that does not fit is refused by the first statement.
pub apply-overflow :
    (lower : String → String) (event : InstallationEvent) (now : String) (db : Db)
    → ltb event.installation_id id_limit ≡ false
    → apply_installation_event (Sqlite.store lower) event now db ≡ (raised overflow, db)
unfolding apply_installation_event transaction ◌>>=◌ Sqlite.delete_installation
    Sqlite.upsert_installation delete_repositories
apply-overflow lower event now db large = elim (Bool-cases (is_delete event.action)) [
  | inl e ↦ rw (e, large) refl
  | inr e ↦ elim (Bool-cases (is_suspend event.action)) [
    | inl f ↦ rw (e, f, large) refl
    | inr f ↦ rw (e, f, large) refl
  ]
]
