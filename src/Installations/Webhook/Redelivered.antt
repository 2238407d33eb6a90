-- ===== src/Installations/Webhook/Redelivered.antt =====
-- A delivery that comes again (github_webhook of src/coursefuzz/api/routes.py).
use course_fuzz.Prelude.{
  String, Bool, true, false, Option, none, some, lookup, ltb, is_some, string_eq, beq_refl, ◌≢◌,
  beq_of_ne, ◌≡◌, refl, sym, ap, ◌∙◌, inl, inr, Bool-cases,
}
use mathlib.Core.Path.{subst}
use course_fuzz.Prelude.Result.{Result, ok, raised}
use course_fuzz.Prelude.State.{St, pure, continue, ◌>>=◌}
use course_fuzz.Installations.{InstallationEvent, Db, id_limit, transaction}
use course_fuzz.Installations.Sqlite
use course_fuzz.Installations.Tables.{
  Intent, intent, tables, upsert_in, apply-tables, apply-overflow,
}
use course_fuzz.Installations.Payload.{Json, parse_installation_event, verify_github_signature}
use course_fuzz.Installations.Webhook.{
  Site, Delivery, Reply, or_empty, apply_parsed, after_record, with_payload, with_delivery,
  github_webhook,
}

-- The delivery is in the table.
abbrev Recorded : String → Db → Type 0
Recorded id db = is_some (lookup id db.deliveries) ≡ true

tables-deliveries :
    (lower : String → String) (k : Intent) (e : InstallationEvent) (now : String) (db : Db)
    → (tables lower k e now db).deliveries ≡ db.deliveries
unfolding tables upsert_in
tables-deliveries lower Intent.deletion e now db = refl
tables-deliveries lower Intent.suspension e now db = refl
tables-deliveries lower Intent.full_sync e now db = refl
tables-deliveries lower Intent.addition e now db = refl
tables-deliveries lower Intent.removal e now db = refl
tables-deliveries lower Intent.other e now db = refl

record_delivery-Recorded :
    (id now : String) (db : Db) → Recorded id (Sqlite.record_delivery id now db).1
unfolding Sqlite.record_delivery transaction
record_delivery-Recorded id now db = elim (Bool-cases (is_some (lookup id db.deliveries))) [
  | inl e ↦ rw e e
  | inr e ↦ rw e (rw (beq_refl id) refl)
]

record_delivery-again :
    (id now : String) (db : Db) → Recorded id db → Sqlite.record_delivery id now db ≡ (ok false, db)
unfolding Sqlite.record_delivery transaction
record_delivery-again id now db h = rw h refl

module _ (site : Site) (lower : String → String) where
  apply_parsed-deliveries :
      (now : String) (o : Option InstallationEvent) (db : Db)
      → (apply_parsed site (Sqlite.store lower) now o db).1.deliveries ≡ db.deliveries
  unfolding apply_parsed ◌>>=◌
  apply_parsed-deliveries now none db = refl
  apply_parsed-deliveries now (some e) db =
      let P : Result (Unit {0}) × Db → Type 0 =
        λ x. (continue (λ u. pure (Reply.applied e.action)) x.0 x.1).1.deliveries ≡ db.deliveries in
      elim (Bool-cases (ltb e.installation_id id_limit)) [
        | inl f ↦
            subst P (sym (apply-tables lower e now db f))
              (tables-deliveries lower (intent e.action) e now db)
        | inr f ↦ subst P (sym (apply-overflow lower e now db f)) refl
      ]

  after_record-Recorded :
      (d : Delivery) (id now : String) (payload : Json) (first : Bool) (db : Db)
      → Recorded id db
      → Recorded id (after_record site (Sqlite.store lower) d now payload first db).1
  unfolding after_record
  after_record-Recorded d id now payload false db h = h
  after_record-Recorded d id now payload true db h =
      ap (λ t. is_some (lookup id t))
        (apply_parsed-deliveries now
          (parse_installation_event site.lower (or_empty d.event_type) payload) db)
      ∙ h

  record_then-Recorded :
      (d : Delivery) (id now : String) (payload : Json) (r : Result Bool × Db)
      → Recorded id r.1
      → Recorded id (continue (after_record site (Sqlite.store lower) d now payload) r.0 r.1).1
  record_then-Recorded d id now payload (ok first, db) h =
      after_record-Recorded d id now payload first db h
  record_then-Recorded d id now payload (raised x, db) h = h

  -- The part of the endpoint behind its guards.
  abbrev recording : Delivery → (id now : String) → Json → St Db Reply
  recording d id now payload =
      Sqlite.record_delivery id now >>= after_record site (Sqlite.store lower) d now payload

  recording-Recorded :
      (d : Delivery) (id now : String) (payload : Json) (db : Db)
      → Recorded id (recording d id now payload db).1
  unfolding ◌>>=◌
  recording-Recorded d id now payload db =
      record_then-Recorded d id now payload (Sqlite.record_delivery id now db)
        (record_delivery-Recorded id now db)

  recording-again :
      (d : Delivery) (id now : String) (payload : Json) (db : Db)
      → Recorded id db
      → recording d id now payload db ≡ (ok Reply.duplicate, db)
  unfolding ◌>>=◌ after_record
  recording-again d id now payload db h =
      ap (λ x. continue (after_record site (Sqlite.store lower) d now payload) x.0 x.1)
        (record_delivery-again id now db h)

  module _ (d : Delivery) (id : String) (payload : Json) (secret : site.webhook_secret ≢ "")
      (signed : verify_github_signature site.digests site.webhook_secret d.body d.signature
        ≡ ok true)
      (given : d.delivery_id ≡ some id) (nonempty : id ≢ "")
      (json : site.loads d.body ≡ ok (some payload)) where
    github_webhook-recording :
        (now : String) (db : Db)
        → github_webhook site (some (Sqlite.store lower)) d now db ≡ recording d id now payload db
    unfolding github_webhook with_delivery with_payload ◌>>=◌
    github_webhook-recording now db =
        rw (beq_of_ne _ _ secret, signed, given, beq_of_ne _ _ nonempty, json) refl

    -- A signed delivery with an identifier and a JSON body is recorded however it is answered, and
    -- when it comes again, the answer is `duplicate` and nothing changes.
    pub github_webhook-again :
        (now later : String) (db : Db)
        → let after = (github_webhook site (some (Sqlite.store lower)) d now db).1 in
          github_webhook site (some (Sqlite.store lower)) d later after
          ≡ (ok Reply.duplicate, after)
    github_webhook-again now later db =
        let first = github_webhook-recording now db in
        github_webhook-recording later _
        ∙ recording-again d id later payload _
            (subst (λ x. Recorded id x.1) (sym first) (recording-Recorded d id now payload db))
