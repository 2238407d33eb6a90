-- ===== src/Examples/Installations.antt =====
-- The theorems on the installations, with one installation and two workspaces.
use course_fuzz.Prelude.{
  pos, String, true, some, [], ◌∷◌, nat_eq, string_eq, ◌≡◌, refl, ◌⊎◌, ◌<◌, ◌≤◌,
}
use course_fuzz.Prelude.Result.{ok, raised}
use course_fuzz.Prelude.State.{◌>>=◌}
use course_fuzz.Installations.{
  InstallationEvent, Db, id_limit, overflow, apply_installation_event, transaction, is_active,
  put_binding,
}
use course_fuzz.Installations.Sqlite
use course_fuzz.Installations.Access.{view, step, apply_installation_event-step}
use course_fuzz.Installations.Repeat.{apply_installation_event_idem}
use course_fuzz.Installations.Owners.{Step, Reachable, installation_for_workspace-injective}
use course_fuzz.Installations.Payload.{
  Json, text, number, array, object, no_items, item, no_fields, field, parse_installation_event,
  verify_github_signature,
}
use course_fuzz.Installations.Payload.Actionable.{
  IsActionable, parse_installation_event-IsActionable,
}
use course_fuzz.Installations.Webhook.{Site, Delivery, Reply, github_webhook}
use course_fuzz.Installations.Webhook.Signed.{IsSigned, github_webhook-IsSigned}
use course_fuzz.Installations.Webhook.Redelivered.{github_webhook-again}

abbrev same : String → String
same t = t

abbrev no_tables : Db
no_tables = record { installations = []; repos = []; workspaces = []; deliveries = [] }

abbrev created : InstallationEvent
created = record {
  installation_id = 7;
  account_login = some "org";
  action = "created";
  repositories = "org/course" ∷ [];
}

abbrev payload : Json
payload = object (
    field "action" (text "created") (
      field "installation"
        (object (
          field "id" (number (pos 7))
            (field "account" (object (field "login" (text "org") no_fields)) no_fields)))
        (field "repositories"
          (array (item (object (field "full_name" (text "org/course") no_fields)) no_items))
          no_fields)))

abbrev site : Site
site = record {
  digests = record { hmac_sha256 = λ secret body. "abc"; strip = same };
  webhook_secret = "secret";
  lower = same;
  loads = λ body. ok (some payload);
}

abbrev delivery : Delivery
delivery = record {
  body = "{}";
  signature = some "sha256=abc";
  delivery_id = some "d-1";
  event_type = some "installation";
}

apply_installation_event-step_example :
    let (r, after) = apply_installation_event (Sqlite.store same) created "now" no_tables in
    ((7 < id_limit) × (r ≡ ok tt) × (view after ≡ step same created (view no_tables)))
    ⊎ ((id_limit ≤ 7) × (r ≡ raised overflow) × (after ≡ no_tables))
apply_installation_event-step_example = apply_installation_event-step same created "now" no_tables

apply_installation_event_idem_example :
    let once = (apply_installation_event (Sqlite.store same) created "now" no_tables).1 in
    let twice = (apply_installation_event (Sqlite.store same) created "later" once).1 in
    view twice ≡ view once
apply_installation_event_idem_example =
    apply_installation_event_idem same created "now" "later" no_tables

abbrev installed : Db
installed = (apply_installation_event (Sqlite.store same) created "now" no_tables).1

abbrev claimed : Db
claimed = (Sqlite.claim_installation "alice" 7 "now" installed).1

reaches : Reachable same claimed
reaches =
    Reachable.next installed claimed
      (Reachable.next no_tables installed Reachable.empty (Step.event created "now" no_tables))
      (Step.claim "alice" 7 "now" installed)

holds_seven : Sqlite.installation_for_workspace "alice" claimed ≡ some 7
unfolding apply_installation_event transaction is_active put_binding ◌>>=◌ Sqlite.claim_installation
    Sqlite.installation_for_workspace Sqlite.upsert_installation Sqlite.set_repositories
holds_seven = refl

installation_for_workspace-injective_example : ◌≡◌ {A = String} "alice" "alice"
installation_for_workspace-injective_example =
    installation_for_workspace-injective same claimed reaches "alice" "alice" 7 holds_seven
      holds_seven

parses : parse_installation_event same "installation" payload ≡ some created
unfolding parse_installation_event
parses = refl

parse_installation_event-IsActionable_example : IsActionable same "installation" created
parse_installation_event-IsActionable_example =
    parse_installation_event-IsActionable same "installation" payload created parses

github_webhook-IsSigned_example :
    ((github_webhook site (some (Sqlite.store same)) delivery "now" no_tables).1 ≡ no_tables)
    ⊎ IsSigned site.digests "secret" "{}" (some "sha256=abc")
github_webhook-IsSigned_example =
    github_webhook-IsSigned site (some (Sqlite.store same)) delivery "now" no_tables

signed : verify_github_signature site.digests "secret" "{}" (some "sha256=abc") ≡ ok true
unfolding verify_github_signature
signed = refl

github_webhook-again_example :
    let after = (github_webhook site (some (Sqlite.store same)) delivery "now" no_tables).1 in
    github_webhook site (some (Sqlite.store same)) delivery "later" after
    ≡ (ok Reply.duplicate, after)
github_webhook-again_example =
    github_webhook-again site same delivery "d-1" payload (λ e. cc e) signed refl (λ e. cc e) refl
      "now" "later" no_tables
