-- ===== src/Installations/Webhook.antt =====
-- The webhook endpoint (github_webhook of src/coursefuzz/api/routes.py), over any store.
pub mod Signed
pub mod Redelivered
use course_fuzz.Prelude.{
  ℕ, String, Bool, true, false, Option, none, some, ◌==◌, string_eq, if◌then◌else◌,
}
use course_fuzz.Prelude.Result.{Result, ok, raised}
use course_fuzz.Prelude.State.{St, pure, lift, ◌>>=◌}
use course_fuzz.Installations.{InstallationEvent, InstallationStore, apply_installation_event}
use course_fuzz.Installations.Payload.{
  Json, Digests, verify_github_signature, parse_installation_event,
}

-- `refused` is an HTTPException; the others are the body of a 202.
pub data Reply : Type 0 where
  refused : (status_code : ℕ) (detail : String) → Reply
  duplicate ignored : Reply
  applied : (action : String) → Reply

-- A delivery: the raw body and the three headers.
pub record Delivery : Type 0 where
  pub body : String
  pub signature : Option String
  pub delivery_id : Option String
  pub event_type : Option String

-- What the endpoint is given beside its store: `str.lower`, and `json.loads` where a
-- JSONDecodeError is `none`.
pub record Site : Type 0 where
  pub digests : Digests
  pub webhook_secret : String
  pub lower : String → String
  pub loads : String → Result (Option Json)

-- headers.get(name, "")
abbrev pub or_empty : Option String → String
or_empty none = ""
or_empty (some t) = t

module _ {S : Type 0} (site : Site) where
  unfoldable pub apply_parsed :
      InstallationStore S → (now : String) → Option InstallationEvent → St S Reply
  unfolding apply_installation_event
  apply_parsed store now none = pure Reply.ignored
  apply_parsed store now (some event) =
      apply_installation_event store event now >>= λ _. pure (Reply.applied event.action)

  unfoldable pub after_record :
      InstallationStore S → Delivery → (now : String) → Json → Bool → St S Reply
  unfolding apply_parsed parse_installation_event
  after_record store d now payload first_delivery =
      if first_delivery
      then apply_parsed store now
          (parse_installation_event site.lower (or_empty d.event_type) payload)
      else pure Reply.duplicate

  unfoldable pub with_payload :
      InstallationStore S → Delivery → (delivery_id now : String) → Option Json → St S Reply
  unfolding after_record
  with_payload store d delivery_id now none = pure (Reply.refused 400 "Malformed webhook body")
  with_payload store d delivery_id now (some payload) =
      store.record_delivery delivery_id now >>= after_record store d now payload

  unfoldable pub with_delivery :
      InstallationStore S → Delivery → (now : String) → Option String → St S Reply
  unfolding with_payload
  with_delivery store d now none = pure (Reply.refused 400 "Missing delivery identifier")
  with_delivery store d now (some delivery_id) =
      if delivery_id == ""
      then pure (Reply.refused 400 "Missing delivery identifier")
      else (lift (site.loads d.body) >>= with_payload store d delivery_id now)

  unfoldable pub github_webhook :
      Option (InstallationStore S) → Delivery → (now : String) → St S Reply
  unfolding with_delivery verify_github_signature
  github_webhook none d now = pure (Reply.refused 503 "GitHub webhooks are not configured")
  github_webhook (some store) d now =
      if site.webhook_secret == ""
      then pure (Reply.refused 503 "GitHub webhooks are not configured")
      else (lift (verify_github_signature site.digests site.webhook_secret d.body d.signature)
          >>= λ verified.
              if verified
              then with_delivery store d now d.delivery_id
              else pure (Reply.refused 401 "Invalid webhook signature"))
