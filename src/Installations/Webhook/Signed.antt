-- ===== src/Installations/Webhook/Signed.antt =====
-- What an unsigned delivery can do (github_webhook of src/coursefuzz/api/routes.py,
-- verify_github_signature of src/coursefuzz/security/webhooks.py).
use course_fuzz.Prelude.{
  String, Bool, true, false, ◌&&◌, ◌||◌, Option, none, some, ◌==◌, string_eq, eq_of_beq, ◌≡◌, refl,
  sym, ap, ◌⊎◌, inl, inr, Bool-cases, if◌then◌else◌,
}
use course_fuzz.Prelude.Result.{Result, ok, raised, ok-injective}
use course_fuzz.Prelude.State.{St, continue, ◌>>=◌}
use course_fuzz.Installations.{InstallationStore}
use course_fuzz.Installations.Payload.{
  Digests, partition, is_ascii, compare_digest, check_parts, verify_github_signature,
}
use course_fuzz.Installations.Webhook.{Site, Delivery, Reply, with_delivery, github_webhook}

-- The header names the scheme and carries the digest of exactly this body under the secret.
unfoldable pub IsSigned : Digests → (secret body : String) → Option String → Type 0
IsSigned digests secret body signature =
    (header : String) × (provided : String) × (signature ≡ some header)
    × (partition header ≡ some ("sha256", provided))
    × (digests.strip provided ≡ digests.hmac_sha256 secret body)

compare_digest-eq : (a b : String) → compare_digest a b ≡ ok true → a ≡ b
unfolding compare_digest
compare_digest-eq a b h = elim (Bool-cases (is_ascii a && is_ascii b)) [
  | inl e ↦ eq_of_beq a b (ok-injective _ _ (rw e at h))
  | inr e ↦ cc (rw e at h)
]

check_parts-signed :
    (digests : Digests) (secret body : String) (parts : Option (String × String))
    → check_parts digests secret body parts ≡ ok true
    → (provided : String) × (parts ≡ some ("sha256", provided))
      × (digests.strip provided ≡ digests.hmac_sha256 secret body)
unfolding check_parts
check_parts-signed digests secret body none h = cc
check_parts-signed digests secret body (some (scheme, provided)) h =
    elim (Bool-cases (scheme == "sha256")) [
      | inr e ↦ cc (rw e at h)
      | inl e ↦ elim (Bool-cases (provided == "")) [
        | inl f ↦ cc (rw (e, f) at h)
        | inr f ↦ (
          provided,
          ap (λ s. some (s, provided)) (eq_of_beq _ _ e),
          sym (compare_digest-eq _ _ (rw (e, f) at h)),
        )
      ]
    ]

pub verify-IsSigned :
    (digests : Digests) (secret body : String) (signature : Option String)
    → verify_github_signature digests secret body signature ≡ ok true
    → IsSigned digests secret body signature
unfolding verify_github_signature IsSigned
verify-IsSigned digests secret body none h = cc
verify-IsSigned digests secret body (some header) h =
    elim (Bool-cases (secret == "" || header == "")) [
      | inl e ↦ cc (rw e at h)
      | inr e ↦
          let (provided, p, q) =
            check_parts-signed digests secret body (partition header) (rw e at h) in
          (header, provided, refl, p, q)
    ]

module _ {S : Type 0} (site : Site) where
  unchecked :
      (verdict : Result Bool) (m n : St S Reply) (s : S)
      → (n s).1 ≡ s
      → ((continue (λ verified. if verified then m else n) verdict s).1 ≡ s) ⊎ (verdict ≡ ok true)
  unchecked (ok true) m n s h = inr refl
  unchecked (ok false) m n s h = inl h
  unchecked (raised x) m n s h = inl refl

  -- A delivery changes nothing, unless its signature names SHA-256 and is the HMAC of exactly its
  -- body under a secret that is configured, whatever the store is.
  pub github_webhook-IsSigned :
      (store : Option (InstallationStore S)) (d : Delivery) (now : String) (s : S)
      → ((github_webhook site store d now s).1 ≡ s)
        ⊎ IsSigned site.digests site.webhook_secret d.body d.signature
  unfolding github_webhook ◌>>=◌
  github_webhook-IsSigned none d now s = inl refl
  github_webhook-IsSigned (some store) d now s = elim (Bool-cases (site.webhook_secret == "")) [
    | inl e ↦ inl (rw e refl)
    | inr e ↦
        rw e
          (elim (unchecked
            (verify_github_signature site.digests site.webhook_secret d.body d.signature)
            (with_delivery site store d now d.delivery_id) _ s refl) [
              | inl k ↦ inl k
              | inr v ↦ inr (verify-IsSigned site.digests site.webhook_secret d.body d.signature v)
            ])
  ]
