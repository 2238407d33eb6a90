-- ===== src/Access/Authenticated.antt =====
-- Whom a configured policy lets in (AccessPolicy.authenticate of
-- src/coursefuzz/security/access.py).
use Prim.Native.String.{count}
use mathlib.Core.Path.{subst}
use course_fuzz.Prelude.{
  String, Bool, true, false, not, ◌&&◌, Option, none, some, List, [], ◌∷◌, map, Elem, ◌==◌,
  string_eq, eq_of_beq, beq_refl, contains, Elem-contains, map-Elem, if◌then◌else◌, ltb, ◌≡◌, ◌≢◌,
  ◌↔◌, refl, sym, ap, ◌∙◌, inl, inr, Bool-cases, arith,
}
use course_fuzz.Prelude.Text.{all_distinct}
use course_fuzz.Prelude.Result.{ok, raise_if, bind-eq-ok, ok-injective, Exn}
use course_fuzz.Access.{
  Principal, AccessPolicy, Texts, is_ascii, compare_digest, check_token, check_tokens,
  access_policy, credential_of, identify, admitted, is_configured, authenticate, is_tenant,
}

raise_if-ok : (b : Bool) (x : Exn) {u : Unit {0}} → raise_if b x ≡ ok u → b ≡ false
raise_if-ok true x h = cc
raise_if-ok false x h = refl

distinct_cons :
    (x : String) (xs : List String)
    → all_distinct (x ∷ xs) ≡ true
    → (contains x xs ≡ false) × (all_distinct xs ≡ true)
unfolding all_distinct
distinct_cons x xs h = elim (Bool-cases (contains x xs)) [
  | inl e ↦ cc (rw e at h)
  | inr e ↦ (e, rw e at h)
]

-- Every token compares with texts: it is ASCII.
unfoldable pub IsAscii : List (String × String) → Type 0
IsAscii tokens = (i c : String) → Elem (i, c) tokens → is_ascii c ≡ true

compare_digest-ok : (a b : String) (r : Bool) → compare_digest a b ≡ ok r → (a == b) ≡ r
unfolding compare_digest
compare_digest-ok a b r h = elim (Bool-cases (is_ascii a && is_ascii b)) [
  | inl e ↦ cc (rw e at h)
  | inr e ↦ cc (rw e at h)
]

compare_digest-ascii :
    (a b : String) → is_ascii a ≡ true → is_ascii b ≡ true → compare_digest a b ≡ ok (a == b)
unfolding compare_digest
compare_digest-ascii a b h k = rw (h, k) refl

module _ (texts : Texts) where
  -- Whoever is identified has the credential as a token.
  identify-Elem :
      (c : String) (tokens : List (String × String)) (p : Principal)
      → identify texts c tokens ≡ ok p
      → Elem (p.tenant_id, c) tokens
  unfolding identify
  identify-Elem c [] p h = cc
  identify-Elem c ((i, e) ∷ rest) p h =
      let (same, j, k) =
        bind-eq-ok (compare_digest c e)
          (λ same. if same then ok (record { tenant_id = i }) else identify texts c rest) h in
      elim (Bool-cases same) [
        | inl s ↦
            let o = ok-injective _ _ (rw s at k) in
            let w = eq_of_beq c e (compare_digest-ok c e same j ∙ s) in
            inl (λ t. ((ap (λ q. q.tenant_id) (sym o)) t, w t))
        | inr s ↦ inr (identify-Elem c rest p (rw s at k))
      ]

  Elem-identify :
      (c i : String) (tokens : List (String × String))
      → IsAscii tokens
      → all_distinct (map (λ t. t.1) tokens) ≡ true
      → Elem (i, c) tokens
      → identify texts c tokens ≡ ok (record { tenant_id = i })
  unfolding identify all_distinct IsAscii
  Elem-identify c i [] a d m = absurd m
  Elem-identify c i ((j, e) ∷ rest) a d (inl m) =
      let w : c ≡ e = ap (λ q. q.1) m in
      let is = a j e (inl refl) in
      rw (w, compare_digest-ascii e e is is, beq_refl e)
        (ap (λ q. ok (record { tenant_id = q })) (sym (ap (λ q. q.0) m)))
  Elem-identify c i ((j, e) ∷ rest) a d (inr m) =
      rw (compare_digest-ascii c e (a i c (inr m)) (a j e (inl refl))) (elim (Bool-cases (c == e)) [
        | inl s ↦
            let o : Elem e (map (λ t. t.1) rest) =
              subst (λ q. Elem q (map (λ t. t.1) rest)) (eq_of_beq c e s)
                (map-Elem (λ t. t.1) rest (i, c) m) in
            cc
              (Elem-contains e (map (λ t. t.1) rest) o, (distinct_cons e (map (λ t. t.1) rest) d).0)
        | inr s ↦ rw s (
            Elem-identify c i rest (λ x y n. a x y (inr n))
              (distinct_cons e (map (λ t. t.1) rest) d).1 m)
      ])

  check_tokens-long :
      (tokens : List (String × String))
      → check_tokens texts tokens ≡ ok tt
      → (i c : String) → Elem (i, c) tokens
      → ltb (count c) 24 ≡ false
  unfolding check_tokens check_token
  check_tokens-long [] h i c m = absurd m
  check_tokens-long ((j, e) ∷ rest) h i c m =
      let (u, k, l) = bind-eq-ok (check_token texts j e) (λ _. check_tokens texts rest) h in
      elim m [
        | inl w ↦
            let (v, n, o) =
              bind-eq-ok (raise_if (not (is_tenant j)) _) (λ _. raise_if (ltb (count e) 24) _) k in
            ap (λ q. ltb (count q.1) 24) w ∙ raise_if-ok (ltb (count e) 24) _ o
        | inr w ↦ check_tokens-long rest l i c w
      ]

  pub access_policy-ok :
      (tokens : List (String × String)) (policy : AccessPolicy)
      → access_policy texts tokens ≡ ok policy
      → (policy.tenant_tokens ≡ tokens)
        × (all_distinct (map (λ t. t.1) tokens) ≡ true)
        × (check_tokens texts tokens ≡ ok tt)
  unfolding access_policy
  access_policy-ok tokens policy h =
      let (u, j, k) = bind-eq-ok (check_tokens texts tokens) _ h in
      let (v, m, n) = bind-eq-ok (raise_if (not (all_distinct (map (λ t. t.1) tokens))) _) _ k in
      (
        ap (λ q. q.tenant_tokens) (sym (ok-injective _ _ n)),
        ground (arith, raise_if-ok (not (all_distinct (map (λ t. t.1) tokens))) _ m),
        j,
      )

  admitted-Elem :
      (o : Option String) (tokens : List (String × String)) (p : Principal)
      → admitted texts o tokens ≡ ok p
      → (c : String) × (o ≡ some c) × Elem (p.tenant_id, c) tokens
  unfolding admitted
  admitted-Elem none tokens p h = cc
  admitted-Elem (some c) tokens p h = elim (Bool-cases (c == "")) [
    | inl e ↦ cc (rw e at h)
    | inr e ↦ (c, refl, identify-Elem c tokens p (rw e at h))
  ]

  Elem-admitted :
      (c i : String) (tokens : List (String × String))
      → check_tokens texts tokens ≡ ok tt
      → IsAscii tokens
      → all_distinct (map (λ t. t.1) tokens) ≡ true
      → Elem (i, c) tokens
      → admitted texts (some c) tokens ≡ ok (record { tenant_id = i })
  unfolding admitted
  Elem-admitted c i tokens h a d m = elim (Bool-cases (c == "")) [
    | inl e ↦
        let short : ltb (count "") 24 ≡ false =
          subst (λ q. ltb (count q) 24 ≡ false) (eq_of_beq c "" e)
            (check_tokens-long tokens h i c m) in
        cc short
    | inr e ↦ rw e (Elem-identify c i tokens a d m)
  ]

  is_configured_cons : (tokens : List (String × String)) → tokens ≢ [] → is_configured tokens ≡ true
  is_configured_cons [] n = absurd (n refl)
  is_configured_cons (t ∷ ts) n = refl

  -- With a policy that was built from a dictionary of ASCII tokens that is not empty, a request is
  -- authenticated as a tenant exactly when it has a credential, a bearer token or else a cookie, and
  -- that credential is the tenant's token: the order of the dictionary does not matter.
  pub authenticate-Elem :
      (tokens : List (String × String)) (policy : AccessPolicy)
      → access_policy texts tokens ≡ ok policy
      → tokens ≢ []
      → IsAscii tokens
      → (authorization session_cookie : Option String) (p : Principal)
      → (authenticate texts policy authorization session_cookie ≡ ok p) ↔ (
          (c : String) × (credential_of texts authorization session_cookie ≡ some c)
          × Elem (p.tenant_id, c) tokens)
  unfolding authenticate
  authenticate-Elem tokens policy built n a authorization session_cookie p =
      let (same, d, h) = access_policy-ok tokens policy built in
      let r = is_configured_cons tokens n in
      (
        λ k.
            admitted-Elem (credential_of texts authorization session_cookie) tokens p
              (rw (same, r) at k),
        λ (c, e, m). rw (same, r, e) (Elem-admitted c p.tenant_id tokens h a d m),
      )
