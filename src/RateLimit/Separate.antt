-- ===== src/RateLimit/Separate.antt =====
-- What other keys do to the limit of a key (src/coursefuzz/security/rate_limit.py).
use mathlib.Core.Path.{subst}
use course_fuzz.Prelude.{
  ℕ, String, Bool, true, false, not, ◌||◌, List, [], ◌∷◌, filter, lookup, insert, lookup-insert,
  string_eq, ◌==◌, eq_of_beq, ltb, if◌then◌else◌, ◌≡◌, refl, sym, ap, ◌∙◌, inl, inr, Option-cases,
  Bool-cases,
}
use course_fuzz.RateLimit.{Floats, Limiter, Bucket, Buckets, replenish, allow, retry_after_seconds}

-- A call of `allow` or `retry_after_seconds`, with the clock's reading.
pub data Call (F : Type 0) : Type 0 where
  ask wait : (key : String) → (now : F) → Call F

abbrev pub key_of : {F : Type 0} → Call F → String
key_of (Call.ask key now) = key
key_of (Call.wait key now) = key

pub data Answer : Type 0 where
  permitted : Bool → Answer
  seconds : ℕ → Answer

module _ (floats : Floats) (l : Limiter floats) where
  open floats use {F, float, le}
  open l use {refill, capacity}

  abbrev pub answer : Call F → Buckets floats → Answer × Buckets floats
  answer (Call.ask key now) buckets =
      let r = allow floats l key now buckets in (Answer.permitted r.0, r.1)
  answer (Call.wait key now) buckets =
      let r = retry_after_seconds floats l key now buckets in (Answer.seconds r.0, r.1)

  -- The answers to a key's calls, in order.
  unfoldable pub answers_to : (key : String) → List (Call F) → Buckets floats → List Answer
  answers_to key [] buckets = []
  answers_to key (c ∷ cs) buckets =
      let r = answer c buckets in
      let rest = answers_to key cs r.1 in if key_of c == key then r.0 ∷ rest else rest

  -- What a call does to the bucket of any key follows from that bucket alone.
  abbrev Alike : (key : String) (a b : Buckets floats) → Type 0
  Alike key a b = lookup key a ≡ lookup key b

  put-other :
      (key k : String) (v : Bucket floats) (d : Buckets floats)
      → (k == key) ≡ false
      → Alike key (insert k v d) d
  put-other key k v d n = lookup-insert k key v d ∙ rw n refl

  put-own :
      (key k : String) (v : Bucket floats) (a b : Buckets floats)
      → (k == key) ≡ true
      → Alike key (insert k v a) (insert k v b)
  put-own key k v a b e = lookup-insert k key v a ∙ rw e (sym (lookup-insert k key v b ∙ rw e refl))

  answer-other :
      (key : String) (c : Call F) (buckets : Buckets floats)
      → (key_of c == key) ≡ false
      → Alike key (answer c buckets).1 buckets
  unfolding allow retry_after_seconds
  answer-other key (Call.ask k now) buckets n = elim (Bool-cases (ltb 0 capacity)) [
    | inr e ↦ rw e refl
    | inl e ↦ elim (Option-cases (lookup k buckets)) [
      | inl o ↦ rw (e, o) (put-other key k _ buckets n)
      | inr (b, o) ↦ elim (Bool-cases (le (float 1) (replenish floats l b now).tokens)) [
        | inl f ↦ rw (e, o, f) (put-other key k _ buckets n)
        | inr f ↦ rw (e, o, f) (put-other key k _ buckets n)
      ]
    ]
  ]
  answer-other key (Call.wait k now) buckets n =
      elim (Bool-cases (not (ltb 0 capacity) || le refill (float 0))) [
        | inl e ↦ rw e refl
        | inr e ↦ elim (Option-cases (lookup k buckets)) [
          | inl o ↦ rw (e, o) refl
          | inr (b, o) ↦ elim (Bool-cases (le (float 1) (replenish floats l b now).tokens)) [
            | inl f ↦ rw (e, o, f) (put-other key k _ buckets n)
            | inr f ↦ rw (e, o, f) (put-other key k _ buckets n)
          ]
        ]
      ]

  answer-own :
      (key : String) (c : Call F) (a b : Buckets floats)
      → (key_of c == key) ≡ true
      → Alike key a b
      → ((answer c a).0 ≡ (answer c b).0) × Alike key (answer c a).1 (answer c b).1
  unfolding allow retry_after_seconds
  answer-own key (Call.ask k now) a b e h = elim (Bool-cases (ltb 0 capacity)) [
    | inr g ↦ rw g (refl, h)
    | inl g ↦
        let same : lookup k a ≡ lookup k b =
          subst (λ t. lookup t a ≡ lookup t b) (sym (eq_of_beq k key e)) h in
        elim (Option-cases (lookup k b)) [
          | inl o ↦ rw (g, same, o) (refl, put-own key k _ a b e)
          | inr (c, o) ↦ elim (Bool-cases (le (float 1) (replenish floats l c now).tokens)) [
            | inl f ↦ rw (g, same, o, f) (refl, put-own key k _ a b e)
            | inr f ↦ rw (g, same, o, f) (refl, put-own key k _ a b e)
          ]
        ]
  ]
  answer-own key (Call.wait k now) a b e h =
      elim (Bool-cases (not (ltb 0 capacity) || le refill (float 0))) [
        | inl g ↦ rw g (refl, h)
        | inr g ↦
            let same : lookup k a ≡ lookup k b =
              subst (λ t. lookup t a ≡ lookup t b) (sym (eq_of_beq k key e)) h in
            elim (Option-cases (lookup k b)) [
              | inl o ↦ rw (g, same, o) (refl, h)
              | inr (c, o) ↦ elim (Bool-cases (le (float 1) (replenish floats l c now).tokens)) [
                | inl f ↦ rw (g, same, o, f) (refl, put-own key k _ a b e)
                | inr f ↦ rw (g, same, o, f) (refl, put-own key k _ a b e)
              ]
            ]
      ]

  answers_to-Alike :
      (key : String) (cs : List (Call F)) (a b : Buckets floats)
      → Alike key a b
      → answers_to key cs a ≡ answers_to key (filter (λ c. key_of c == key) cs) b
  unfolding answers_to
  answers_to-Alike key [] a b h = refl
  answers_to-Alike key (c ∷ cs) a b h = elim (Bool-cases (key_of c == key)) [
    | inl e ↦
        let (x, y) = answer-own key c a b e h in
        rw (e, x) (rw e (ap (λ t. (answer c b).0 ∷ t) (answers_to-Alike key cs _ _ y)))
    | inr e ↦ rw e (answers_to-Alike key cs _ b (answer-other key c a e ∙ h))
  ]

  -- Whatever other keys do, in whatever order and at whatever times, the answers to a key's calls are
  -- those that it would get if it were alone.
  pub answers_to-filter :
      (key : String) (cs : List (Call F)) (buckets : Buckets floats)
      → answers_to key cs buckets ≡ answers_to key (filter (λ c. key_of c == key) cs) buckets
  answers_to-filter key cs buckets = answers_to-Alike key cs buckets buckets refl
