-- ===== src/RateLimit.antt =====
-- The token bucket (src/coursefuzz/security/rate_limit.py). The arithmetic of floats and the clock's
-- readings are arguments, so that nothing here depends on how floats are rounded.
pub mod Separate
use course_fuzz.Prelude.{
  ℕ, zero, suc, ◌-◌, max, ℤ, pos, negsuc, String, Bool, true, false, Option, none, some, List, [],
  ◌∷◌, not, ◌||◌, lookup, insert, string_eq, ltb, if◌then◌else◌,
}

-- Python's floats: `float(n)`, its operators, `min` and `max`, and `int` of a float that is not
-- negative.
pub record Floats : Type 1 where
  pub F : Type 0
  pub float : ℕ → F
  pub add : F → F → F
  pub sub : F → F → F
  pub mul : F → F → F
  pub div : F → F → F
  pub min : F → F → F
  pub max : F → F → F
  pub le : F → F → Bool
  pub int : F → ℕ
  -- 0.999
  pub nearly_one : F

module _ (floats : Floats) where
  open floats use {F, float, add, sub, mul, div, le, int, nearly_one}

  pub record Bucket : Type 0 where
    pub tokens : F
    pub updated_at : F

  -- TokenBucketRateLimiter, behind its buckets.
  pub record Limiter : Type 0 where
    pub capacity : ℕ
    pub refill : F

abbrev pub not_negative : ℤ → ℕ
not_negative (pos n) = n
not_negative (negsuc n) = 0

module _ (floats : Floats) where
  open floats use {F, float, add, sub, mul, div, le, int, nearly_one}

  -- __init__
  unfoldable pub new_limiter : (capacity : ℤ) (refill_per_second : F) → Limiter floats
  new_limiter capacity refill_per_second = record {
    capacity = not_negative capacity;
    refill = floats.max (float 0) refill_per_second;
  }

  abbrev pub Buckets : Type 0
  Buckets = List (String × Bucket floats)

module _ (floats : Floats) (l : Limiter floats) where
  open floats use {F, float, add, sub, mul, div, le, int, nearly_one}
  open l use {capacity, refill}

  abbrev pub enabled : Bool
  enabled = ltb 0 capacity

  abbrev pub replenish : Bucket floats → (now : F) → Bucket floats
  replenish b now =
      let elapsed = floats.max (float 0) (sub now b.updated_at) in
      record {
        tokens = floats.min (float capacity) (add b.tokens (mul elapsed refill));
        updated_at = now;
      }

  -- One token of a bucket that has been replenished.
  abbrev pub take_token : (key : String) → Bucket floats → Buckets floats → Bool × Buckets floats
  take_token key b buckets =
      if le (float 1) b.tokens
      then (true, insert key (record b { tokens = sub b.tokens (float 1) }) buckets)
      else (false, insert key b buckets)

  abbrev pub first_or_take :
      (key : String) → (now : F) → Option (Bucket floats) → Buckets floats → Bool × Buckets floats
  first_or_take key now none buckets =
      (true, insert key (record { tokens = float (capacity - 1); updated_at = now }) buckets)
  first_or_take key now (some b) buckets = take_token key (replenish b now) buckets

  unfoldable pub allow : (key : String) → (now : F) → Buckets floats → Bool × Buckets floats
  allow key now buckets =
      if enabled then first_or_take key now (lookup key buckets) buckets else (true, buckets)

  -- max(1, int((1 - bucket.tokens) / self._refill + 0.999))
  abbrev pub seconds_to_wait : Bucket floats → ℕ
  seconds_to_wait b = max 1 (int (add (div (sub (float 1) b.tokens) refill) nearly_one))

  abbrev pub wait_of :
      (key : String) → (now : F) → Option (Bucket floats) → Buckets floats → ℕ × Buckets floats
  wait_of key now none buckets = (0, buckets)
  wait_of key now (some b) buckets =
      let b' = replenish b now in
      if le (float 1) b'.tokens
      then (0, insert key b' buckets)
      else (seconds_to_wait b', insert key b' buckets)

  unfoldable pub retry_after_seconds :
      (key : String) → (now : F) → Buckets floats → ℕ × Buckets floats
  retry_after_seconds key now buckets =
      if not enabled || le refill (float 0)
      then (1, buckets)
      else wait_of key now (lookup key buckets) buckets
