-- ===== src/Examples/Limits.antt =====
-- The theorems on the rate limit and on the coverage matrix.
use course_fuzz.Prelude.{
  ℕ, ◌+◌, ◌-◌, ◌*◌, ◌/◌, min, max, leb, true, false, List, [], ◌∷◌, ◌≡◌, refl,
}
use course_fuzz.RateLimit.{Floats, Limiter, allow, retry_after_seconds}
use course_fuzz.RateLimit.Separate.{Call, Answer, answers_to, answers_to-filter}
use course_fuzz.Coverage.{Grid, compute_differential_matrix}
use course_fuzz.Coverage.Clusters.{members, with_signature, compute_differential_matrix-members}

-- Whole numbers in place of floats.
abbrev floats : Floats
floats = record {
  F = ℕ;
  float = λ n. n;
  add = λ a b. a + b;
  sub = λ a b. a - b;
  mul = λ a b. a * b;
  div = λ a b. a / b;
  min = min;
  max = max;
  le = leb;
  int = λ n. n;
  nearly_one = 1;
}

abbrev limiter : Limiter floats
limiter = record { capacity = 1; refill = 1 }

abbrev calls : List (Call ℕ)
calls = Call.ask "a" 1 ∷ Call.ask "b" 1 ∷ Call.ask "a" 1 ∷ Call.wait "a" 1 ∷ []

answers_to-filter_example :
    answers_to floats limiter "a" calls []
    ≡ answers_to floats limiter "a" (Call.ask "a" 1 ∷ Call.ask "a" 1 ∷ Call.wait "a" 1 ∷ []) []
answers_to-filter_example = answers_to-filter floats limiter "a" calls []

two_refused :
    answers_to floats limiter "a" calls []
    ≡ Answer.permitted true ∷ Answer.permitted false ∷ Answer.seconds 2 ∷ []
unfolding answers_to allow retry_after_seconds
two_refused = refl

abbrev grid : Grid
grid = ("t1", ("m1", false) ∷ ("m2", true) ∷ ("m3", false) ∷ []) ∷ []

compute_differential_matrix-members_example :
    members
      (false ∷ [])
      (compute_differential_matrix ("t1" ∷ []) ("m1" ∷ "m2" ∷ "m3" ∷ []) grid).equivalence_clusters
    ≡ with_signature ("t1" ∷ []) grid (false ∷ []) ("m1" ∷ "m2" ∷ "m3" ∷ [])
compute_differential_matrix-members_example =
    compute_differential_matrix-members ("t1" ∷ []) grid ("m1" ∷ "m2" ∷ "m3" ∷ []) (false ∷ [])
