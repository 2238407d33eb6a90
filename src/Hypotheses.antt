-- ===== src/Hypotheses.antt =====
-- Where hypotheses come from without a language model (src/coursefuzz/adapters/generators.py), and
-- Python's sets, sorting and itertools, which Hypotheses/Deterministic uses too.
pub mod Deterministic
pub mod Pooled
pub mod Pick
pub mod Budget
pub mod Domain
pub mod Reproduced
use course_fuzz.Prelude.{
  ℕ, zero, suc, ◌+◌, ℤ, pos, negsuc, abs, int_ltb, int_beq, int_eq, String, Bool, true, false, not,
  ◌&&◌, ◌||◌, Option, none, some, List, [], ◌∷◌, ◌++◌, map, filter, length, count, contains, leb,
  ltb, nat_beq, ◌==◌, list_eq, string_eq, if◌then◌else◌,
}
use course_fuzz.Prelude.Text.{◌++ₛ◌, text_ltb}
use course_fuzz.Prelude.Result.{Result, ok, raised, value_error, ◌>>=◌}
use course_fuzz.Models.{AttackHypothesis, Provider, HypothesisContext, SurvivorHint}
use course_fuzz.Engine.Select.{magnitude, largest, tuple_ltb}

-- GeneratedCandidate
pub record Candidate : Type 0 where
  pub inputs : List ℤ
  pub rationale : String
  pub misconception : String
  pub generator : Option String

module _ {A : Type 0} where
  abbrev pub concat : List (List A) → List A
  concat [] = []
  concat (xs ∷ xss) = xs ++ concat xss

  -- sorted(xs, key=...), where `less` compares the keys
  abbrev pub put_by : (less : A → A → Bool) → A → List A → List A
  put_by less a [] = a ∷ []
  put_by less a (x ∷ xs) = let rest = put_by less a xs in if less x a then x ∷ rest else a ∷ x ∷ xs

  abbrev pub sort_by : (less : A → A → Bool) → List A → List A
  sort_by less [] = []
  sort_by less (x ∷ xs) = put_by less x (sort_by less xs)

-- set(xs), of numbers and of tuples
abbrev pub unique : List ℤ → List ℤ
unique [] = []
unique (x ∷ xs) = let rest = unique xs in if contains x rest then rest else x ∷ rest

abbrev pub unique_tuples : List (List ℤ) → List (List ℤ)
unique_tuples [] = []
unique_tuples (x ∷ xs) = let rest = unique_tuples xs in if contains x rest then rest else x ∷ rest

-- permutations(xs), in some order
unfoldable pub insertions : ℤ → List ℤ → List (List ℤ)
insertions x [] = (x ∷ []) ∷ []
insertions x (y ∷ ys) = (x ∷ y ∷ ys) ∷ map (λ t. y ∷ t) (insertions x ys)

unfoldable pub permutations : List ℤ → List (List ℤ)
unfolding insertions
permutations [] = [] ∷ []
permutations (x ∷ xs) = concat (map (insertions x) (permutations xs))

-- product(values, repeat=n)
unfoldable pub product : List ℤ → ℕ → List (List ℤ)
product values zero = [] ∷ []
product values (suc n) = concat (map (λ v. map (λ t. v ∷ t) (product values n)) values)

abbrev pub int_min : ℤ → ℤ → ℤ
int_min a b = if int_ltb b a then b else a

abbrev pub int_max : ℤ → ℤ → ℤ
int_max a b = if int_ltb a b then b else a

-- v + 1 and v - 1
abbrev pub successor : ℤ → ℤ
successor (pos n) = pos (suc n)
successor (negsuc zero) = pos zero
successor (negsuc (suc n)) = negsuc n

abbrev pub predecessor : ℤ → ℤ
predecessor (pos zero) = negsuc zero
predecessor (pos (suc n)) = pos n
predecessor (negsuc n) = negsuc (suc n)

-- max(domain_min, min(domain_max, 1))
abbrev pub anchor_of : HypothesisContext → ℤ
anchor_of c = int_max c.domain_min (int_min c.domain_max (pos 1))

-- The order of (len(set(inputs)), label).
abbrev pub test_less : List ℤ × String → List ℤ × String → Bool
unfolding text_ltb
test_less s t =
    let m = length (unique s.0) in
    let n = length (unique t.0) in
    if ltb m n then true else if ltb n m then false else text_ltb s.1 t.1

-- The inputs with the values at single positions moved to the anchor.
unfoldable pub shrinks : (anchor : ℤ) (permuted before after : List ℤ) → List (List ℤ)
shrinks anchor permuted before [] = []
shrinks anchor permuted before (v ∷ after) =
    let rest = shrinks anchor permuted (before ++ v ∷ []) after in
    if not (nat_beq (count (λ x. x == v) permuted) 1) || v == anchor
    then rest
    else (before ++ anchor ∷ after) ∷ rest

unfoldable pub in_domain : HypothesisContext → ℤ → Bool
in_domain c v = not (int_ltb v c.domain_min) && not (int_ltb c.domain_max v)

unfoldable pub boundary_values : HypothesisContext → List ℤ
boundary_values c = unique (
    c.domain_min
    ∷ int_min c.domain_max (successor c.domain_min)
    ∷ c.domain_max
    ∷ int_max c.domain_min (predecessor c.domain_max)
    ∷ pos 0
    ∷ anchor_of c
    ∷ [])

unfoldable pub boundaries : HypothesisContext → List ℤ
unfolding in_domain boundary_values
boundaries c = sort_by int_ltb (filter (in_domain c) (boundary_values c))

-- The order of (sum of magnitudes, largest magnitude, values).
unfoldable pub case_less : List ℤ → List ℤ → Bool
unfolding tuple_ltb
case_less s t =
    if ltb (magnitude s) (magnitude t)
    then true
    else if ltb (magnitude t) (magnitude s)
    then false
    else if ltb (largest s) (largest t)
    then true
    else if ltb (largest t) (largest s)
    then false
    else tuple_ltb s t

-- sorted(set(permutations(inputs)))
unfoldable pub permuted_inputs : List ℤ → List (List ℤ)
unfolding permutations tuple_ltb
permuted_inputs inputs = sort_by tuple_ltb (unique_tuples (permutations inputs))

module _ (generator : Option String) where
  abbrev pub permuted_candidate : (label : String) (permuted : List ℤ) → Candidate
  permuted_candidate label permuted = record {
    inputs = permuted;
    rationale = "Permute the instructor case labelled '" ++ₛ label ++ₛ "'.";
    misconception = "input-order blind spot";
    generator = generator;
  }

  abbrev pub shrunk_candidate : (shrunk : List ℤ) → Candidate
  shrunk_candidate shrunk = record {
    inputs = shrunk;
    rationale = "Preserve the equality pattern while shrinking its distinct input.";
    misconception = "order and magnitude interaction";
    generator = generator;
  }

  unfoldable pub candidates_of :
      (anchor : ℤ) (test : List ℤ × String) (permuted : List ℤ) → List Candidate
  unfolding shrinks
  candidates_of anchor test permuted =
      if permuted == test.0
      then []
      else permuted_candidate test.1 permuted
        ∷ map shrunk_candidate (shrinks anchor permuted [] permuted)

  unfoldable pub test_candidates : HypothesisContext → List ℤ × String → List Candidate
  unfolding candidates_of permuted_inputs
  test_candidates c test = concat (map (candidates_of (anchor_of c) test) (permuted_inputs test.0))

  -- PermutationGenerator.generate
  unfoldable pub permutation_candidates : HypothesisContext → List Candidate
  unfolding test_candidates test_less
  permutation_candidates c = concat (map (test_candidates c) (sort_by test_less c.existing_tests))

  abbrev pub boundary_case : List ℤ → Candidate
  boundary_case values = record {
    inputs = values;
    rationale = "Combine declared domain boundaries across every input position.";
    misconception = "boundary interaction";
    generator = generator;
  }

  -- BoundaryGenerator.generate; the key of the empty tuple is the maximum of nothing.
  unfoldable pub boundary_candidates : HypothesisContext → Result (List Candidate)
  unfolding case_less boundaries product
  boundary_candidates c =
      if nat_beq (length c.input_names) 0
      then raised (value_error "max() iterable argument is empty")
      else ok
          (map boundary_case (sort_by case_less (product (boundaries c) (length c.input_names))))

-- The inputs seen and the candidates selected so far.
pub record Picked : Type 0 where
  pub seen : List (List ℤ)
  pub selected : List Candidate

abbrev pub add : Candidate → Picked → Picked
add c p = record { seen = c.inputs ∷ p.seen; selected = p.selected ++ c ∷ [] }

-- One loop over candidates; `full` tells from the count of the selected ones when it breaks.
unfoldable pub pick : (full : ℕ → Bool) → List Candidate → Picked → Picked
pick full [] p = p
pick full (c ∷ cs) p =
    let known = contains c.inputs p.seen in
    let q = if known then p else add c p in
    let rest = pick full cs q in if not known && full (length q.selected) then q else rest

abbrev pub existing : HypothesisContext → List (List ℤ)
existing c = map (λ t. t.0) c.existing_tests

-- One hypothesis; `shown` is `str` of a number.
abbrev pub numbered : (shown : ℕ → String) (index : ℕ) → Candidate → AttackHypothesis
numbered shown index c = record {
  id = "hypothesis-" ++ₛ shown (suc index);
  inputs = c.inputs;
  rationale = c.rationale;
  misconception = c.misconception;
  provider = Provider.deterministic_fallback;
  generator = c.generator;
}

-- The hypotheses with their numbers from `index` on.
unfoldable pub number_from :
    (shown : ℕ → String) (index : ℕ) → List Candidate → List AttackHypothesis
number_from shown index [] = []
number_from shown index (c ∷ cs) = numbered shown index c ∷ number_from shown (suc index) cs

-- CandidateGenerator.generate, where an exception comes before the first candidate.
abbrev pub Generate : Type 0
Generate = HypothesisContext → List SurvivorHint → Result (List Candidate)

pub record GeneratorScheduler : Type 0 where
  pub generators : List Generate
  pub budget : ℕ

unfoldable pub new_scheduler : List Generate → (budget : ℕ) → Result GeneratorScheduler
new_scheduler generators budget =
    if ltb budget 1
    then raised (value_error "candidate budget must be at least one")
    else ok (record { generators = generators; budget = budget })

-- The loop over the generators, which stops when the budget is spent.
unfoldable pub run_generators :
    (budget : ℕ) → HypothesisContext → List SurvivorHint → List Generate → Picked → Result Picked
unfolding pick
run_generators budget c survivors [] p = ok p
run_generators budget c survivors (generate ∷ rest) p =
    if leb budget (length p.selected)
    then ok p
    else (generate c survivors >>= λ candidates.
        run_generators budget c survivors rest (pick (leb budget) candidates p))

unfoldable pub propose :
    (shown : ℕ → String)
    → GeneratorScheduler
    → HypothesisContext
    → List SurvivorHint
    → Result (List AttackHypothesis)
unfolding run_generators number_from
propose shown s c survivors =
    run_generators s.budget c survivors s.generators (record { seen = existing c; selected = [] })
    >>= λ p. ok (number_from shown 0 p.selected)

unfoldable pub deterministic_scheduler : (budget : ℕ) → Result GeneratorScheduler
unfolding new_scheduler permutation_candidates boundary_candidates
deterministic_scheduler budget =
    new_scheduler
      ((λ c survivors. ok (permutation_candidates (some "permutation") c))
        ∷ (λ c survivors. boundary_candidates (some "boundary") c)
        ∷ [])
      budget
