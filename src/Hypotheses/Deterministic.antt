-- ===== src/Hypotheses/Deterministic.antt =====
-- DeterministicHypothesisProvider of src/coursefuzz/adapters/hypotheses.py, which makes and selects
-- its candidates by itself.
use course_fuzz.Prelude.{
  ℕ, suc, ℤ, pos, int_ltb, int_eq, String, Bool, true, false, not, ◌&&◌, ◌||◌, none, List, [], ◌∷◌,
  ◌++◌, map, filter, length, count, contains, ltb, nat_beq, ◌==◌, list_eq, if◌then◌else◌,
}
use course_fuzz.Prelude.Text.{◌++ₛ◌, text_ltb}
use course_fuzz.Prelude.Result.{Result, ok, raised, value_error}
use course_fuzz.Models.{AttackHypothesis, Provider, HypothesisContext, SurvivorHint}
use course_fuzz.Engine.Select.{magnitude, largest, tuple_ltb}
use course_fuzz.Hypotheses.{
  concat, sort_by, unique, unique_tuples, permutations, product, int_min, int_max, successor,
  predecessor,
}

-- The inputs, the rationale and the misconception.
abbrev pub Item : Type 0
Item = List ℤ × String × String

-- The order of (len(set(item.inputs)), item.label).
unfoldable pub ordered_less : List ℤ × String → List ℤ × String → Bool
unfolding text_ltb
ordered_less a b =
    let m = length (unique a.0) in
    let n = length (unique b.0) in
    if ltb m n then true else if ltb n m then false else text_ltb a.1 b.1

-- The loop over the positions of `permuted`, of which `before` lie behind.
unfoldable pub shrunk_items : (anchor : ℤ) (permuted before after : List ℤ) → List Item
shrunk_items anchor permuted before [] = []
shrunk_items anchor permuted before (value ∷ after) =
    let rest = shrunk_items anchor permuted (before ++ value ∷ []) after in
    if not (nat_beq (count (λ x. x == value) permuted) 1) || value == anchor
    then rest
    else (
      before ++ anchor ∷ after,
      "Preserve the equality pattern while shrinking its distinct input.",
      "order and magnitude interaction",
    )
      ∷ rest

-- What one permutation of a test appends.
unfoldable pub permuted_items :
    HypothesisContext → (test : List ℤ × String) (permuted : List ℤ) → List Item
unfolding shrunk_items
permuted_items c test permuted =
    let anchor = int_max c.domain_min (int_min c.domain_max (pos 1)) in
    if not (permuted == test.0)
    then (
      permuted,
      "Permute the instructor case labelled '" ++ₛ test.1 ++ₛ "'.",
      "input-order blind spot",
    )
      ∷ shrunk_items anchor permuted [] permuted
    else []

unfoldable pub test_items : HypothesisContext → List ℤ × String → List Item
unfolding permuted_items permutations tuple_ltb
test_items c test =
    concat (map (permuted_items c test) (sort_by tuple_ltb (unique_tuples (permutations test.0))))

-- `boundaries`: a set, its intersection with the range of the domain, sorted.
unfoldable pub boundary_set : HypothesisContext → List ℤ
boundary_set c =
    let numbers =
      c.domain_min
      ∷ int_min c.domain_max (successor c.domain_min)
      ∷ c.domain_max
      ∷ int_max c.domain_min (predecessor c.domain_max)
      ∷ pos 0
      ∷ int_max c.domain_min (int_min c.domain_max (pos 1))
      ∷ [] in
    sort_by int_ltb
      (filter (λ v. not (int_ltb v c.domain_min) && not (int_ltb c.domain_max v)) (unique numbers))

-- The order of (sum of magnitudes, largest magnitude, values).
unfoldable pub values_less : List ℤ → List ℤ → Bool
unfolding tuple_ltb
values_less a b =
    if ltb (magnitude a) (magnitude b)
    then true
    else if ltb (magnitude b) (magnitude a)
    then false
    else if ltb (largest a) (largest b)
    then true
    else if ltb (largest b) (largest a)
    then false
    else tuple_ltb a b

unfoldable pub boundary_items : HypothesisContext → List Item
unfolding values_less boundary_set product
boundary_items c =
    map
      (λ values. (
        values, "Combine declared domain boundaries across every input position.",
        "boundary interaction",
      ))
      (sort_by values_less (product (boundary_set c) (length c.input_names)))

-- The loop that selects.
unfoldable pub select : List Item → (seen : List (List ℤ)) (selected : List Item) → List Item
select [] seen selected = selected
select (item ∷ items) seen selected =
    let known = contains item.0 seen in
    let seen' = if known then seen else item.0 ∷ seen in
    let selected' = if known then selected else selected ++ item ∷ [] in
    let rest = select items seen' selected' in
    if not known && nat_beq (length selected') 8 then selected' else rest

-- The hypotheses from `index` on; `shown` is `str` of a number.
unfoldable pub hypotheses_from :
    (shown : ℕ → String) (index : ℕ) → List Item → List AttackHypothesis
hypotheses_from shown index [] = []
hypotheses_from shown index ((inputs, rationale, misconception) ∷ items) =
    record {
      id = "hypothesis-" ++ₛ shown (suc index);
      inputs = inputs;
      rationale = rationale;
      misconception = misconception;
      provider = Provider.deterministic_fallback;
      generator = none;
    }
    ∷ hypotheses_from shown (suc index) items

-- DeterministicHypothesisProvider.propose; the key of the empty tuple is the maximum of nothing.
unfoldable pub deterministic_propose :
    (shown : ℕ → String) → HypothesisContext → List SurvivorHint → Result (List AttackHypothesis)
unfolding select hypotheses_from test_items boundary_items ordered_less
deterministic_propose shown c survivors =
    if nat_beq (length c.input_names) 0
    then raised (value_error "max() iterable argument is empty")
    else ok (
        hypotheses_from shown 0 (
          select
            (concat (map (test_items c) (sort_by ordered_less c.existing_tests))
              ++ boundary_items c)
            (map (λ t. t.0) c.existing_tests) []))
