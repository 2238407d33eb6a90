-- ===== src/Engine/Select.antt =====
-- The choice of one verified hypothesis: `min` by a key of five parts.
pub mod Best
use course_fuzz.Prelude.{
  ℕ, ◌+◌, ℤ, abs, int_ltb, int_beq, String, Bool, true, false, ◌||◌, List, [], ◌∷◌, length, any,
  max, ltb, if◌then◌else◌,
}
use course_fuzz.Prelude.Text.{text_ltb}
use course_fuzz.Prelude.Result.{Result, ok, raised, value_error}
use course_fuzz.Models.{HypothesisVerdict}

-- sum(abs(value) for value in inputs)
abbrev pub magnitude : List ℤ → ℕ
magnitude [] = 0
magnitude (v ∷ vs) = abs v + magnitude vs

-- max(abs(value) for value in inputs), of inputs that are not empty
abbrev pub largest : List ℤ → ℕ
largest [] = 0
largest (v ∷ vs) = max (abs v) (largest vs)

-- Tuples are compared entry by entry.
unfoldable pub tuple_ltb : List ℤ → List ℤ → Bool
tuple_ltb [] [] = false
tuple_ltb [] (y ∷ ys) = true
tuple_ltb (x ∷ xs) [] = false
tuple_ltb (x ∷ xs) (y ∷ ys) =
    let rest = tuple_ltb xs ys in if int_beq x y then rest else int_ltb x y

-- A comparison of keys part by part: the first part that differs decides.
abbrev by_part : ℕ → ℕ → Bool → Bool
by_part a b rest = if ltb a b then true else if ltb b a then false else rest

-- key(v) < key(w)
unfoldable pub key_ltb : HypothesisVerdict → HypothesisVerdict → Bool
unfolding tuple_ltb text_ltb
key_ltb v w = by_part (length w.killed_mutants) (length v.killed_mutants) (
    by_part (magnitude v.hypothesis.inputs) (magnitude w.hypothesis.inputs) (
      by_part (largest v.hypothesis.inputs) (largest w.hypothesis.inputs) (
        if tuple_ltb v.hypothesis.inputs w.hypothesis.inputs
        then true
        else if tuple_ltb w.hypothesis.inputs v.hypothesis.inputs
        then false
        else text_ltb v.hypothesis.id w.hypothesis.id)))

-- The first of the least entries.
least_from : HypothesisVerdict → List HypothesisVerdict → HypothesisVerdict
unfolding key_ltb
least_from best [] = best
least_from best (v ∷ vs) = least_from (if key_ltb v best then v else best) vs

is_empty : List ℤ → Bool
is_empty [] = true
is_empty (v ∷ vs) = false

-- The key of empty inputs is the maximum of nothing, which raises.
unfoldable pub select : List HypothesisVerdict → Result HypothesisVerdict
unfolding least_from is_empty
select [] = raised (value_error "min() arg is an empty sequence")
select (v ∷ vs) =
    if any (λ w. is_empty w.hypothesis.inputs) (v ∷ vs)
    then raised (value_error "max() arg is an empty sequence")
    else ok (least_from v vs)
