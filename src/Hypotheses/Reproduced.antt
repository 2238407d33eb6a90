-- ===== src/Hypotheses/Reproduced.antt =====
-- The default scheduler and the deterministic provider (deterministic_scheduler of
-- src/coursefuzz/adapters/generators.py, DeterministicHypothesisProvider.propose of
-- src/coursefuzz/adapters/hypotheses.py).
use course_fuzz.Prelude.{
  ℕ, suc, ◌<◌, ℤ, int_eq, String, Bool, false, Option, none, some, List, [], ◌∷◌, ◌++◌, map, length,
  length-append, length-map, contains, leb, nat_beq, ◌==◌, list_eq, if◌then◌else◌, ◌≡◌, refl, sym,
  ap, ◌∙◌, inl, inr, Bool-cases, arith,
}
use course_fuzz.Prelude.Result.{Result, ok, ◌>>=◌}
use course_fuzz.Models.{AttackHypothesis, HypothesisContext, SurvivorHint}
use course_fuzz.Hypotheses.{
  Candidate, Picked, add, pick, existing, number_from, new_scheduler, run_generators, propose,
  candidates_of, shrinks, test_candidates, permuted_inputs, test_less, anchor_of, sort_by, numbered,
  boundaries, case_less, product, permuted_candidate, shrunk_candidate, permutation_candidates,
  boundary_candidates, boundary_case, deterministic_scheduler,
}
use course_fuzz.Hypotheses.Deterministic.{deterministic_propose}
use course_fuzz.Hypotheses.Pooled.{
  map-append, map-concat, map-map, pooled_propose, deterministic_propose-pooled,
}
use course_fuzz.Hypotheses.Pick.{pick-known, pick-last, pick-next}

-- Without the name of a generator.
abbrev anonymous : Candidate → Candidate
anonymous c = record c { generator = none }

abbrev pub anonymous_hypothesis : AttackHypothesis → AttackHypothesis
anonymous_hypothesis h = record h { generator = none }

abbrev anonymous_picked : Picked → Picked
anonymous_picked p = record { seen = p.seen; selected = map anonymous p.selected }

candidates_of-anonymous :
    (name : Option String) (anchor : ℤ) (test : List ℤ × String) (permuted : List ℤ)
    → map anonymous (candidates_of name anchor test permuted)
      ≡ candidates_of none anchor test permuted
unfolding candidates_of
candidates_of-anonymous name anchor test permuted = elim (Bool-cases (permuted == test.0)) [
  | inl e ↦ rw e refl
  | inr e ↦ rw e (
      ap (λ t. permuted_candidate none test.1 permuted ∷ t)
        (map-map anonymous (shrunk_candidate name) (shrinks anchor permuted [] permuted)))
]

test_candidates-anonymous :
    (name : Option String) (c : HypothesisContext) (test : List ℤ × String)
    → map anonymous (test_candidates name c test) ≡ test_candidates none c test
unfolding test_candidates
test_candidates-anonymous name c test =
    map-concat anonymous (candidates_of name (anchor_of c) test)
      (candidates_of none (anchor_of c) test) (permuted_inputs test.0)
      (candidates_of-anonymous name (anchor_of c) test)

permutation_candidates-anonymous :
    (name : Option String) (c : HypothesisContext)
    → map anonymous (permutation_candidates name c) ≡ permutation_candidates none c
unfolding permutation_candidates
permutation_candidates-anonymous name c =
    map-concat anonymous (test_candidates name c) (test_candidates none c)
      (sort_by test_less c.existing_tests) (test_candidates-anonymous name c)

boundary_candidates-anonymous :
    (name : Option String) (cs : List (List ℤ))
    → map anonymous (map (boundary_case name) cs) ≡ map (boundary_case none) cs
boundary_candidates-anonymous name cs = map-map anonymous (boundary_case name) cs

add-anonymous :
    (c : Candidate) (p : Picked)
    → add (anonymous c) (anonymous_picked p) ≡ anonymous_picked (add c p)
add-anonymous c p =
    ap (λ t. record { seen = c.inputs ∷ p.seen; selected = t })
      (sym (map-append anonymous p.selected (c ∷ [])))

length-anonymous :
    (c : Candidate) (p : Picked)
    → length (add (anonymous c) (anonymous_picked p)).selected ≡ length (add c p).selected
length-anonymous c p =
    ap (λ (q : Picked). length q.selected) (add-anonymous c p)
    ∙ length-map anonymous (add c p).selected

-- A loop over candidates whose names are taken away.
pick-anonymous :
    (full : ℕ → Bool) (cs : List Candidate) (p : Picked)
    → pick full (map anonymous cs) (anonymous_picked p) ≡ anonymous_picked (pick full cs p)
unfolding pick
pick-anonymous full [] p = refl
pick-anonymous full (c ∷ cs) p = elim (Bool-cases (contains c.inputs p.seen)) [
  | inl e ↦
      pick-known full (anonymous c) (map anonymous cs) (anonymous_picked p) e
      ∙ pick-anonymous full cs p
      ∙ ap anonymous_picked (sym (pick-known full c cs p e))
  | inr e ↦ elim (Bool-cases (full (length (add c p).selected))) [
    | inl f ↦
        pick-last full (anonymous c) (map anonymous cs) (anonymous_picked p) e
          (ap full (length-anonymous c p) ∙ f)
        ∙ add-anonymous c p
        ∙ ap anonymous_picked (sym (pick-last full c cs p e f))
    | inr f ↦
        pick-next full (anonymous c) (map anonymous cs) (anonymous_picked p) e
          (ap full (length-anonymous c p) ∙ f)
        ∙ ap (pick full (map anonymous cs)) (add-anonymous c p)
        ∙ pick-anonymous full cs (add c p)
        ∙ ap anonymous_picked (sym (pick-next full c cs p e f))
  ]
]

-- A second loop, unless the first was full.
abbrev resume : (full : ℕ → Bool) → List Candidate → Picked → Picked
resume full ys q = if full (length q.selected) then q else pick full ys q

-- One loop over two lists is a loop over the first and then over the second.
pick-append :
    (full : ℕ → Bool) (xs ys : List Candidate) (p : Picked)
    → full (length p.selected) ≡ false
    → pick full (xs ++ ys) p ≡ resume full ys (pick full xs p)
unfolding pick
pick-append full [] ys p h = rw h refl
pick-append full (x ∷ xs) ys p h = elim (Bool-cases (contains x.inputs p.seen)) [
  | inl e ↦
      pick-known full x (xs ++ ys) p e
      ∙ pick-append full xs ys p h
      ∙ ap (resume full ys) (sym (pick-known full x xs p e))
  | inr e ↦ elim (Bool-cases (full (length (add x p).selected))) [
    | inl f ↦
        let stop : resume full ys (add x p) ≡ add x p = rw f refl in
        pick-last full x (xs ++ ys) p e f
        ∙ sym stop
        ∙ ap (resume full ys) (sym (pick-last full x xs p e f))
    | inr f ↦
        pick-next full x (xs ++ ys) p e f
        ∙ pick-append full xs ys (add x p) f
        ∙ ap (resume full ys) (sym (pick-next full x xs p e f))
  ]
]

abbrev eight : ℕ → Bool
eight n = nat_beq n 8

-- The provider stops at eight, the scheduler at eight or more.
pick-eight :
    (cs : List Candidate) (p : Picked) → length p.selected < 8 → pick eight cs p ≡ pick (leb 8) cs p
unfolding pick
pick-eight [] p h = refl
pick-eight (c ∷ cs) p h =
    let l : length (add c p).selected ≡ suc (length p.selected) =
      omega (arith, length-append p.selected (c ∷ [])) in
    elim (Bool-cases (contains c.inputs p.seen)) [
      | inl e ↦ pick-known eight c cs p e ∙ pick-eight cs p h ∙ sym (pick-known (leb 8) c cs p e)
      | inr e ↦ elim (Bool-cases (leb 8 (length (add c p).selected))) [
        | inl f ↦ pick-last eight c cs p e (ground (arith, l)) ∙ sym (pick-last (leb 8) c cs p e f)
        | inr f ↦
            pick-next eight c cs p e (ground (arith, l))
            ∙ pick-eight cs (add c p) (ground (arith, l))
            ∙ sym (pick-next (leb 8) c cs p e f)
      ]
    ]

number_from-anonymous :
    (shown : ℕ → String) (n : ℕ) (cs : List Candidate)
    → map anonymous_hypothesis (number_from shown n cs) ≡ number_from shown n (map anonymous cs)
unfolding number_from
number_from-anonymous shown n [] = refl
number_from-anonymous shown n (c ∷ cs) =
    ap (λ t. numbered shown n (anonymous c) ∷ t) (number_from-anonymous shown (suc n) cs)

module _ (shown : ℕ → String) (c : HypothesisContext) (survivors : List SurvivorHint) where
  abbrev start : Picked
  start = record { seen = existing c; selected = [] }

  -- The scheduler with the two default generators, when the second can make its candidates.
  run_default :
      (boundary : List Candidate)
      → boundary_candidates (some "boundary") c ≡ ok boundary
      → run_generators 8 c survivors
          ((λ d s. ok (permutation_candidates (some "permutation") d))
            ∷ (λ d s. boundary_candidates (some "boundary") d)
            ∷ [])
          start
        ≡ ok (
            resume
              (leb 8)
              boundary
              (pick (leb 8) (permutation_candidates (some "permutation") c) start))
  unfolding run_generators
  run_default boundary h =
      let q = pick (leb 8) (permutation_candidates (some "permutation") c) start in
      elim (Bool-cases (leb 8 (length q.selected))) [ inl e ↦ rw e refl | inr e ↦ rw (e, h) refl ]

  -- What both select, without the names of the generators.
  selected-agree :
      (cases : List (List ℤ))
      → map anonymous
          (resume
            (leb 8)
            (map (boundary_case (some "boundary")) cases)
            (pick (leb 8) (permutation_candidates (some "permutation") c) start)).selected
        ≡ (pick eight
            (permutation_candidates none c ++ map (boundary_case none) cases)
            start).selected
  selected-agree cases =
      let first = permutation_candidates (some "permutation") c in
      let second = map (boundary_case (some "boundary")) cases in
      let names : map anonymous (first ++ second)
          ≡ permutation_candidates none c ++ map (boundary_case none) cases =
        map-append anonymous first second
        ∙ ap (λ t. t ++ map anonymous second)
            (permutation_candidates-anonymous (some "permutation") c)
        ∙ ap (λ t. permutation_candidates none c ++ t)
            (boundary_candidates-anonymous (some "boundary") cases) in
      ap (λ (q : Picked). map anonymous q.selected)
        (sym (pick-append (leb 8) first second start refl))
      ∙ ap (λ (q : Picked). q.selected) (sym (pick-anonymous (leb 8) (first ++ second) start))
      ∙ ap (λ t. (pick (leb 8) t start).selected) names
      ∙ ap (λ (q : Picked). q.selected)
          (sym (
            pick-eight (permutation_candidates none c ++ map (boundary_case none) cases) start
              (omega arith)))

boundary_cases : HypothesisContext → List (List ℤ)
boundary_cases c = sort_by case_less (product (boundaries c) (length c.input_names))

boundary_candidates-eq-ok :
    (name : Option String) (c : HypothesisContext)
    → 0 < length c.input_names
    → boundary_candidates name c ≡ ok (map (boundary_case name) (boundary_cases c))
unfolding boundary_candidates boundary_cases
boundary_candidates-eq-ok name c h =
    let e : nat_beq (length c.input_names) 0 ≡ false = ground arith in rw e refl

-- For an assignment with inputs, the default scheduler with a budget of eight proposes what the
-- deterministic provider proposes, candidate for candidate, but for the generators' names.
pub deterministic_scheduler-deterministic_propose :
    (shown : ℕ → String) (c : HypothesisContext) (survivors : List SurvivorHint)
    → 0 < length c.input_names
    → (deterministic_scheduler 8 >>= λ s.
        propose shown s c survivors >>= λ hs. ok (map anonymous_hypothesis hs))
      ≡ deterministic_propose shown c survivors
unfolding deterministic_scheduler new_scheduler propose pooled_propose
deterministic_scheduler-deterministic_propose shown c survivors h =
    let cases = boundary_cases c in
    let ran =
      run_default shown c survivors (map (boundary_case (some "boundary")) cases)
        (boundary_candidates-eq-ok (some "boundary") c h) in
    let finish : Result Picked → Result (List AttackHypothesis) = λ r.
      (r >>= λ p. ok (number_from shown 0 p.selected)) >>= λ hs. ok (map anonymous_hypothesis hs) in
    let provide : Result (List Candidate) → Result (List AttackHypothesis) = λ r. r >>= λ boundary.
    ok (
      number_from shown 0
        (pick eight (permutation_candidates none c ++ boundary)
          (start shown c survivors)).selected) in
    ap finish ran
    ∙ ap ok (
        number_from-anonymous shown 0 _
        ∙ ap (number_from shown 0) (selected-agree shown c survivors cases))
    ∙ ap provide (sym (boundary_candidates-eq-ok none c h))
    ∙ sym (deterministic_propose-pooled shown c survivors)
