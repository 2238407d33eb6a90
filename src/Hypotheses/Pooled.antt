-- ===== src/Hypotheses/Pooled.antt =====
-- The deterministic provider's items (src/coursefuzz/adapters/hypotheses.py) as candidates of the
-- generators (src/coursefuzz/adapters/generators.py).
use course_fuzz.Prelude.{
  ℕ, suc, ℤ, int_eq, String, Bool, true, false, not, none, List, [], ◌∷◌, ◌++◌, map, length,
  length-map, count, contains, nat_beq, ◌==◌, ◌||◌, list_eq, ◌≡◌, refl, sym, ap, ◌∙◌, inl, inr,
  Bool-cases,
}
use course_fuzz.Prelude.Result.{Result, ok, ◌>>=◌}
use course_fuzz.Models.{AttackHypothesis, HypothesisContext, SurvivorHint}
use course_fuzz.Hypotheses.{
  Candidate, Picked, add, pick, existing, number_from, concat, candidates_of, shrinks,
  test_candidates, permuted_inputs, test_less, anchor_of, sort_by, numbered, boundaries,
  boundary_values, in_domain, case_less, product, shrunk_candidate, permuted_candidate,
  permutation_candidates, boundary_candidates, boundary_case,
}
use course_fuzz.Hypotheses.Deterministic.{
  Item, ordered_less, shrunk_items, permuted_items, test_items, boundary_set, values_less,
  boundary_items, select, hypotheses_from, deterministic_propose,
}
use course_fuzz.Hypotheses.Pick.{pick-known, pick-last, pick-next}

pub map-append :
    {A B : Type 0} (f : A → B) (xs ys : List A) → map f (xs ++ ys) ≡ map f xs ++ map f ys
map-append f [] ys = refl
map-append f (x ∷ xs) ys = ap (λ t. f x ∷ t) (map-append f xs ys)

-- Mapping over what is made for each entry.
pub map-concat :
    {A B C : Type 0} (f : B → C) (g : A → List B) (h : A → List C) (xs : List A)
    → ((x : A) → map f (g x) ≡ h x)
    → map f (concat (map g xs)) ≡ concat (map h xs)
map-concat f g h [] e = refl
map-concat f g h (x ∷ xs) e =
    map-append f (g x) (concat (map g xs))
    ∙ ap (λ t. t ++ map f (concat (map g xs))) (e x)
    ∙ ap (λ t. h x ++ t) (map-concat f g h xs e)

pub map-map :
    {A B C : Type 0} (f : B → C) (g : A → B) (xs : List A)
    → map f (map g xs) ≡ map (λ x. f (g x)) xs
map-map f g [] = refl
map-map f g (x ∷ xs) = ap (λ t. f (g x) ∷ t) (map-map f g xs)

-- What the generators' candidates without names give, when one loop takes the first eight.
unfoldable pub pooled_propose :
    (shown : ℕ → String) → HypothesisContext → List SurvivorHint → Result (List AttackHypothesis)
pooled_propose shown c survivors = boundary_candidates none c >>= λ boundary. ok (
    number_from shown 0
      (pick (λ n. nat_beq n 8) (permutation_candidates none c ++ boundary)
        (record { seen = existing c; selected = [] })).selected)

abbrev as_candidate : Item → Candidate
as_candidate item = record {
  inputs = item.0;
  rationale = item.1;
  misconception = item.2;
  generator = none;
}

shrunk_items-shrinks :
    (anchor : ℤ) (permuted before after : List ℤ)
    → map as_candidate (shrunk_items anchor permuted before after)
      ≡ map (shrunk_candidate none) (shrinks anchor permuted before after)
unfolding shrunk_items shrinks
shrunk_items-shrinks anchor permuted before [] = refl
shrunk_items-shrinks anchor permuted before (v ∷ after) =
    let rest = shrunk_items-shrinks anchor permuted (before ++ v ∷ []) after in
    elim (Bool-cases (not (nat_beq (count (λ x. x == v) permuted) 1) || v == anchor)) [
      | inl e ↦ rw e rest
      | inr e ↦ rw e (ap (λ t. shrunk_candidate none (before ++ anchor ∷ after) ∷ t) rest)
    ]

permuted_items-candidates_of :
    (c : HypothesisContext) (test : List ℤ × String) (permuted : List ℤ)
    → map as_candidate (permuted_items c test permuted)
      ≡ candidates_of none (anchor_of c) test permuted
unfolding permuted_items candidates_of
permuted_items-candidates_of c test permuted = elim (Bool-cases (permuted == test.0)) [
  | inl e ↦ rw e refl
  | inr e ↦ rw e (
      ap (λ t. permuted_candidate none test.1 permuted ∷ t)
        (shrunk_items-shrinks (anchor_of c) permuted [] permuted))
]

test_items-candidates :
    (c : HypothesisContext) (test : List ℤ × String)
    → map as_candidate (test_items c test) ≡ test_candidates none c test
unfolding test_items test_candidates permuted_inputs
test_items-candidates c test =
    map-concat as_candidate (permuted_items c test) (candidates_of none (anchor_of c) test) _
      (permuted_items-candidates_of c test)

ordered-candidates :
    (c : HypothesisContext)
    → map as_candidate (concat (map (test_items c) (sort_by ordered_less c.existing_tests)))
      ≡ permutation_candidates none c
unfolding permutation_candidates test_less ordered_less
ordered-candidates c =
    map-concat as_candidate (test_items c) (test_candidates none c) _ (test_items-candidates c)

boundary_items-candidates :
    (c : HypothesisContext)
    → map as_candidate (boundary_items c)
      ≡ map (boundary_case none) (sort_by case_less (product (boundaries c) (length c.input_names)))
unfolding boundary_items boundary_set boundaries boundary_values in_domain values_less case_less
boundary_items-candidates c = map-map as_candidate _ _

items-candidates :
    (c : HypothesisContext)
    → map as_candidate
        (concat (map (test_items c) (sort_by ordered_less c.existing_tests)) ++ boundary_items c)
      ≡ permutation_candidates none c
        ++ map
            (boundary_case none)
            (sort_by case_less (product (boundaries c) (length c.input_names)))
items-candidates c =
    map-append as_candidate _ (boundary_items c)
    ∙ ap (λ t. t ++ map as_candidate (boundary_items c)) (ordered-candidates c)
    ∙ ap (λ t. permutation_candidates none c ++ t) (boundary_items-candidates c)

module _ (item : Item) (items : List Item) (seen : List (List ℤ)) (selected : List Item) where
  select-known :
      contains item.0 seen ≡ true → select (item ∷ items) seen selected ≡ select items seen selected
  unfolding select
  select-known e = rw e refl

  select-last :
      contains item.0 seen ≡ false
      → nat_beq (length (selected ++ item ∷ [])) 8 ≡ true
      → select (item ∷ items) seen selected ≡ selected ++ item ∷ []
  unfolding select
  select-last e f = rw (e, f) refl

  select-next :
      contains item.0 seen ≡ false
      → nat_beq (length (selected ++ item ∷ [])) 8 ≡ false
      → select (item ∷ items) seen selected ≡ select items (item.0 ∷ seen) (selected ++ item ∷ [])
  unfolding select
  select-next e f = rw (e, f) refl

select-pick :
    (items : List Item) (seen : List (List ℤ)) (selected : List Item)
    → map as_candidate (select items seen selected)
      ≡ (pick
          (λ n. nat_beq n 8)
          (map as_candidate items)
          (record { seen = seen; selected = map as_candidate selected })).selected
unfolding select pick
select-pick [] seen selected = refl
select-pick (item ∷ items) seen selected =
    let p : Picked = record { seen = seen; selected = map as_candidate selected } in
    let full : ℕ → Bool = λ n. nat_beq n 8 in
    let more : map as_candidate (selected ++ item ∷ []) ≡ (add (as_candidate item) p).selected =
      map-append as_candidate selected (item ∷ []) in
    let n : length (add (as_candidate item) p).selected ≡ length (selected ++ item ∷ []) =
      ap length (sym more) ∙ length-map as_candidate (selected ++ item ∷ []) in
    elim (Bool-cases (contains item.0 seen)) [
      | inl e ↦
          ap (map as_candidate) (select-known item items seen selected e)
          ∙ select-pick items seen selected
          ∙ ap (λ (q : Picked). q.selected)
              (sym (pick-known full (as_candidate item) (map as_candidate items) p e))
      | inr e ↦ elim (Bool-cases (nat_beq (length (selected ++ item ∷ [])) 8)) [
        | inl f ↦
            ap (map as_candidate) (select-last item items seen selected e f)
            ∙ (more
                ∙ ap (λ (q : Picked). q.selected)
                    (sym (
                      pick-last full (as_candidate item) (map as_candidate items) p e
                        (ap full n ∙ f))))
        | inr f ↦
            ap (map as_candidate) (select-next item items seen selected e f)
            ∙ (select-pick items (item.0 ∷ seen) (selected ++ item ∷ [])
                ∙ ap
                    (λ t.
                      (pick full (map as_candidate items)
                        (record { seen = item.0 ∷ seen; selected = t })).selected)
                    more
                ∙ ap (λ (q : Picked). q.selected)
                    (sym (
                      pick-next full (as_candidate item) (map as_candidate items) p e
                        (ap full n ∙ f))))
      ]
    ]

hypotheses_from-number_from :
    (shown : ℕ → String) (index : ℕ) (items : List Item)
    → hypotheses_from shown index items ≡ number_from shown index (map as_candidate items)
unfolding hypotheses_from number_from
hypotheses_from-number_from shown index [] = refl
hypotheses_from-number_from shown index (item ∷ items) =
    ap (λ t. numbered shown index (as_candidate item) ∷ t)
      (hypotheses_from-number_from shown (suc index) items)

pub deterministic_propose-pooled :
    (shown : ℕ → String) (c : HypothesisContext) (survivors : List SurvivorHint)
    → deterministic_propose shown c survivors ≡ pooled_propose shown c survivors
unfolding deterministic_propose pooled_propose boundary_candidates
deterministic_propose-pooled shown c survivors =
    elim (Bool-cases (nat_beq (length c.input_names) 0)) [
      | inl e ↦ rw e refl
      | inr e ↦ rw e (
          ap ok (
            hypotheses_from-number_from shown 0 _
            ∙ ap (number_from shown 0) (
                select-pick _ (existing c) []
                ∙ ap
                    (λ t.
                      (pick (λ n. nat_beq n 8) t
                        (record { seen = existing c; selected = [] })).selected)
                    (items-candidates c))))
    ]
