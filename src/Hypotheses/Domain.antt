-- ===== src/Hypotheses/Domain.antt =====
-- The inputs that the boundaries give (BoundaryGenerator.generate of
-- src/coursefuzz/adapters/generators.py).
use mathlib.Core.Path.{subst}
use course_fuzz.Prelude.{
  ℕ, zero, suc, ℤ, String, Bool, true, Option, List, [], ◌∷◌, map, filter, length, All, All-append,
  nat_beq, ◌≡◌, refl, ap, inl, inr, Bool-cases, int_ltb,
}
use course_fuzz.Prelude.Result.{ok, ok-injective}
use course_fuzz.Models.{HypothesisContext}
use course_fuzz.Hypotheses.{
  Candidate, concat, put_by, sort_by, product, in_domain, boundaries, case_less, boundary_case,
  boundary_candidates, boundary_values,
}

module _ {A : Type 0} (P : A → Type 0) (less : A → A → Bool) where
  All-put_by : (a : A) (xs : List A) → P a → All P xs → All P (put_by less a xs)
  All-put_by a [] p h = (p, tt)
  All-put_by a (x ∷ xs) p h = elim (Bool-cases (less x a)) [
    | inl e ↦ rw e (h.0, All-put_by a xs p h.1)
    | inr e ↦ rw e (p, h)
  ]

  All-sort_by : (xs : List A) → All P xs → All P (sort_by less xs)
  All-sort_by [] h = tt
  All-sort_by (x ∷ xs) h = All-put_by x (sort_by less xs) h.0 (All-sort_by xs h.1)

All-filter : {A : Type 0} (q : A → Bool) (xs : List A) → All (λ x. q x ≡ true) (filter q xs)
All-filter q [] = tt
All-filter q (x ∷ xs) = elim (Bool-cases (q x)) [
  | inl e ↦ rw e (e, All-filter q xs)
  | inr e ↦ rw e (All-filter q xs)
]

All-map :
    {A B : Type 0} (P : B → Type 0) (f : A → B) (xs : List A)
    → All (λ x. P (f x)) xs
    → All P (map f xs)
All-map P f [] h = tt
All-map P f (x ∷ xs) h = (h.0, All-map P f xs h.1)

All-weaken :
    {A : Type 0} (P Q : A → Type 0) (xs : List A) → ((x : A) → P x → Q x) → All P xs → All Q xs
All-weaken P Q [] f h = tt
All-weaken P Q (x ∷ xs) f h = (f x h.0, All-weaken P Q xs f h.1)

-- A tuple of `n` values that satisfy a property.
abbrev Tuple : (ℤ → Type 0) → ℕ → List ℤ → Type 0
Tuple P n values = (length values ≡ n) × All P values

-- Every value in front of every tuple.
heads-Tuple :
    (P : ℤ → Type 0) (n : ℕ) (tails : List (List ℤ))
    → All (Tuple P n) tails
    → (vs : List ℤ) → All P vs
    → All (Tuple P (suc n)) (concat (map (λ v. map (λ t. v ∷ t) tails) vs))
heads-Tuple P n tails h [] k = tt
heads-Tuple P n tails h (v ∷ vs) k =
    All-append (Tuple P (suc n)) (map (λ t. v ∷ t) tails) _
      (All-map (Tuple P (suc n)) (λ t. v ∷ t) tails
        (All-weaken (Tuple P n) _ tails (λ t p. (ap suc p.0, (k.0, p.1))) h))
      (heads-Tuple P n tails h vs k.1)

product-Tuple :
    (P : ℤ → Type 0) (values : List ℤ) (n : ℕ) → All P values → All (Tuple P n) (product values n)
unfolding product
product-Tuple P values zero h = ((refl, tt), tt)
product-Tuple P values (suc n) h =
    heads-Tuple P n (product values n) (product-Tuple P values n h) values h

boundaries-in_domain : (c : HypothesisContext) → All (λ v. in_domain c v ≡ true) (boundaries c)
unfolding boundaries
boundaries-in_domain c =
    All-sort_by (λ v. in_domain c v ≡ true) int_ltb (filter (in_domain c) (boundary_values c))
      (All-filter (in_domain c) (boundary_values c))

-- Each boundary candidate has one value for each input of the assignment, and every value lies in
-- the assignment's domain.
pub boundary_candidates-in_domain :
    (generator : Option String) (c : HypothesisContext) (cs : List Candidate)
    → boundary_candidates generator c ≡ ok cs
    → All
        (λ x. (length x.inputs ≡ length c.input_names) × All (λ v. in_domain c v ≡ true) x.inputs)
        cs
unfolding boundary_candidates
boundary_candidates-in_domain generator c cs h =
    elim (Bool-cases (nat_beq (length c.input_names) 0)) [
      | inl e ↦ cc (rw e at h)
      | inr e ↦
          let P : ℤ → Type 0 = λ v. in_domain c v ≡ true in
          let tuples =
            All-sort_by (Tuple P (length c.input_names)) case_less _
              (product-Tuple P (boundaries c) (length c.input_names) (boundaries-in_domain c)) in
          subst (All (λ x. Tuple P (length c.input_names) x.inputs)) (ok-injective _ _ (rw e at h))
            (All-map _ (boundary_case generator) _ tuples)
    ]
