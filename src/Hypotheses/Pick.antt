-- ===== src/Hypotheses/Pick.antt =====
-- The loop that takes candidates in order (GeneratorScheduler.propose of
-- src/coursefuzz/adapters/generators.py).
use mathlib.Core.Path.{subst}
use course_fuzz.Prelude.{
  ℕ, suc, ◌≤◌, ◌<◌, ℤ, int_eq, Bool, true, false, ◌||◌, List, [], ◌∷◌, ◌++◌, map, any, length,
  length-append, contains, leb, All, Distinct, All-append, contains-ne, ◌==◌, list_eq, beq_refl,
  ◌≡◌, ◌≢◌, refl, sym, ap, ◌∙◌, inl, inr, Bool-cases, arith,
}
use course_fuzz.Hypotheses.{Candidate, Picked, add, pick}

abbrev pub inputs_of : List Candidate → List (List ℤ)
inputs_of cs = map (λ c. c.inputs) cs

module _ {A : Type 0} where
  any-append : (p : A → Bool) (xs ys : List A) → any p (xs ++ ys) ≡ (any p xs || any p ys)
  any-append p [] ys = refl
  any-append p (x ∷ xs) ys = ground (arith, any-append p xs ys)

  Distinct-append_one :
      (a : A) (xs : List A) → Distinct xs → All (λ x. x ≢ a) xs → Distinct (xs ++ a ∷ [])
  Distinct-append_one a [] d n = (tt, tt)
  Distinct-append_one a (x ∷ xs) d n =
      (All-append _ xs (a ∷ []) d.0 (n.0, tt), Distinct-append_one a xs d.1 n.1)

map-append : {A B : Type 0} (f : A → B) (xs ys : List A) → map f (xs ++ ys) ≡ map f xs ++ map f ys
map-append f [] ys = refl
map-append f (x ∷ xs) ys = ap (λ t. f x ∷ t) (map-append f xs ys)

All-flip : {A : Type 0} (a : A) (xs : List A) → All (λ x. a ≢ x) xs → All (λ x. x ≢ a) xs
All-flip a [] h = tt
All-flip a (x ∷ xs) h = (λ e. h.0 (sym e), All-flip a xs h.1)

-- What the loops keep: the inputs seen are those of the tests and of the selected candidates, which
-- are all different and no test's.
pub record Kept (tests : List (List ℤ)) (p : Picked) : Type 0 where
  pub seen :
      (x : List ℤ) → contains x p.seen ≡ (contains x tests || contains x (inputs_of p.selected))
  pub distinct : Distinct (inputs_of p.selected)
  pub fresh : All (λ c. contains c.inputs tests ≡ false) p.selected

module _ (tests : List (List ℤ)) where
  contains-add :
      (c : Candidate) (cs : List Candidate) (x : List ℤ)
      → contains x (inputs_of (cs ++ c ∷ [])) ≡ (contains x (inputs_of cs) || c.inputs == x)
  contains-add c cs x =
      ap (contains x) (map-append (λ d. d.inputs) cs (c ∷ []))
      ∙ any-append (λ y. y == x) (inputs_of cs) (c.inputs ∷ [])
      ∙ ground arith

  add-Kept :
      (c : Candidate) (p : Picked)
      → Kept tests p
      → contains c.inputs p.seen ≡ false
      → Kept tests (add c p)
  add-Kept c p k n =
      let out : contains c.inputs tests ≡ false = ground (arith, k.seen c.inputs) in
      let new : contains c.inputs (inputs_of p.selected) ≡ false =
        ground (arith, k.seen c.inputs) in
      record {
        seen = λ x. ground (arith, k.seen x, contains-add c p.selected x);
        distinct = subst Distinct (sym (map-append (λ d. d.inputs) p.selected (c ∷ []))) (
            Distinct-append_one c.inputs (inputs_of p.selected) k.distinct (
              All-flip c.inputs (inputs_of p.selected)
                (contains-ne c.inputs (inputs_of p.selected) new)));
        fresh = All-append _ p.selected (c ∷ []) k.fresh (out, tt);
      }

  pub pick-Kept :
      (full : ℕ → Bool) (cs : List Candidate) (p : Picked)
      → Kept tests p
      → Kept tests (pick full cs p)
  unfolding pick
  pick-Kept full [] p k = k
  pick-Kept full (c ∷ cs) p k = elim (Bool-cases (contains c.inputs p.seen)) [
    | inl e ↦ rw e (pick-Kept full cs p k)
    | inr e ↦ elim (Bool-cases (full (length (add c p).selected))) [
      | inl f ↦ rw (e, f) (add-Kept c p k e)
      | inr f ↦ rw (e, f) (pick-Kept full cs (add c p) (add-Kept c p k e))
    ]
  ]

pub pick-All :
    (P : Candidate → Type 0) (full : ℕ → Bool) (cs : List Candidate) (p : Picked)
    → All P cs
    → All P p.selected
    → All P (pick full cs p).selected
unfolding pick
pick-All P full [] p h k = k
pick-All P full (c ∷ cs) p h k = elim (Bool-cases (contains c.inputs p.seen)) [
  | inl e ↦ rw e (pick-All P full cs p h.1 k)
  | inr e ↦ elim (Bool-cases (full (length (add c p).selected))) [
    | inl f ↦ rw (e, f) (All-append P p.selected (c ∷ []) k (h.0, tt))
    | inr f ↦
        rw (e, f) (pick-All P full cs (add c p) h.1 (All-append P p.selected (c ∷ []) k (h.0, tt)))
  ]
]

length-add : (c : Candidate) (p : Picked) → length (add c p).selected ≡ suc (length p.selected)
length-add c p = omega (arith, length-append p.selected (c ∷ []))

-- A loop that begins below its budget ends within it.
pub length-pick :
    (budget : ℕ) (cs : List Candidate) (p : Picked)
    → length p.selected < budget
    → length (pick (leb budget) cs p).selected ≤ budget
unfolding pick
length-pick budget [] p h = omega arith
length-pick budget (c ∷ cs) p h = elim (Bool-cases (contains c.inputs p.seen)) [
  | inl e ↦ rw e (length-pick budget cs p h)
  | inr e ↦ elim (Bool-cases (leb budget (length (add c p).selected))) [
    | inl f ↦ rw (e, f) (ground (arith, length-add c p))
    | inr f ↦ rw (e, f) (length-pick budget cs (add c p) (ground arith))
  ]
]

-- Nothing that is selected is given up.
pub length-le-pick :
    (full : ℕ → Bool) (cs : List Candidate) (p : Picked)
    → length p.selected ≤ length (pick full cs p).selected
unfolding pick
length-le-pick full [] p = omega arith
length-le-pick full (c ∷ cs) p = elim (Bool-cases (contains c.inputs p.seen)) [
  | inl e ↦ rw e (length-le-pick full cs p)
  | inr e ↦ elim (Bool-cases (full (length (add c p).selected))) [
    | inl f ↦ rw (e, f) (omega (arith, length-add c p))
    | inr f ↦ rw (e, f) (omega (arith, length-add c p, length-le-pick full cs (add c p)))
  ]
]

-- What was seen stays seen.
pub pick-seen :
    (full : ℕ → Bool) (cs : List Candidate) (p : Picked) (x : List ℤ)
    → contains x p.seen ≡ true
    → contains x (pick full cs p).seen ≡ true
unfolding pick
pick-seen full [] p x h = h
pick-seen full (c ∷ cs) p x h = elim (Bool-cases (contains c.inputs p.seen)) [
  | inl e ↦ rw e (pick-seen full cs p x h)
  | inr e ↦ elim (Bool-cases (full (length (add c p).selected))) [
    | inl f ↦ rw (e, f) (ground arith)
    | inr f ↦ rw (e, f) (pick-seen full cs (add c p) x (ground arith))
  ]
]

module _ (full : ℕ → Bool) (c : Candidate) (cs : List Candidate) (p : Picked) where
  pub pick-known : contains c.inputs p.seen ≡ true → pick full (c ∷ cs) p ≡ pick full cs p
  unfolding pick
  pick-known e = rw e refl

  pub pick-last :
      contains c.inputs p.seen ≡ false
      → full (length (add c p).selected) ≡ true
      → pick full (c ∷ cs) p ≡ add c p
  unfolding pick
  pick-last e f = rw (e, f) refl

  pub pick-next :
      contains c.inputs p.seen ≡ false
      → full (length (add c p).selected) ≡ false
      → pick full (c ∷ cs) p ≡ pick full cs (add c p)
  unfolding pick
  pick-next e f = rw (e, f) refl

-- The candidates' inputs have been seen.
abbrev pub AllSeen : List Candidate → Picked → Type 0
AllSeen cs q = All (λ c. contains c.inputs q.seen ≡ true) cs

-- A loop that ends below its budget has seen every candidate.
pub pick-exhaustive :
    (budget : ℕ) (cs : List Candidate) (p : Picked)
    → length (pick (leb budget) cs p).selected < budget
    → AllSeen cs (pick (leb budget) cs p)
pick-exhaustive budget [] p h = tt
pick-exhaustive budget (c ∷ cs) p h = elim (Bool-cases (contains c.inputs p.seen)) [
  | inl e ↦
      let k = pick-known (leb budget) c cs p e in
      subst (AllSeen (c ∷ cs)) (sym k) (
        pick-seen (leb budget) cs p c.inputs e,
        pick-exhaustive budget cs p (subst (λ (q : Picked). length q.selected < budget) k h),
      )
  | inr e ↦ elim (Bool-cases (leb budget (length (add c p).selected))) [
    | inl f ↦
        let k : length (add c p).selected < budget =
          subst (λ (q : Picked). length q.selected < budget) (pick-last (leb budget) c cs p e f)
            h in
        ground arith
    | inr f ↦
        let k = pick-next (leb budget) c cs p e f in
        subst (AllSeen (c ∷ cs)) (sym k) (
          pick-seen (leb budget) cs (add c p) c.inputs (ground (arith, beq_refl c.inputs)),
          pick-exhaustive budget cs (add c p)
              (subst (λ (q : Picked). length q.selected < budget) k h),
        )
  ]
]
