-- ===== src/Hypotheses/Budget.antt =====
-- What a scheduler proposes (GeneratorScheduler.propose of src/coursefuzz/adapters/generators.py).
use mathlib.Core.Path.{subst}
use course_fuzz.Prelude.{
  ℕ, suc, ◌≤◌, ◌<◌, ℤ, int_eq, String, true, false, ◌||◌, List, [], ◌∷◌, map, length, contains, leb,
  All, All-intro, Distinct, Elem, list_eq, ◌≡◌, refl, sym, ap, ◌∙◌, inl, inr, Bool-cases, arith,
}
use course_fuzz.Prelude.Result.{ok, bind-eq-ok, ok-injective}
use course_fuzz.Models.{AttackHypothesis, HypothesisContext, SurvivorHint}
use course_fuzz.Hypotheses.{
  Candidate, Picked, pick, existing, number_from, Generate, GeneratorScheduler, run_generators,
  propose,
}
use course_fuzz.Hypotheses.Pick.{
  inputs_of, Kept, pick-Kept, pick-All, length-pick, pick-seen, length-le-pick, pick-exhaustive,
  AllSeen,
}

module _ (c : HypothesisContext) (survivors : List SurvivorHint) where
  -- One of the generators makes the candidate.
  abbrev Made : List Generate → Candidate → Type 0
  Made gs x =
      (g : Generate) × (cs : List Candidate) × Elem g gs × (g c survivors ≡ ok cs) × Elem x cs

  -- The generator's candidates have all been seen.
  abbrev Exhausted : Picked → Generate → Type 0
  Exhausted q g = (cs : List Candidate) × (g c survivors ≡ ok cs) × AllSeen cs q

  record Ran (budget : ℕ) (gs : List Generate) (p q : Picked) : Type 0 where
    kept : Kept (existing c) q
    within : length q.selected ≤ budget
    grows : length p.selected ≤ length q.selected
    monotone : (x : List ℤ) → contains x p.seen ≡ true → contains x q.seen ≡ true
    exhausted : length q.selected < budget → All (Exhausted q) gs

  all_seen :
      (cs : List Candidate) (p q : Picked)
      → ((x : List ℤ) → contains x p.seen ≡ true → contains x q.seen ≡ true)
      → AllSeen cs p
      → AllSeen cs q
  all_seen [] p q h a = tt
  all_seen (d ∷ cs) p q h a = (h d.inputs a.0, all_seen cs p q h a.1)

  run_generators-Ran :
      (budget : ℕ) (gs : List Generate) (p q : Picked)
      → Kept (existing c) p
      → length p.selected ≤ budget
      → run_generators budget c survivors gs p ≡ ok q
      → Ran budget gs p q
  unfolding run_generators
  run_generators-Ran budget [] p q k w h =
      let e = ok-injective _ _ h in
      subst (Ran budget [] p) e (record {
        kept = k;
        within = w;
        grows = omega arith;
        monotone = λ x m. m;
        exhausted = λ l. tt;
      })
  run_generators-Ran budget (g ∷ gs) p q k w h =
      elim (Bool-cases (leb budget (length p.selected))) [
        | inl e ↦
            let f : p ≡ q = ok-injective _ _ (rw e at h) in
            subst (Ran budget (g ∷ gs) p) f (record {
              kept = k;
              within = w;
              grows = omega arith;
              monotone = λ x m. m;
              exhausted = λ l. ground arith;
            })
        | inr e ↦
            let (cs, made, rest) = bind-eq-ok (g c survivors) _ (rw e at h) in
            let p' = pick (leb budget) cs p in
            let r =
              run_generators-Ran budget gs p' q (pick-Kept (existing c) (leb budget) cs p k)
                (length-pick budget cs p (ground arith)) rest in
            record {
              kept = r.kept;
              within = r.within;
              grows = omega (arith, r.grows, length-le-pick (leb budget) cs p);
              monotone = λ x m. r.monotone x (pick-seen (leb budget) cs p x m);
              exhausted = λ l. (
                (
                  cs,
                  made,
                  all_seen cs p' q r.monotone
                      (pick-exhaustive budget cs p (omega (arith, l, r.grows))),
                ),
                r.exhausted l,
              );
            }
      ]

  run_generators-All :
      (P : Candidate → Type 0) (budget : ℕ) (gs : List Generate) (p q : Picked)
      → ((g : Generate) → Elem g gs → (cs : List Candidate) → g c survivors ≡ ok cs → All P cs)
      → All P p.selected
      → run_generators budget c survivors gs p ≡ ok q
      → All P q.selected
  unfolding run_generators
  run_generators-All P budget [] p q f a h =
      subst (λ (r : Picked). All P r.selected) (ok-injective _ _ h) a
  run_generators-All P budget (g ∷ gs) p q f a h =
      elim (Bool-cases (leb budget (length p.selected))) [
        | inl e ↦ subst (λ (r : Picked). All P r.selected) (ok-injective _ _ (rw e at h)) a
        | inr e ↦
            let (cs, made, rest) = bind-eq-ok (g c survivors) _ (rw e at h) in
            run_generators-All P budget gs (pick (leb budget) cs p) q (λ k m. f k (inr m))
              (pick-All P (leb budget) cs p (f g (inl refl) cs made) a) rest
      ]

-- The hypothesis carries the candidate over.
abbrev Carries : AttackHypothesis → Candidate → Type 0
Carries h x = (h.inputs ≡ x.inputs) × (h.rationale ≡ x.rationale) × (h.generator ≡ x.generator)

number_from-inputs :
    (shown : ℕ → String) (n : ℕ) (cs : List Candidate)
    → map (λ h. h.inputs) (number_from shown n cs) ≡ inputs_of cs
unfolding number_from
number_from-inputs shown n [] = refl
number_from-inputs shown n (x ∷ cs) = ap (λ t. x.inputs ∷ t) (number_from-inputs shown (suc n) cs)

length-number_from :
    (shown : ℕ → String) (n : ℕ) (cs : List Candidate) → length (number_from shown n cs) ≡ length cs
unfolding number_from
length-number_from shown n [] = refl
length-number_from shown n (x ∷ cs) = ap suc (length-number_from shown (suc n) cs)

number_from-Carries :
    (P : Candidate → Type 0) (shown : ℕ → String) (n : ℕ) (cs : List Candidate)
    → All P cs
    → All (λ h. (x : Candidate) × P x × Carries h x) (number_from shown n cs)
unfolding number_from
number_from-Carries P shown n [] a = tt
number_from-Carries P shown n (x ∷ cs) a =
    ((x, a.0, (refl, refl, refl)), number_from-Carries P shown (suc n) cs a.1)

-- What the proposals of a scheduler are like.
pub record IsProposal (s : GeneratorScheduler) (c : HypothesisContext)
    (survivors : List SurvivorHint) (hs : List AttackHypothesis) : Type 0 where
  pub within : length hs ≤ s.budget
  pub distinct : Distinct (map (λ h. h.inputs) hs)
  pub fresh : All (λ i. contains i (existing c) ≡ false) (map (λ h. h.inputs) hs)
  pub made : All (λ h. (x : Candidate) × Made c survivors s.generators x × Carries h x) hs
  pub exhausted :
      length hs < s.budget
      → All
          (λ g.
            (cs : List Candidate) × (g c survivors ≡ ok cs)
            × All
                (λ x.
                  (contains x.inputs (existing c) || contains x.inputs (map (λ h. h.inputs) hs))
                  ≡ true)
                cs)
          s.generators

All-inputs :
    (tests : List (List ℤ)) (cs : List Candidate)
    → All (λ x. contains x.inputs tests ≡ false) cs
    → All (λ i. contains i tests ≡ false) (inputs_of cs)
All-inputs tests [] h = tt
All-inputs tests (x ∷ cs) h = (h.0, All-inputs tests cs h.1)

AllSeen-known :
    (tests : List (List ℤ)) (cs : List Candidate) (q : Picked)
    → Kept tests q
    → AllSeen cs q
    → All (λ x. (contains x.inputs tests || contains x.inputs (inputs_of q.selected)) ≡ true) cs
AllSeen-known tests [] q k h = tt
AllSeen-known tests (x ∷ cs) q k h = (sym (k.seen x.inputs) ∙ h.0, AllSeen-known tests cs q k h.1)

Exhausted-known :
    (c : HypothesisContext) (survivors : List SurvivorHint) (gs : List Generate) (q : Picked)
    → Kept (existing c) q
    → All (Exhausted c survivors q) gs
    → All
        (λ g.
          (cs : List Candidate) × (g c survivors ≡ ok cs)
          × All
              (λ x.
                (contains x.inputs (existing c) || contains x.inputs (inputs_of q.selected)) ≡ true)
              cs)
        gs
Exhausted-known c survivors [] q k h = tt
Exhausted-known c survivors (g ∷ gs) q k ((cs, e, a), h) =
    ((cs, e, AllSeen-known (existing c) cs q k a), Exhausted-known c survivors gs q k h)

start-Kept : (tests : List (List ℤ)) → Kept tests (record { seen = tests; selected = [] })
start-Kept tests = record { seen = λ x. ground arith; distinct = tt; fresh = tt }

-- What a scheduler proposes from any generators is within its budget, has no inputs twice and no
-- inputs of an existing test, and each proposal is a candidate that a generator made, with its
-- inputs, reason and generator; and when the budget is not spent, every generator was asked and no
-- candidate of it is missing.
pub propose-IsProposal :
    (shown : ℕ → String) (s : GeneratorScheduler) (c : HypothesisContext)
    (survivors : List SurvivorHint) (hs : List AttackHypothesis)
    → propose shown s c survivors ≡ ok hs
    → IsProposal s c survivors hs
unfolding propose
propose-IsProposal shown s c survivors hs h =
    let start : Picked = record { seen = existing c; selected = [] } in
    let (q, e, f) = bind-eq-ok (run_generators s.budget c survivors s.generators start) _ h in
    let r =
      run_generators-Ran c survivors s.budget s.generators start q (start-Kept (existing c))
        (omega arith) e in
    let made =
      run_generators-All c survivors (Made c survivors s.generators) s.budget s.generators start q
        (λ g m cs k. All-intro (Made c survivors s.generators) cs (λ x n. (g, cs, m, k, n))) tt e in
    let names = number_from-inputs shown 0 q.selected in
    let count = length-number_from shown 0 q.selected in
    subst (IsProposal s c survivors) (ok-injective _ _ f) (record {
      within = omega (arith, count, r.within);
      distinct = subst Distinct (sym names) r.kept.distinct;
      fresh =
          subst (All (λ i. contains i (existing c) ≡ false)) (sym names)
            (All-inputs (existing c) q.selected r.kept.fresh);
      made = number_from-Carries (Made c survivors s.generators) shown 0 q.selected made;
      exhausted = λ l.
          subst
            (λ inputs.
              All
                (λ g.
                  (cs : List Candidate) × (g c survivors ≡ ok cs)
                  × All (λ x. (contains x.inputs (existing c) || contains x.inputs inputs) ≡ true)
                      cs)
                s.generators)
            (sym names)
            (Exhausted-known c survivors s.generators q r.kept
              (r.exhausted (omega (arith, count, l))));
    })
