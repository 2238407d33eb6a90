-- ===== src/Engine/Verify/Classify.antt =====
-- Which hypotheses are tried, and the decisions for their inputs.
use course_fuzz.Prelude.{
  ℤ, ◌≤ℤ◌, int_ltb, String, Bool, true, false, ◌||◌, none, some, List, [], ◌∷◌, ◌++◌, length, any,
  contains, contains-Elem, lookup, insert, lookup-insert, nat_beq_iff, ◌==◌, beq_refl, eq_of_beq,
  string_eq, int_eq, list_eq, All, All-append, All-mem, Elem, Elem-any, Elem-append_left,
  Elem-append_right, Bool-cases, inl, inr, ◌≡◌, refl, sym, ap, ◌∙◌, arith,
}
use course_fuzz.Models.{AssignmentSpec, AttackHypothesis, OracleDecision}
use course_fuzz.Oracle.{decide}
use course_fuzz.Engine.Verify.{
  Classified, classify, classify_step, wrong_arity, out_of_domain, arity_reason, domain_reason, Row,
  output_of, decisions_for,
}

-- An input that the assignment declares: of the right arity, every value inside the domain.
pub record InDomain (a : AssignmentSpec) (inputs : List ℤ) : Type 0 where
  pub arity : length inputs ≡ length a.input_names
  pub bounds : All (λ v. (a.domain_min ≤ℤ v) × (v ≤ℤ a.domain_max)) inputs

not_or : (p q : Bool) → (p || q) ≡ false → (p ≡ false) × (q ≡ false)
not_or p q h = ground arith

pub any-false {ℓ} :
    {A : Type ℓ} (p : A → Bool) (xs : List A) → any p xs ≡ false → All (λ x. p x ≡ false) xs
any-false p [] h = tt
any-false p (x ∷ xs) h = let r = not_or (p x) (any p xs) h in (r.0, any-false p xs r.1)

pub All-weaken {ℓ κ} :
    {A : Type ℓ} (P Q : A → Type κ) (xs : List A) → ((x : A) → P x → Q x) → All P xs → All Q xs
All-weaken P Q [] f h = tt
All-weaken P Q (x ∷ xs) f h = (f x h.0, All-weaken P Q xs f h.1)

InDomain-intro :
    (a : AssignmentSpec) (inputs : List ℤ)
    → wrong_arity a inputs ≡ false
    → out_of_domain a inputs ≡ false
    → InDomain a inputs
unfolding wrong_arity out_of_domain
InDomain-intro a inputs h k = record {
  arity = (nat_beq_iff _ _).0 (ground (arith, h));
  bounds =
      All-weaken _ _ inputs (λ v. not_or (int_ltb v a.domain_min) (int_ltb a.domain_max v))
        (any-false (λ v. int_ltb v a.domain_min || int_ltb a.domain_max v) inputs k);
}

InDomain-right_arity :
    (a : AssignmentSpec) (inputs : List ℤ) → InDomain a inputs → wrong_arity a inputs ≡ true → ⊥
unfolding wrong_arity
InDomain-right_arity a inputs i h =
    let e = (nat_beq_iff (length inputs) (length a.input_names)).1 i.arity in ground (arith, e, h)

InDomain-inside :
    (a : AssignmentSpec) (inputs : List ℤ) → InDomain a inputs → out_of_domain a inputs ≡ true → ⊥
unfolding out_of_domain
InDomain-inside a inputs i h =
    let (v, m, e) = Elem-any (λ v. int_ltb v a.domain_min || int_ltb a.domain_max v) inputs h in
    let (l, u) = All-mem (λ v. (a.domain_min ≤ℤ v) × (v ≤ℤ a.domain_max)) v inputs i.bounds m in
    cc (rw (l, u) at e)

module _ (a : AssignmentSpec) where
  -- No hypothesis with this one's id, itself included, has inputs that are not declared.
  abbrev pub Declared : List AttackHypothesis → AttackHypothesis → Type 0
  Declared hypotheses h =
      (g : AttackHypothesis) → Elem g hypotheses → g.id ≡ h.id → InDomain a g.inputs

  -- The four ways in which a hypothesis is classified.
  data Step (h : AttackHypothesis) (c : Classified) : Classified → Type 0 where
    refused : (reason : String) → (InDomain a h.inputs → ⊥) → Step h c (insert h.id reason c.0, c.1)
    known : contains h.inputs c.1 ≡ true → Step h c c
    fresh : InDomain a h.inputs → Step h c (c.0, c.1 ++ h.inputs ∷ [])

  classify_step-Step : (h : AttackHypothesis) (c : Classified) → Step h c (classify_step a h c)
  unfolding classify_step
  classify_step-Step h c = elim (Bool-cases (wrong_arity a h.inputs)) [
    | inl e ↦ rw e (refused arity_reason (λ i. InDomain-right_arity a h.inputs i e))
    | inr e ↦ elim (Bool-cases (out_of_domain a h.inputs)) [
      | inl f ↦ rw (e, f) (refused domain_reason (λ i. InDomain-inside a h.inputs i f))
      | inr f ↦ elim (Bool-cases (contains h.inputs c.1)) [
        | inl g ↦ rw (e, f, g) (known g)
        | inr g ↦ rw (e, f, g) (fresh (InDomain-intro a h.inputs e f))
      ]
    ]
  ]

  Step-InDomain :
      {h : AttackHypothesis} {c d : Classified}
      → Step h c d
      → All (InDomain a) c.1
      → All (InDomain a) d.1
  Step-InDomain (refused reason n) k = k
  Step-InDomain (known m) k = k
  Step-InDomain {h} {c} (fresh i) k = All-append (InDomain a) c.1 (h.inputs ∷ []) k (i, tt)

  Step-keeps :
      {h : AttackHypothesis} {c d : Classified} (i : List ℤ) → Step h c d → Elem i c.1 → Elem i d.1
  Step-keeps i (refused reason n) m = m
  Step-keeps i (known e) m = m
  Step-keeps {h} {c} i (fresh k) m = Elem-append_left i c.1 (h.inputs ∷ []) m

  Step-invalid :
      {h : AttackHypothesis} {c d : Classified} (k : String)
      → Step h c d
      → lookup k d.0 ≡ none
      → lookup k c.0 ≡ none
  Step-invalid {h} {c} k (refused reason n) e = ground (arith, lookup-insert h.id k reason c.0)
  Step-invalid k (known m) e = e
  Step-invalid k (fresh m) e = e

  Step-valid :
      {h : AttackHypothesis} {c d : Classified}
      → Step h c d
      → lookup h.id d.0 ≡ none
      → Elem h.inputs d.1
  Step-valid {h} {c} (refused reason n) e =
      absurd (ground (arith, lookup-insert h.id h.id reason c.0, beq_refl h.id, e))
  Step-valid {h} {c} (known m) e = contains-Elem h.inputs c.1 m
  Step-valid {h} {c} (fresh m) e = Elem-append_right h.inputs c.1 (h.inputs ∷ []) (inl refl)

  pub classify-InDomain :
      (hs : List AttackHypothesis) (c : Classified)
      → All (InDomain a) c.1
      → All (InDomain a) (classify a hs c).1
  unfolding classify
  classify-InDomain [] c k = k
  classify-InDomain (h ∷ hs) c k =
      classify-InDomain hs (classify_step a h c) (Step-InDomain (classify_step-Step h c) k)

  -- An id is refused only with inputs that are not declared.
  Step-accepts :
      {h : AttackHypothesis} {c d : Classified} (k : String)
      → (h.id ≡ k → InDomain a h.inputs)
      → Step h c d
      → lookup k c.0 ≡ none
      → lookup k d.0 ≡ none
  Step-accepts {h} {c} k i (refused reason n) e = elim (Bool-cases (h.id == k)) [
    | inl f ↦ absurd (n (i (eq_of_beq h.id k f)))
    | inr f ↦ ground (arith, lookup-insert h.id k reason c.0, f, e)
  ]
  Step-accepts k i (known m) e = e
  Step-accepts k i (fresh m) e = e

  pub classify-accepts :
      (hs : List AttackHypothesis) (c : Classified) (k : String)
      → ((g : AttackHypothesis) → Elem g hs → g.id ≡ k → InDomain a g.inputs)
      → lookup k c.0 ≡ none
      → lookup k (classify a hs c).0 ≡ none
  unfolding classify
  classify-accepts [] c k i e = e
  classify-accepts (h ∷ hs) c k i e =
      classify-accepts hs (classify_step a h c) k (λ g m. i g (inr m))
        (Step-accepts k (i h (inl refl)) (classify_step-Step h c) e)

  classify-keeps :
      (hs : List AttackHypothesis) (c : Classified) (i : List ℤ)
      → Elem i c.1
      → Elem i (classify a hs c).1
  unfolding classify
  classify-keeps [] c i m = m
  classify-keeps (h ∷ hs) c i m =
      classify-keeps hs (classify_step a h c) i (Step-keeps i (classify_step-Step h c) m)

  classify-invalid :
      (hs : List AttackHypothesis) (c : Classified) (k : String)
      → lookup k (classify a hs c).0 ≡ none
      → lookup k c.0 ≡ none
  unfolding classify
  classify-invalid [] c k e = e
  classify-invalid (h ∷ hs) c k e =
      Step-invalid k (classify_step-Step h c) (classify-invalid hs (classify_step a h c) k e)

  -- A hypothesis whose id was never refused has its inputs among the valid ones.
  pub classify-valid :
      (hs : List AttackHypothesis) (c : Classified) (h : AttackHypothesis)
      → Elem h hs
      → lookup h.id (classify a hs c).0 ≡ none
      → Elem h.inputs (classify a hs c).1
  unfolding classify
  classify-valid [] c h m e = absurd m
  classify-valid (g ∷ hs) c h (inl p) e = classify-keeps hs (classify_step a g c) h.inputs (
      rw p (
        Step-valid (classify_step-Step g c)
          (classify-invalid hs (classify_step a g c) g.id (rw p at e))))
  classify-valid (g ∷ hs) c h (inr m) e = classify-valid hs (classify_step a g c) h m e

  pub lookup-decisions :
      (outputs : List (String × Row)) (valid : List (List ℤ)) (i : List ℤ)
      → Elem i valid
      → lookup i (decisions_for a outputs valid) ≡ some (decide a i (λ p. output_of outputs p.id i))
  unfolding decisions_for
  lookup-decisions outputs [] i m = absurd m
  lookup-decisions outputs (j ∷ valid) i (inl p) =
      rw (ap (λ t. j == t) p ∙ beq_refl j) (let q : j ≡ i = sym p in rw q)
  lookup-decisions outputs (j ∷ valid) i (inr m) = elim (Bool-cases (j == i)) [
    | inl e ↦ rw e (let p : j ≡ i = eq_of_beq j i e in rw p)
    | inr e ↦ rw e (lookup-decisions outputs valid i m)
  ]

  -- A decision that is looked up is the oracle's for those inputs.
  pub decisions-lookup :
      (outputs : List (String × Row)) (valid : List (List ℤ)) (i : List ℤ) (d : OracleDecision)
      → lookup i (decisions_for a outputs valid) ≡ some d
      → d ≡ decide a i (λ p. output_of outputs p.id i)
  unfolding decisions_for
  decisions-lookup outputs [] i d h = cc
  decisions-lookup outputs (j ∷ valid) i d h = elim (Bool-cases (j == i)) [
    | inl e ↦
        let p : j ≡ i = eq_of_beq j i e in
        let q : some (decide a j (λ p. output_of outputs p.id j)) ≡ some d = rw e at h in
        rw (← p) (let r : decide a j (λ p. output_of outputs p.id j) ≡ d = cc q in sym r)
    | inr e ↦ decisions-lookup outputs valid i d (rw e at h)
  ]
