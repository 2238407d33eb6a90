-- ===== src/Engine/Verify/Verdicts.antt =====
-- What a verdict rests on.
use course_fuzz.Prelude.{
  ℤ, String, true, false, Option, none, some, List, [], ◌∷◌, map, lookup, string_eq, int_eq,
  list_eq, All, All-mem, Elem, Bool-cases, Option-cases, inl, inr, ◌⊎◌, ◌≡◌, ◌≢◌, refl, arith,
}
use course_fuzz.Prelude.Result.{ok}
use course_fuzz.Engine.Verify.Classify.{
  InDomain, classify-InDomain, classify-valid, classify-accepts, Declared, lookup-decisions,
  All-weaken,
}
use course_fuzz.Models.{
  AssignmentSpec, ProgramVariant, AttackHypothesis, HypothesisVerdict, VerdictStatus,
  OracleDecision, Outcome,
}
use course_fuzz.Models.Atom.{JsonAtom, atom_beq}
use course_fuzz.Oracle.{decide, ProgramProbe}
use course_fuzz.Oracle.Agreement.{Established, decide-Established, Established-decide}
use course_fuzz.Engine.Verify.{
  Classified, classify, Row, output_of, decisions_for, differs, killed_by, rejection, from_killed,
  from_decision, verdict_for,
}

outcome-cases : (o : Outcome) → (o ≡ Outcome.resolved) ⊎ (o ≡ Outcome.abstained)
outcome-cases Outcome.resolved = inl refl
outcome-cases Outcome.abstained = inr refl

-- A survivor that the input separates from the expected value.
pub record Kills (outputs : List (String × Row)) (survivors : List ProgramVariant) (inputs : List ℤ)
    (expected : JsonAtom) (pid : String) : Type 0 where
  pub survivor : ProgramVariant
  pub survives : Elem survivor survivors
  pub named : survivor.id ≡ pid
  pub actual : JsonAtom
  pub output : output_of outputs survivor.id inputs ≡ some actual
  pub differs : atom_beq actual expected ≡ false

differs-cases :
    (o : Option JsonAtom) (v : JsonAtom)
    → differs o v ≡ true
    → (w : JsonAtom) × (o ≡ some w) × (atom_beq w v ≡ false)
unfolding differs
differs-cases none v h = cc
differs-cases (some w) v h = (w, refl, ground (arith, h))

module _ (outputs : List (String × Row)) (inputs : List ℤ) (expected : JsonAtom) where
  Kills-weaken :
      (s : ProgramVariant) (ss : List ProgramVariant) (pid : String)
      → Kills outputs ss inputs expected pid
      → Kills outputs (s ∷ ss) inputs expected pid
  Kills-weaken s ss pid k = record {
    survivor = k.survivor;
    survives = inr k.survives;
    named = k.named;
    actual = k.actual;
    output = k.output;
    differs = k.differs;
  }

  killed_by-Kills :
      (ss : List ProgramVariant)
      → All (λ p. Kills outputs ss inputs expected p.0) (killed_by outputs ss inputs expected)
  unfolding killed_by
  killed_by-Kills [] = tt
  killed_by-Kills (s ∷ ss) =
      let rest =
        All-weaken _ _ (killed_by outputs ss inputs expected) (λ p. Kills-weaken s ss p.0)
          (killed_by-Kills ss) in
      elim (Bool-cases (differs (output_of outputs s.id inputs) expected)) [
        | inl e ↦
            let r = differs-cases (output_of outputs s.id inputs) expected e in
            rw e (
              record {
                survivor = s;
                survives = inl refl;
                named = refl;
                actual = r.0;
                output = r.1;
                differs = r.2;
              },
              rest,
            )
        | inr e ↦ rw e rest
      ]

  Kills-killed_by :
      (ss : List ProgramVariant) (s : ProgramVariant) (w : JsonAtom)
      → Elem s ss
      → output_of outputs s.id inputs ≡ some w
      → atom_beq w expected ≡ false
      → killed_by outputs ss inputs expected ≢ []
  unfolding killed_by differs
  Kills-killed_by [] s w m o d e = absurd m
  Kills-killed_by (t ∷ ss) s w (inl p) o d e =
      let q : output_of outputs t.id inputs ≡ some w = rw (← p) o in cc (rw (q, d) at e)
  Kills-killed_by (t ∷ ss) s w (inr m) o d e =
      elim (Bool-cases (differs (output_of outputs t.id inputs) expected)) [
        | inl k ↦ cc (rw k at e)
        | inr k ↦ Kills-killed_by ss s w m o d (rw k at e)
      ]

pub All-map {κ} :
    {A B : Type 0} (P : B → Type κ) (f : A → B) (xs : List A)
    → All (λ x. P (f x)) xs
    → All P (map f xs)
All-map P f [] h = tt
All-map P f (x ∷ xs) h = (h.0, All-map P f xs h.1)

module _ (a : AssignmentSpec) (controls outputs : List (String × Row))
    (survivors : List ProgramVariant) where
  -- The outputs of the accepted controls on one input, as the oracle reads them.
  abbrev pub control_probe : List ℤ → ProgramProbe
  control_probe inputs p = output_of controls p.id inputs

  -- What stands behind a verified verdict.
  pub record Verified (v : HypothesisVerdict) : Type 0 where
    pub in_domain : InDomain a v.hypothesis.inputs
    pub value : JsonAtom
    pub expected : v.expected ≡ some value
    pub established : Established a v.hypothesis.inputs (control_probe v.hypothesis.inputs) value
    pub kills : All (Kills outputs survivors v.hypothesis.inputs value) v.killed_mutants
    pub some_killed : v.killed_mutants ≢ []

  -- A verdict about `h`: verified on that ground alone, and always where the ground is there.
  pub record Judged (accepted : Type 0) (h : AttackHypothesis) (v : HypothesisVerdict)
      : Type 0 where
    pub subject : v.hypothesis ≡ h
    pub sound : v.status ≡ VerdictStatus.verified → Verified v
    pub complete :
        accepted
        → (value w : JsonAtom) (s : ProgramVariant)
        → Established a h.inputs (control_probe h.inputs) value
        → Elem s survivors
        → output_of outputs s.id h.inputs ≡ some w
        → atom_beq w value ≡ false
        → v.status ≡ VerdictStatus.verified

  from_killed-Verified :
      (h : AttackHypothesis) (value : JsonAtom) (ks : List (String × Option JsonAtom))
      → InDomain a h.inputs
      → Established a h.inputs (control_probe h.inputs) value
      → All (λ p. Kills outputs survivors h.inputs value p.0) ks
      → (from_killed h value ks).status ≡ VerdictStatus.verified
      → Verified (from_killed h value ks)
  unfolding from_killed
  from_killed-Verified h value [] i e k s = cc
  from_killed-Verified h value ((pid, actual) ∷ ks) i e k s = record {
    in_domain = i;
    value = value;
    expected = refl;
    established = e;
    kills = All-map (Kills outputs survivors h.inputs value) (λ p. p.0) ((pid, actual) ∷ ks) k;
    some_killed = λ q. cc;
  }

  from_killed-status :
      (h : AttackHypothesis) (value : JsonAtom) (ks : List (String × Option JsonAtom))
      → ks ≢ []
      → (from_killed h value ks).status ≡ VerdictStatus.verified
  unfolding from_killed
  from_killed-status h value [] n = absurd (n refl)
  from_killed-status h value ((pid, actual) ∷ ks) n = refl

  abbrev decided : List ℤ → OracleDecision
  decided inputs = decide a inputs (control_probe inputs)

  from_killed-subject :
      (h : AttackHypothesis) (value : JsonAtom) (ks : List (String × Option JsonAtom))
      → (from_killed h value ks).hypothesis ≡ h
  unfolding from_killed
  from_killed-subject h value [] = refl
  from_killed-subject h value ((pid, actual) ∷ ks) = refl

  from_decision-Judged :
      (h : AttackHypothesis)
      → InDomain a h.inputs
      → (accepted : Type 0)
      → Judged accepted h (from_decision outputs survivors h (decided h.inputs))
  unfolding from_decision
  from_decision-Judged h i accepted = elim (outcome-cases (decided h.inputs).decision) [
    | inl r ↦
        let (v, e, est) = decide-Established a h.inputs (control_probe h.inputs) r in
        rw (r, e)
          (record {
            subject = from_killed-subject h v (killed_by outputs survivors h.inputs v);
            sound =
                from_killed-Verified h v (killed_by outputs survivors h.inputs v) i est
                  (killed_by-Kills outputs h.inputs v survivors);
            complete = λ t value w s est' m o d.
                let same : v ≡ value = cc (est.reference, est'.reference) in
                from_killed-status h v (killed_by outputs survivors h.inputs v)
                  (Kills-killed_by outputs h.inputs v survivors s w m o (rw same d));
          })
    | inr r ↦ rw r (record {
      subject = refl;
      sound = λ s. cc;
      complete = λ t value w s est m o d.
          cc (r, (Established-decide a h.inputs (control_probe h.inputs) value est).0);
    })
  ]

  module _ (hypotheses : List AttackHypothesis) where
    abbrev pub classified : Classified
    classified = classify a hypotheses ([], [])

    pub verdict_for-Judged :
        (h : AttackHypothesis)
        → Elem h hypotheses
        → (v : HypothesisVerdict) × (verdict_for classified.0
              (decisions_for a controls classified.1)
              outputs
              survivors
              h
            ≡ ok v)
          × Judged (Declared a hypotheses h) h v
    unfolding verdict_for
    verdict_for-Judged h m = elim (Option-cases (lookup h.id classified.0)) [
      | inl e ↦
          let i = classify-valid a hypotheses ([], []) h m e in
          let d =
            All-mem (InDomain a) h.inputs classified.1 (classify-InDomain a hypotheses ([], []) tt)
              i in
          (
            from_decision outputs survivors h (decided h.inputs),
            rw (e, lookup-decisions a controls classified.1 h.inputs i),
            from_decision-Judged h d (Declared a hypotheses h),
          )
      | inr (reason, e) ↦ (
        rejection h reason none,
        rw e,
        record {
          subject = refl;
          sound = λ s. cc;
          complete =
              λ i value w s t m o d. cc (classify-accepts a hypotheses ([], []) h.id i refl, e);
        },
      )
    ]
