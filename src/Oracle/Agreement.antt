-- ===== src/Oracle/Agreement.antt =====
-- When the composite oracle resolves, and what it then says.
use course_fuzz.Prelude.{
  ℤ, ℕ, ◌+◌, String, true, ◌&&◌, Option, none, some, List, [], ◌∷◌, ◌++◌, map, ◌==◌, all, find, All,
  find-Elem, length, length-append, length-map, suc, is_some, if◌then◌else◌, int_eq, list_eq, ◌≡◌,
  refl, ap, arith, Bool-cases, Option-cases, inl, inr,
}
use course_fuzz.Prelude.Text.{◌++ₛ◌}
use course_fuzz.Models.{AssignmentSpec, ProgramVariant, TestCase, OracleDecision, Outcome}
use course_fuzz.Models.Atom.{JsonAtom, atom_same, atom_same_trans, atom_same_comm}
use course_fuzz.Oracle.{
  ProgramProbe, OracleReading, resolved_reading, unavailable_reading, reference_reading,
  independent_controls, control_outputs, consensus_reading, fixture_reading, from_readings, decide,
}

-- A truth source that answered, with a value that is the same as `v`.
abbrev pub Agrees : JsonAtom → Option JsonAtom → Type 0
Agrees v o = (w : JsonAtom) × (o ≡ some w) × (atom_same v w ≡ true)

-- The reviewed case that speaks about the input, if any.
abbrev pub reviewed : AssignmentSpec → List ℤ → Option TestCase
reviewed a inputs = find (λ t. t.inputs == inputs && is_some t.expected) a.instructor_tests

-- Every available source gives the output `v`.
pub record Established (a : AssignmentSpec) (inputs : List ℤ) (probe : ProgramProbe) (v : JsonAtom)
    : Type 0 where
  pub reference : probe a.reference ≡ some v
  pub controls : All (λ c. Agrees v (probe c)) (independent_controls a)
  pub fixture : (t : TestCase) → reviewed a inputs ≡ some t → Agrees v t.expected

module _ (probe : ProgramProbe) where
  outputs-Agrees :
      (v : JsonAtom) (cs : List ProgramVariant) (outs : List (String × JsonAtom))
      → control_outputs probe cs ≡ some outs
      → all (λ p. atom_same v p.1) outs ≡ true
      → All (λ c. Agrees v (probe c)) cs
  unfolding control_outputs
  outputs-Agrees v [] outs h k = tt
  outputs-Agrees v (c ∷ cs) outs h k = elim (Option-cases (probe c)) [
    | inl e ↦ cc (rw e at h)
    | inr (w, e) ↦ elim (Option-cases (control_outputs probe cs)) [
      | inl f ↦ cc (rw (e, f) at h)
      | inr (rest, f) ↦
          let g : some ((c.id, w) ∷ rest) ≡ some outs = rw (e, f) at h in
          let k' : all (λ p. atom_same v p.1) ((c.id, w) ∷ rest) ≡ true = ground (arith, g, k) in
          ((w, e, ground (arith, k')), outputs-Agrees v cs rest f (ground (arith, k')))
    ]
  ]

  Agrees-outputs :
      (v : JsonAtom) (cs : List ProgramVariant)
      → All (λ c. Agrees v (probe c)) cs
      → (outs : List (String × JsonAtom)) × (control_outputs probe cs ≡ some outs)
        × (all (λ p. atom_same v p.1) outs ≡ true)
        × (length outs ≡ length cs)
  unfolding control_outputs
  Agrees-outputs v [] h = ([], refl, refl, refl)
  Agrees-outputs v (c ∷ cs) ((w, e, s), h) =
      let r = Agrees-outputs v cs h in ((c.id, w) ∷ r.0, rw (e, r.1), rw (s, r.2), ap suc r.3)

-- Sameness to one value passes to sameness to another that is the same.
all-same :
    (v w : JsonAtom) (outs : List (String × JsonAtom))
    → atom_same v w ≡ true
    → all (λ p. atom_same w p.1) outs ≡ true
    → all (λ p. atom_same v p.1) outs ≡ true
all-same v w [] s h = refl
all-same v w ((cid, u) ∷ outs) s h = ground (arith, atom_same_trans v w u s, all-same v w outs s)

-- The fixture source answers with the reviewed case's value, and only then.
fixture-reviewed :
    (ts : List TestCase) (inputs : List ℤ) {t : TestCase} {w : JsonAtom}
    → find (λ t. t.inputs == inputs && is_some t.expected) ts ≡ some t
    → t.expected ≡ some w
    → fixture_reading ts inputs ≡ resolved_reading "fixture" w (("fixture:" ++ₛ t.label) ∷ [])
unfolding fixture_reading
fixture-reviewed [] inputs h k = cc
fixture-reviewed (u ∷ ts) inputs {t} {w} h k = elim (Bool-cases (u.inputs == inputs)) [
  | inl e ↦ elim (Option-cases u.expected) [
    | inl f ↦ rw (e, f) (fixture-reviewed ts inputs (rw (e, f) at h) k)
    | inr (x, f) ↦ let g : some u ≡ some t = simp (e, f) at h in ground (arith, g, k, e, f)
  ]
  | inr e ↦ rw e (fixture-reviewed ts inputs (rw e at h) k)
]

fixture-unreviewed :
    (ts : List TestCase) (inputs : List ℤ)
    → find (λ t. t.inputs == inputs && is_some t.expected) ts ≡ none
    → fixture_reading ts inputs ≡ unavailable_reading "fixture"
unfolding fixture_reading
fixture-unreviewed [] inputs h = refl
fixture-unreviewed (u ∷ ts) inputs h = elim (Bool-cases (u.inputs == inputs)) [
  | inl e ↦ elim (Option-cases u.expected) [
    | inl f ↦ rw (e, f) (fixture-unreviewed ts inputs (rw (e, f) at h))
    | inr (x, f) ↦ cc (rw (e, f) at h)
  ]
  | inr e ↦ rw e (fixture-unreviewed ts inputs (rw e at h))
]

-- The fixture source's reading, with or without a reviewed case.
abbrev fixture_of : Option (JsonAtom × List String) → OracleReading
fixture_of none = unavailable_reading "fixture"
fixture_of (some (w, ev)) = resolved_reading "fixture" w ev

-- The decision over the three readings.
three :
    Option JsonAtom
    → Option (List (String × JsonAtom))
    → Option (JsonAtom × List String)
    → OracleDecision
unfolding reference_reading consensus_reading from_readings
three r c f = from_readings (reference_reading r ∷ consensus_reading c ∷ fixture_of f ∷ [])

abbrev Same : JsonAtom → Option (JsonAtom × List String) → Type 0
Same v none = Unit
Same v (some (w, ev)) = atom_same v w ≡ true

three_sound :
    (r : Option JsonAtom) (c : Option (List (String × JsonAtom)))
    (f : Option (JsonAtom × List String))
    → (three r c f).decision ≡ Outcome.resolved
    → (v : JsonAtom) × (outs : List (String × JsonAtom)) × (r ≡ some v)
      × (c ≡ some outs)
      × ((three r c f).expected ≡ some v)
      × (all (λ p. atom_same v p.1) outs ≡ true)
      × Same v f
unfolding three
three_sound none c f h = ground arith
three_sound (some v) none f h = ground arith
three_sound (some v) (some []) none h = (v, [], refl, refl, refl, refl, tt)
three_sound (some v) (some []) (some (w, ev)) h =
    (v, [], refl, refl, ground arith, refl, ground arith)
three_sound (some v) (some ((cid, w) ∷ rest)) none h =
    (v, (cid, w) ∷ rest, refl, refl, ground arith, ground (arith, all-same v w rest), tt)
three_sound (some v) (some ((cid, w) ∷ rest)) (some (u, ev)) h =
    (v, (cid, w) ∷ rest, refl, refl, ground arith, ground (arith, all-same v w rest), ground arith)

abbrev votes : Option (JsonAtom × List String) → ℕ
votes none = 0
votes (some (w, ev)) = length ev

three_complete :
    (v : JsonAtom) (outs : List (String × JsonAtom)) (f : Option (JsonAtom × List String))
    → all (λ p. atom_same v p.1) outs ≡ true
    → Same v f
    → ((three (some v) (some outs) f).decision ≡ Outcome.resolved)
      × ((three (some v) (some outs) f).expected ≡ some v)
      × ((three (some v) (some outs) f).quorum ≡ suc (length outs + votes f))
unfolding three
three_complete v [] none h k = (refl, refl, omega arith)
three_complete v [] (some (w, ev)) h k = rw k (refl, refl, omega (arith, length-append ev []))
three_complete v ((cid, w) ∷ rest) none h k =
    let s : atom_same v w ≡ true = ground (arith, h) in
    let t : all (λ p. atom_same w p.1) rest ≡ true =
      all-same w v rest (atom_same_comm v w s) (ground (arith, h)) in
    rw (t, s)
      (
        refl,
        refl,
        omega (
          arith,
          length-append (map (λ (p : String × JsonAtom). "control:" ++ₛ p.0) rest) [],
          length-map (λ (p : String × JsonAtom). "control:" ++ₛ p.0) rest,
        ),
      )
three_complete v ((cid, w) ∷ rest) (some (u, ev)) h k =
    let s : atom_same v w ≡ true = ground (arith, h) in
    let t : all (λ p. atom_same w p.1) rest ≡ true =
      all-same w v rest (atom_same_comm v w s) (ground (arith, h)) in
    rw (t, s, k)
      (
        refl,
        refl,
        omega (
          arith,
          length-append (map (λ (p : String × JsonAtom). "control:" ++ₛ p.0) rest) (ev ++ []),
          length-append ev [],
          length-map (λ (p : String × JsonAtom). "control:" ++ₛ p.0) rest,
        ),
      )

-- What the fixture source reads, as `three` takes it.
record FixtureRead (a : AssignmentSpec) (inputs : List ℤ) : Type 0 where
  read : Option (JsonAtom × List String)
  reading : fixture_reading a.instructor_tests inputs ≡ fixture_of read
  sound :
      (v : JsonAtom)
      → Same v read
      → (t : TestCase) → reviewed a inputs ≡ some t
      → Agrees v t.expected
  complete :
      (v : JsonAtom)
      → ((t : TestCase) → reviewed a inputs ≡ some t → Agrees v t.expected)
      → Same v read
  voted : votes read ≡ (if is_some (reviewed a inputs) then 1 else 0)

module _ (a : AssignmentSpec) (inputs : List ℤ) where
  reviewed-expected :
      (t : TestCase) → reviewed a inputs ≡ some t → (w : JsonAtom) × (t.expected ≡ some w)
  reviewed-expected t e =
      let r = find-Elem (λ t. t.inputs == inputs && is_some t.expected) a.instructor_tests t e in
      elim (Option-cases t.expected) [ inl n ↦ absurd (ground (arith, r.1, n)) | inr found ↦ found ]

  fixture_read : FixtureRead a inputs
  fixture_read = elim (Option-cases (reviewed a inputs)) [
    | inl e ↦ record {
      read = none;
      reading = fixture-unreviewed a.instructor_tests inputs e;
      sound = λ v s t h. cc (e, h);
      complete = λ v h. tt;
      voted = rw e;
    }
    | inr (t, e) ↦
        let (w, k) = reviewed-expected t e in
        record {
          read = some (w, ("fixture:" ++ₛ t.label) ∷ []);
          reading = fixture-reviewed a.instructor_tests inputs e k;
          sound = λ v s u h. (w, cc (e, h, k), s);
          complete = λ v h. let r : Agrees v t.expected = h t e in ground (arith, r.1, r.2, k);
          voted = rw e;
        }
  ]

module _ (a : AssignmentSpec) (inputs : List ℤ) (probe : ProgramProbe) where
  abbrev outputs : Option (List (String × JsonAtom))
  outputs = control_outputs probe (independent_controls a)

  decide-three :
      (f : FixtureRead a inputs) → decide a inputs probe ≡ three (probe a.reference) outputs f.read
  unfolding decide three
  decide-three f = rw f.reading

  -- A resolved decision states the reference program's output; every control that is not the
  -- reference ran and gave the same output, and so did the first reviewed instructor case for the
  -- input, where there is one.
  pub decide-Established :
      (decide a inputs probe).decision ≡ Outcome.resolved
      → (v : JsonAtom) × ((decide a inputs probe).expected ≡ some v) × Established a inputs probe v
  decide-Established h =
      let f = fixture_read a inputs in
      let h' : (three (probe a.reference) outputs f.read).decision ≡ Outcome.resolved =
        rw (decide-three f) at h in
      let s = three_sound (probe a.reference) outputs f.read h' in
      (
        s.0,
        rw (decide-three f) s.4,
        record {
          reference = s.2;
          controls = outputs-Agrees probe s.0 (independent_controls a) s.1 s.3 s.5;
          fixture = f.sound s.0 s.6;
        },
      )

  -- When the reference, every other control and the reviewed case for the input give the same
  -- output, the decision resolves to the reference's output, with one piece of evidence for each.
  pub Established-decide :
      (v : JsonAtom)
      → Established a inputs probe v
      → ((decide a inputs probe).decision ≡ Outcome.resolved)
        × ((decide a inputs probe).expected ≡ some v)
        × ((decide a inputs probe).quorum
            ≡ 1 + length (independent_controls a) + (if is_some (reviewed a inputs) then 1 else 0))
  Established-decide v h =
      let f = fixture_read a inputs in
      let r = Agrees-outputs probe v (independent_controls a) h.controls in
      let c = three_complete v r.0 f.read r.2 (f.complete v h.fixture) in
      rw (decide-three f, h.reference, r.1) (c.0, c.1, omega (arith, c.2, r.3, f.voted))
