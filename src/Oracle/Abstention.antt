-- ===== src/Oracle/Abstention.antt =====
-- What the composite oracle says when it abstains.
use course_fuzz.Prelude.{
  ℤ, String, Option, none, some, List, [], ◌∷◌, map, all, find, filter, int_eq, list_eq, ◌≡◌, refl,
  Bool-cases, inl, inr,
}
use course_fuzz.Models.{AssignmentSpec, OracleDecision, Outcome}
use course_fuzz.Oracle.{
  Oracle, after_errors, value_same, status_error, status_resolved, ProgramProbe, OracleReading,
  resolve, decide_with,
}

abbrev Silent : OracleDecision → Type 0
Silent d =
    (d.expected ≡ none) × (d.quorum ≡ 0) × ((why : String) × (d.abstention_reason ≡ some why))

resolve-Silent :
    (rs : List OracleReading) → (resolve rs).decision ≡ Outcome.abstained → Silent (resolve rs)
unfolding resolve
resolve-Silent [] h = (refl, refl, (_, refl))
resolve-Silent (r ∷ rs) h = elim (Bool-cases (all (λ q. value_same r.value q.value) rs)) [
  | inl e ↦ cc (rw e at h)
  | inr e ↦ rw e (refl, refl, (_, refl))
]

after_errors-Silent :
    (e : Option OracleReading) (rs : List OracleReading)
    → (after_errors e rs).decision ≡ Outcome.abstained
    → Silent (after_errors e rs)
unfolding after_errors
after_errors-Silent none rs h = resolve-Silent (filter (λ r. status_resolved r.status) rs) h
after_errors-Silent (some e) rs h = (refl, refl, (_, refl))

-- Whatever oracles are composed, a decision that abstains states no expected output, counts no
-- evidence and gives a reason.
pub decide_with-abstained :
    (oracles : List Oracle) (a : AssignmentSpec) (inputs : List ℤ) (probe : ProgramProbe)
    → (decide_with oracles a inputs probe).decision ≡ Outcome.abstained
    → ((decide_with oracles a inputs probe).expected ≡ none)
      × ((decide_with oracles a inputs probe).quorum ≡ 0)
      × ((why : String) × ((decide_with oracles a inputs probe).abstention_reason ≡ some why))
unfolding decide_with
decide_with-abstained oracles a inputs probe h =
    let rs = map (λ (o : Oracle). o a inputs probe) oracles in
    after_errors-Silent (find (λ r. status_error r.status) rs) rs h
