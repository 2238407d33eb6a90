-- ===== src/Repository/Tenants.antt =====
-- Ownership of runs: idempotent creation, and what another tenant can see.
use mathlib.Core.Path.{subst}
use course_fuzz.Prelude.{
  String, Bool, true, false, ◌&&◌, Option, none, some, is_some, List, [], ◌∷◌, ◌++◌, find, count,
  ◌==◌, beq_refl, string_eq, nat_beq, if◌then◌else◌, ◌≡◌, ap, ◌∙◌, inl, inr, Bool-cases,
  Option-cases, arith,
}
use course_fuzz.Prelude.Result.{ok, ok-injective}
use course_fuzz.Models.{RunView, Time}
use course_fuzz.Repository
use course_fuzz.Repository.{Store, RunRow, has_id, owned, scoped_key, document_of, get, update_rows}

module _ {A : Type 0} where
  -- What a tenant sees of a list of rows.
  abbrev seen : String → String → List (RunRow A) → Option (RunView A)
  seen run_id owner rows = document_of (find (owned run_id owner) rows)

  some_inj : (a b : RunView A) → some a ≡ some b → a ≡ b
  some_inj a b h = cc

  find-append_right :
      (p : RunRow A → Bool) (xs : List (RunRow A)) (y : RunRow A)
      → find p xs ≡ none
      → p y ≡ true
      → find p (xs ++ y ∷ []) ≡ some y
  find-append_right p [] y h k = rw k
  find-append_right p (x ∷ xs) y h k = elim (Bool-cases (p x)) [
    | inl e ↦ cc (rw e at h)
    | inr e ↦ rw e (find-append_right p xs y (rw e at h) k)
  ]

  find-append_false :
      (p : RunRow A → Bool) (xs : List (RunRow A)) (y : RunRow A)
      → p y ≡ false
      → find p (xs ++ y ∷ []) ≡ find p xs
  find-append_false p [] y k = rw k
  find-append_false p (x ∷ xs) y k = elim (Bool-cases (p x)) [
    | inl e ↦ rw e
    | inr e ↦ rw e (find-append_false p xs y k)
  ]

  -- Replacing documents by id leaves the ids and the owners as they are.
  seen-update_rows :
      (run : RunView A) (now : Time) (run_id owner : String) (rows : List (RunRow A))
      → seen run_id owner (update_rows (has_id run.id) run now rows) ≡ (
          if run.id == run_id && is_some (seen run_id owner rows)
          then some run
          else seen run_id owner rows)
  unfolding update_rows
  seen-update_rows run now run_id owner [] = ground arith
  seen-update_rows run now run_id owner (r ∷ rs) = ground (
    arith,
    seen-update_rows run now run_id owner rs,
    string_eq.beq_iff r.id run.id,
    string_eq.beq_iff r.id run_id,
    string_eq.beq_iff run.id run_id,
  )

  -- A save that returns replaces the run's document in what its owner sees, and changes nothing in
  -- what any tenant sees of any other run; a tenant who did not see the run still does not.
  pub get-save :
      (run : RunView A) (now : Time) (run_id owner : String) (s : Store A)
      → (Repository.save run now s).0 ≡ ok tt
      → get run_id owner (Repository.save run now s).1 ≡ (
          if run.id == run_id && is_some (get run_id owner s) then some run else get run_id owner s)
  unfolding Repository.save get
  get-save run now run_id owner s h = elim (Bool-cases (nat_beq (count (has_id run.id) s.runs) 1)) [
    | inl e ↦ rw e (seen-update_rows run now run_id owner s.runs)
    | inr e ↦ cc (rw e at h)
  ]

  -- A call that returns leaves behind the row of its scoped key, with the document it returned.
  create-find :
      (run r : RunView A) (key owner : String) (now : Time) (b : Bool) (s s' : Store A)
      → Repository.create run key owner now s ≡ (ok (r, b), s')
      → document_of (find (λ x. x.idempotency_key == scoped_key owner key) s'.runs) ≡ some r
  unfolding Repository.create Repository.create_or Repository.insert_run
  create-find run r key owner now b s s' h =
      elim (Option-cases (find (λ x. x.idempotency_key == scoped_key owner key) s.runs)) [
        | inl e ↦ elim (Bool-cases (is_some (find (has_id run.id) s.runs))) [
          | inl f ↦ cc (rw (e, f) at h)
          | inr f ↦
              let q = rw (e, f) at h in
              subst
                (λ t.
                  document_of (find (λ x. x.idempotency_key == scoped_key owner key) t.runs)
                  ≡ some r)
                (ap (λ p. p.1) q)
                (ap document_of (
                    find-append_right (λ x. x.idempotency_key == scoped_key owner key) s.runs _ e
                      (beq_refl (scoped_key owner key)))
                  ∙ ap some (ap (λ p. p.0) (ok-injective _ _ (ap (λ p. p.0) q))))
        ]
        | inr (x, e) ↦
            let q = rw e at h in
            subst
              (λ t.
                document_of (find (λ x. x.idempotency_key == scoped_key owner key) t.runs) ≡ some r)
              (ap (λ p. p.1) q)
              (rw e (ap some (ap (λ p. p.0) (ok-injective _ _ (ap (λ p. p.0) q)))))
      ]

  -- After a `create` that returned, a repeated one of the same owner and key, for whatever run,
  -- returns the run of the first, says that it made none, and leaves the store as it is.
  pub create-create :
      (run run' r : RunView A) (key owner : String) (now now' : Time) (b : Bool) (s s' : Store A)
      → Repository.create run key owner now s ≡ (ok (r, b), s')
      → Repository.create run' key owner now' s' ≡ (ok (r, false), s')
  unfolding Repository.create Repository.create_or
  create-create run run' r key owner now now' b s s' h =
      let k = create-find run r key owner now b s s' h in
      elim (Option-cases (find (λ x. x.idempotency_key == scoped_key owner key) s'.runs)) [
        | inl e ↦ cc (rw e at k)
        | inr (x, e) ↦ rw e (ap (λ d. (ok (d, false), s')) (some_inj _ _ (rw e at k)))
      ]
