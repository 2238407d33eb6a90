-- ===== src/Runs/Apply/Approved.antt =====
-- RunService.approve: what a receipt promises.
use mathlib.Core.Path.{subst}
use course_fuzz.Prelude.{
  suc, String, true, some, is_some, find, lookup, lookup-insert_self, ◌==◌, eq_of_beq, beq_refl,
  string_eq, ◌≡◌, sym, ap, ◌∙◌, inl, inr, Bool-cases, Option-cases,
}
use course_fuzz.Prelude.Result.{ok, ok-injective}
use course_fuzz.Models.{AnalysisResult, CandidatePatch, Time}
use course_fuzz.Repository
use course_fuzz.Repository.{Store, grants, has_id}
use course_fuzz.Runs.{Ports, continue, World, ◌>>=◌, Run, now, require_run}
use course_fuzz.Runs.Inversion.{>>=-returns, continue-eq-ok}
use course_fuzz.Runs.Keeps.{Keeps, Keeps-pure, Keeps-bind, Keeps-now, Keeps-save, Keeps-append}
use course_fuzz.Runs.Apply.{
  ApprovalReceipt, candidate_of, awaiting_approval, approve_candidate, record_approval,
  check_payload, approve,
}

-- A token just given is good for its run and payload.
approve-grants :
    {A : Type 0} (run_id payload token : String) (now : Time) (s : Store A) (r : String × Time)
    → (Repository.approve run_id payload token now s).0 ≡ ok r
    → (r.0 ≡ token)
      × (grants
            (lookup run_id (Repository.approve run_id payload token now s).1.approvals)
            token
            payload
          ≡ true)
unfolding Repository.approve grants
approve-grants run_id payload token now s r h =
    elim (Bool-cases (is_some (find (has_id run_id) s.runs))) [
      | inl e ↦ rw e (
        ap (λ x. x.0) (sym (ok-injective _ _ (rw e at h))),
        rw (lookup-insert_self, beq_refl token, beq_refl payload),
      )
      | inr e ↦ cc (rw e at h)
    ]

module _ (ports : Ports) where
  open ports use {env}

  -- The receipt is for the payload, and its token is good in the store.
  pub record Grants (run_id payload : String) (r : ApprovalReceipt)
      (w w' : World (AnalysisResult env.Percent)) : Type 0 where
    pub payload_sha256 : r.payload_sha256 ≡ payload
    pub granted : grants (lookup run_id w'.store.approvals) r.approval_token payload ≡ true
    pub unwritten : w'.writes ≡ w.writes

  record_approval-Keeps :
      (run : Run ports) (payload : String) (p : String × Time)
      → Keeps (record_approval ports run payload p)
  unfolding record_approval
  record_approval-Keeps run payload (token, approved_at) = Keeps-bind _ _ (Keeps-now ports) λ t.
      Keeps-bind _ _ (Keeps-save ports _)
        λ _. Keeps-bind _ _ (Keeps-append ports _ _ _ _ _) λ _. Keeps-pure _

  record_approval-receipt :
      (run : Run ports) (payload : String) (p : String × Time)
      (w : World (AnalysisResult env.Percent)) (r : ApprovalReceipt)
      → (record_approval ports run payload p w).0 ≡ ok r
      → (r.payload_sha256 ≡ payload) × (r.approval_token ≡ p.0)
  unfolding record_approval
  record_approval-receipt run payload (token, approved_at) w r h =
      let (_, _, h1) = >>=-returns _ _ w h in
      let (_, _, h2) = >>=-returns _ _ _ h1 in
      let (_, _, h3) = >>=-returns _ _ _ h2 in
      let e = sym (ok-injective _ _ h3) in
      (ap (λ x. x.payload_sha256) e, ap (λ x. x.approval_token) e)

  approve_candidate-Grants :
      (run : Run ports) (run_id payload : String) (w : World (AnalysisResult env.Percent))
      (r : ApprovalReceipt)
      → (approve_candidate ports run run_id payload w).0 ≡ ok r
      → Grants run_id payload r w (approve_candidate ports run run_id payload w).1
  unfolding approve_candidate ◌>>=◌
  approve_candidate-Grants run run_id payload w r h =
      let token = ports.token_urlsafe w.calls in
      let t = ports.utc_now (suc w.calls) in
      let R = Repository.approve run_id payload token t w.store in
      let u = record w { store = R.1; calls = suc (suc w.calls) } in
      let (p, q, k) = continue-eq-ok (record_approval ports run payload) R.0 u h in
      let g = approve-grants run_id payload token t w.store p q in
      let s = (record_approval-Keeps run payload p).keeps u in
      let c = record_approval-receipt run payload p u r k in
      subst (λ x. Grants run_id payload r w (continue (record_approval ports run payload) x u).1)
        (sym q)
        (record {
          payload_sha256 = c.0;
          granted =
              subst (λ d. grants (lookup run_id d) r.approval_token payload ≡ true) (sym s.1)
                (subst (λ y. grants (lookup run_id R.1.approvals) y payload ≡ true)
                  (sym (c.1 ∙ g.0)) g.1);
          unwritten = s.0;
        })

  -- An approval that returns a receipt was asked for the hash of the candidate of the run that the
  -- tenant's lookup finds, which waited for approval or had one; the receipt's token is now good
  -- for that run and hash, and nothing was written to a destination.
  pub approve-Grants :
      (run_id payload tenant_id : String) (w : World (AnalysisResult env.Percent))
      (r : ApprovalReceipt)
      → (approve ports run_id payload tenant_id w).0 ≡ ok r
      → (run : Run ports) × (a : AnalysisResult env.Percent) × (c : CandidatePatch)
        × (Repository.get run_id tenant_id w.store ≡ some run)
        × (awaiting_approval run.status ≡ true)
        × (candidate_of run.analysis ≡ some (a, c))
        × (payload ≡ c.payload_sha256)
        × Grants run_id payload r w (approve ports run_id payload tenant_id w).1
  unfolding approve check_payload ◌>>=◌ require_run
  approve-Grants run_id payload tenant_id w r h =
      elim (Option-cases (Repository.get run_id tenant_id w.store)) [
        | inl e ↦ cc (rw e at h)
        | inr (run, e) ↦ elim (Bool-cases (awaiting_approval run.status)) [
          | inr f ↦ cc (rw (e, f) at h)
          | inl f ↦ elim (Option-cases (candidate_of run.analysis)) [
            | inl n ↦ cc (rw (e, f, n) at h)
            | inr ((a, c), n) ↦ elim (Bool-cases (payload == c.payload_sha256)) [
              | inr m ↦ cc (rw (e, f, n, m) at h)
              | inl m ↦ (
                run,
                a,
                c,
                e,
                f,
                n,
                eq_of_beq payload c.payload_sha256 m,
                rw (e, f, n, m)
                    (approve_candidate-Grants run run_id payload w r (rw (e, f, n, m) at h)),
              )
            ]
          ]
        ]
      ]
