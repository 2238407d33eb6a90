-- ===== src/Runs/Apply/Authorized.antt =====
-- RunService.apply writes to a destination only what an unspent approval covers.
use mathlib.Core.Path.{subst}
use course_fuzz.Prelude.{
  suc, String, Bool, true, false, Option, none, some, [], ◌∷◌, ◌++◌, lookup, if◌then◌else◌, ◌≡◌,
  refl, sym, ap, ◌∙◌, ◌⊎◌, inl, inr, Bool-cases, Option-cases, string_eq, arith,
}
use course_fuzz.Prelude.Result.{Result, Exn, ok, raised, value_error}
use course_fuzz.Models.{RunStatus, AnalysisResult, MutationMetrics, CandidatePatch, status_beq}
use course_fuzz.Engine.Analyze.{verify_applied_patch}
use course_fuzz.Repository
use course_fuzz.Repository.{Method, Store, grants, has_id}
use course_fuzz.Repository.Claims.{claim-outcome}
use course_fuzz.Runs.{
  Ports, Payload, AppliedDestination, Write, World, Service, raise, continue, ◌>>=◌, try_else, Act,
  Run, append, require_run,
}
use course_fuzz.Runs.Keeps.{
  Same, Keeps, Keeps-raise, Keeps-pure, Keeps-call, Keeps-engine, Keeps-continue, Keeps-bind,
  Keeps-recover, Keeps-test, Keeps-now, Keeps-save, Keeps-append, Keeps-save_artifact,
  Keeps-assignment_for_run,
}
use course_fuzz.Runs.Apply
use course_fuzz.Runs.Apply.{candidate_of, metrics_same, write_destination, apply_claimed, apply}

-- One more entry, the approvals as they were.
abbrev Logged : {A : Type 0} → World A → Write → World A → Type 0
Logged w x w' = (w'.writes ≡ w.writes ++ x ∷ []) × (w'.store.approvals ≡ w.store.approvals)

module _ {A B C : Type 0} where
  Logged-recover :
      (m : Service A B) (fail : Exn → Service A C) (f : B → Service A C) (w : World A) (x : Write)
      → Logged w x (m w).1
      → ((e : Exn) → Keeps (fail e))
      → ((b : B) → Keeps (f b))
      → Logged w x (try_else m fail f w).1
  unfolding try_else
  Logged-recover m fail f w x l h k =
      let s = Keeps-recover fail f h k (m w).0 (m w).1 in (s.0 ∙ l.0, s.1 ∙ l.1)

  Logged-continue :
      (f : B → Service A C) (r : Result B) (w u : World A) (x : Write)
      → Same w u
      → ((b : B) → Logged u x (f b u).1)
      → Same w (continue f r u).1 ⊎ Logged w x (continue f r u).1
  Logged-continue f (ok b) w u x s h = inr ((h b).0 ∙ ap (λ l. l ++ x ∷ []) s.0, (h b).1 ∙ s.1)
  Logged-continue f (raised e) w u x s h = inl s

module _ (ports : Ports) where
  open ports use {env}

  Keeps-write_failed :
      (applying : Run ports) (x : Exn) → Keeps (Apply.write_failed ports applying x)
  unfolding Apply.write_failed
  Keeps-write_failed applying x = Keeps-bind _ _ (Keeps-now ports) λ t.
      Keeps-bind _ _ (Keeps-save ports _)
        λ _. Keeps-bind _ _ (Keeps-append ports _ _ _ _ _) λ _. Keeps-raise _ x

  Keeps-settle :
      (applying : Run ports) (r : AppliedDestination × MutationMetrics env.Percent)
      → Keeps (Apply.settle ports applying r)
  unfolding Apply.settle Apply.hold_for_ci Apply.finish
  Keeps-settle applying (applied, metrics) =
      Keeps-test (Apply.awaits_ci applied.receipt.kind applied.receipt.commit_sha) _ _
        (Keeps-bind _ _ (Keeps-now ports) λ _. Keeps-bind _ _ (Keeps-now ports) λ _.
          Keeps-bind _ _ (Keeps-save ports _)
            λ _. Keeps-bind _ _ (Keeps-append ports _ _ _ _ _) λ _. Keeps-pure _)
        (Keeps-bind _ _ (Keeps-now ports) λ _.
          Keeps-bind _ _ (Keeps-save ports _)
            λ _. Keeps-bind _ _ (Keeps-append ports _ _ _ _ _) λ _. Keeps-pure _)

  Keeps-keep_artifact :
      (run_id : String) (applied : AppliedDestination) (path : Option String)
      → Keeps (Apply.keep_artifact ports run_id applied path)
  unfolding Apply.keep_artifact
  Keeps-keep_artifact run_id applied none = Keeps-pure tt
  Keeps-keep_artifact run_id applied (some path) =
      Keeps-bind _ _ (Keeps-call _) λ content. Keeps-save_artifact ports run_id path _ _ content

  -- The entry that a write of the run leaves in the log.
  abbrev entry : Run ports → CandidatePatch → (tenant_id : String) → Write
  entry run c tenant_id = record { run_id = run.id; candidate = c; tenant_id = tenant_id }

  written-Logged :
      (run : Run ports) (a : AnalysisResult env.Percent) (c : CandidatePatch) (tenant_id : String)
      (w : World (AnalysisResult env.Percent))
      → Logged w (entry run c tenant_id) (Apply.written ports run a c tenant_id w).1
  unfolding Apply.written ◌>>=◌ write_destination
  written-Logged run a c tenant_id w =
      let u = (write_destination ports run.id c tenant_id w).1 in
      let s =
        Keeps-continue _
          (λ applied. Keeps-bind _ _ (Keeps-assignment_for_run ports run tenant_id) λ assignment.
            Keeps-bind _ _ (Keeps-engine (verify_applied_patch env assignment c)) λ metrics.
              Keeps-test (metrics_same ports metrics a.projected_after) _ _
                (Keeps-bind _ _ (Keeps-keep_artifact run.id applied applied.local_path)
                  λ _. Keeps-pure _)
                (Keeps-raise _ _))
          (write_destination ports run.id c tenant_id w).0 u in
      s

  apply_claimed-Logged :
      (run applying : Run ports) (a : AnalysisResult env.Percent) (c : CandidatePatch)
      (tenant_id : String) (w : World (AnalysisResult env.Percent))
      → let w' = (apply_claimed ports run applying a c tenant_id w).1 in
        Same w w' ⊎ Logged w (entry run c tenant_id) w'
  unfolding apply_claimed
  apply_claimed-Logged run applying a c tenant_id w =
      let started =
        append ports run.id "patch.applying" "apply"
          "Writing the approved regression test and rerunning every mutant." Payload.no_payload in
      unfold ◌>>=◌ in
      Logged-continue
        (λ _.
          try_else (Apply.written ports run a c tenant_id) (Apply.write_failed ports applying)
            (Apply.settle ports applying))
        (started w).0 w (started w).1 (entry run c tenant_id)
        ((Keeps-append ports _ _ _ _ _).keeps w)
        λ _.
          Logged-recover _ _ _ (started w).1 (entry run c tenant_id)
            (written-Logged run a c tenant_id (started w).1) (Keeps-write_failed applying)
            (Keeps-settle applying)

  -- What stands behind a write: the run as its tenant sees it, approved, its candidate, an unspent
  -- approval for this token and the candidate's payload, and no approval left after it.
  pub record Authorized (run_id token tenant_id : String)
      (w w' : World (AnalysisResult env.Percent)) : Type 0 where
    pub run : Run ports
    pub analysis : AnalysisResult env.Percent
    pub candidate : CandidatePatch
    pub stored : Repository.get run_id tenant_id w.store ≡ some run
    pub approved : run.status ≡ RunStatus.approved
    pub has_candidate : candidate_of run.analysis ≡ some (analysis, candidate)
    pub granted : grants (lookup run.id w.store.approvals) token candidate.payload_sha256 ≡ true
    pub logged : w'.writes ≡ w.writes ++ entry run candidate tenant_id ∷ []
    pub spent :
        (token' payload' : String)
        → grants (lookup run.id w'.store.approvals) token' payload' ≡ false

  status-approved :
      (s : RunStatus) → status_beq s RunStatus.approved ≡ true → s ≡ RunStatus.approved
  status-approved s h = ground arith

  claimed-Authorized :
      (run_id token tenant_id : String) (run : Run ports) (a : AnalysisResult env.Percent)
      (c : CandidatePatch) (w : World (AnalysisResult env.Percent))
      → Repository.get run_id tenant_id w.store ≡ some run
      → run.status ≡ RunStatus.approved
      → candidate_of run.analysis ≡ some (a, c)
      → let w' = (Apply.apply_approved ports run token tenant_id (some (a, c)) w).1 in
        (w'.writes ≡ w.writes) ⊎ Authorized run_id token tenant_id w w'
  unfolding Apply.apply_approved ◌>>=◌
  claimed-Authorized run_id token tenant_id run a c w g s e =
      let t = ports.utc_now w.calls in
      let t' = ports.utc_now (suc w.calls) in
      let applying = record run { status = RunStatus.applying; updated_at = t } in
      let K : Bool → Act ports (Run ports) = λ claimed.
        if claimed
        then apply_claimed ports run applying a c tenant_id
        else raise (value_error "Approval token is invalid for this exact payload") in
      let R = Repository.claim_approved_apply applying token c.payload_sha256 t' w.store in
      let u = record w { store = R.1; calls = suc (suc w.calls) } in
      elim (claim-outcome applying token c.payload_sha256 t' w.store) [
        | inl f ↦ inl (
            subst
              (λ q.
                (continue K q.0 (record w { store = q.1; calls = suc (suc w.calls) })).1.writes
                ≡ w.writes)
              (sym f) refl)
        | inr (r, gr, sp) ↦
            subst
              (λ q.
                ((continue K q u).1.writes ≡ w.writes)
                ⊎ Authorized run_id token tenant_id w (continue K q u).1)
              (sym r)
              (elim (apply_claimed-Logged run applying a c tenant_id u) [
                | inl same ↦ inl same.0
                | inr l ↦ inr record {
                  run = run;
                  analysis = a;
                  candidate = c;
                  stored = g;
                  approved = s;
                  has_candidate = e;
                  granted = gr;
                  logged = l.0;
                  spent = λ token' payload'.
                      subst (λ d. grants (lookup run.id d) token' payload' ≡ false) (sym l.1)
                        (sp token' payload');
                }
              ])
      ]

  -- An apply either leaves the log of destination writes as it was, or adds one entry to it: the
  -- candidate of the run that the tenant's lookup finds, stored as approved, under an approval that
  -- was not consumed and was given for this token and this candidate's hash; and after it no token
  -- and payload are granted for the run any more.
  pub apply-Authorized :
      (run_id token tenant_id : String) (w : World (AnalysisResult env.Percent))
      → let w' = (apply ports run_id token tenant_id w).1 in
        (w'.writes ≡ w.writes) ⊎ Authorized run_id token tenant_id w w'
  unfolding apply ◌>>=◌ require_run Apply.apply_approved
  apply-Authorized run_id token tenant_id w =
      elim (Option-cases (Repository.get run_id tenant_id w.store)) [
        | inl e ↦ rw e (inl refl)
        | inr (run, e) ↦ elim (Bool-cases (status_beq run.status RunStatus.verified)) [
          | inl v ↦ rw (e, v) (inl refl)
          | inr v ↦ elim (Bool-cases (status_beq run.status RunStatus.approved)) [
            | inl h ↦ elim (Option-cases (candidate_of run.analysis)) [
              | inl n ↦ rw (e, v, h, n) (inl refl)
              | inr ((a, c), q) ↦
                  rw (e, v, h, q)
                    (claimed-Authorized run_id token tenant_id run a c w e
                      (status-approved run.status h) q)
            ]
            | inr h ↦ rw (e, v, h) (inl refl)
          ]
        ]
      ]
