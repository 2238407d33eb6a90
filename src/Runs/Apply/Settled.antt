-- ===== src/Runs/Apply/Settled.antt =====
-- RunService.apply: what a run that it returns stands for.
use mathlib.Core.Path.{subst}
use course_fuzz.Prelude.{
  ℕ, String, true, false, Option, none, some, ◌≡◌, refl, sym, ap, ◌∙◌, inl, inr, arith, Bool-cases,
}
use course_fuzz.Prelude.Result.{Result, Exn, ok, raised, ok-injective}
use course_fuzz.Models.{
  AssignmentSpec, RunStatus, AnalysisResult, MutationMetrics, CandidatePatch, ActionReceipt, Time,
  status_beq,
}
use course_fuzz.Engine.Analyze.{verify_applied_patch}
use course_fuzz.Repository
use course_fuzz.Runs.{
  Ports, AppliedDestination, World, Service, recover, try_else, Run, append, require_run,
  assignment_for_run,
}
use course_fuzz.Runs.Inversion.{>>=-returns, require_run-found}
use course_fuzz.Runs.Apply.{
  candidate_of, awaits_ci, metrics_same, write_destination, written, write_failed, hold_for_ci,
  finish, settle, apply_claimed, apply_approved, apply, keep_artifact,
}

module _ {A B C : Type 0} where
  -- An operation whose `except` clause always raises has returned from its `try` clause.
  recover-returned :
      (fail : Exn → Service A C) (f : B → Service A C) (r : Result B) (w : World A) {c : C}
      → ((x : Exn) → (fail x w).0 ≡ ok c → ⊥)
      → (recover fail f r w).0 ≡ ok c
      → (b : B) × (r ≡ ok b) × ((f b w).0 ≡ ok c)
  recover-returned fail f (ok b) w n h = (b, refl, h)
  recover-returned fail f (raised x) w n h = absurd (n x h)

  try_else-returned :
      (m : Service A B) (fail : Exn → Service A C) (f : B → Service A C) (w : World A) {c : C}
      → ((x : Exn) → (fail x (m w).1).0 ≡ ok c → ⊥)
      → (try_else m fail f w).0 ≡ ok c
      → (b : B) × ((m w).0 ≡ ok b) × ((f b (m w).1).0 ≡ ok c)
  unfolding try_else
  try_else-returned m fail f w n h = recover-returned fail f (m w).0 (m w).1 n h

module _ (ports : Ports) where
  open ports use {env}

  -- How the status and the receipt of a run follow from what the destination answered.
  pub data Settled (receipt : ActionReceipt) (run : Run ports) : Type 0 where
    held :
        awaits_ci receipt.kind receipt.commit_sha ≡ true
        → run.status ≡ RunStatus.external_ci_pending
        → (started : Time)
        → run.action_receipt ≡ some (record receipt { external_ci_started_at = some started })
        → Settled receipt run
    done :
        awaits_ci receipt.kind receipt.commit_sha ≡ false
        → run.status ≡ RunStatus.verified
        → run.action_receipt ≡ some receipt
        → Settled receipt run

  -- What lies behind a run that an apply has settled.
  pub record Backed (run_id tenant_id : String) (a : AnalysisResult env.Percent)
      (c : CandidatePatch) (run : Run ports) : Type 0 where
    pub applied : AppliedDestination
    pub call : ℕ
    pub answered : ports.apply call run_id c tenant_id ≡ ok applied
    pub assignment : AssignmentSpec
    pub metrics : MutationMetrics env.Percent
    pub reruns : ℕ
    pub rerun : (verify_applied_patch env assignment c reruns).0 ≡ ok metrics
    pub as_projected : metrics_same ports metrics a.projected_after ≡ true
    pub artifact : run.artifact_sha256 ≡ some applied.receipt.artifact_sha256
    pub settled : Settled applied.receipt run

  write_failed-raises :
      (applying run : Run ports) (x : Exn) (w : World (AnalysisResult env.Percent))
      → (write_failed ports applying x w).0 ≡ ok run
      → ⊥
  unfolding write_failed
  write_failed-raises applying run x w h =
      let (_, _, h1) = >>=-returns _ _ w h in
      let (_, _, h2) = >>=-returns _ _ _ h1 in let (_, _, h3) = >>=-returns _ _ _ h2 in cc h3

  pub settle-Settled :
      (applying run : Run ports) (applied : AppliedDestination)
      (metrics : MutationMetrics env.Percent) (w : World (AnalysisResult env.Percent))
      → (settle ports applying (applied, metrics) w).0 ≡ ok run
      → (run.artifact_sha256 ≡ some applied.receipt.artifact_sha256) × Settled applied.receipt run
  unfolding settle hold_for_ci finish
  settle-Settled applying run applied metrics w h =
      elim (Bool-cases (awaits_ci applied.receipt.kind applied.receipt.commit_sha)) [
        | inl e ↦
            let (started, _, h1) = >>=-returns _ _ w (rw e at h) in
            let (_, _, h2) = >>=-returns _ _ _ h1 in
            let (_, _, h3) = >>=-returns _ _ _ h2 in
            let (_, _, h4) = >>=-returns _ _ _ h3 in
            let k = ok-injective _ _ h4 in
            (
              ap (λ r. r.artifact_sha256) (sym k),
              Settled.held e (ap (λ r. r.status) (sym k)) started
                  (ap (λ r. r.action_receipt) (sym k)),
            )
        | inr e ↦
            let (_, _, h1) = >>=-returns _ _ w (rw e at h) in
            let (_, _, h2) = >>=-returns _ _ _ h1 in
            let (_, _, h3) = >>=-returns _ _ _ h2 in
            let k = ok-injective _ _ h3 in
            (
              ap (λ r. r.artifact_sha256) (sym k),
              Settled.done e (ap (λ r. r.status) (sym k)) (ap (λ r. r.action_receipt) (sym k)),
            )
      ]

  written-Backed :
      (run applying settled : Run ports) (a : AnalysisResult env.Percent) (c : CandidatePatch)
      (tenant_id : String) (w v : World (AnalysisResult env.Percent))
      (p : AppliedDestination × MutationMetrics env.Percent)
      → (written ports run a c tenant_id w).0 ≡ ok p
      → (settle ports applying p v).0 ≡ ok settled
      → Backed run.id tenant_id a c settled
  unfolding written write_destination
  written-Backed run applying settled a c tenant_id w v p h k =
      let (applied, e1, h1) = >>=-returns (write_destination ports run.id c tenant_id) _ w h in
      let (assignment, e2, h2) = >>=-returns (assignment_for_run ports run tenant_id) _ _ h1 in
      let (metrics, e3, h3) = >>=-returns _ _ _ h2 in
      elim (Bool-cases (metrics_same ports metrics a.projected_after)) [
        | inl e ↦
            let (_, _, h4) =
              >>=-returns (keep_artifact ports run.id applied applied.local_path) _ _
                (rw e at h3) in
            let q : (applied, metrics) ≡ p = ok-injective _ _ h4 in
            let s =
              settle-Settled applying settled applied metrics v
                (subst (λ x. (settle ports applying x v).0 ≡ ok settled) (sym q) k) in
            record {
              applied = applied;
              call = w.calls;
              answered = e1;
              assignment = assignment;
              metrics = metrics;
              reruns = _;
              rerun = e3;
              as_projected = e;
              artifact = s.0;
              settled = s.1;
            }
        | inr e ↦ cc (rw e at h3)
      ]

  -- What a run that `apply` returned was before.
  pub data Outcome (run_id tenant_id : String) (w : World (AnalysisResult env.Percent))
      (run : Run ports) : Type 0 where
    verified_before :
        Repository.get run_id tenant_id w.store ≡ some run
        → run.status ≡ RunStatus.verified
        → Outcome run_id tenant_id w run
    applied_now :
        (before : Run ports) (a : AnalysisResult env.Percent) (c : CandidatePatch)
        → Repository.get run_id tenant_id w.store ≡ some before
        → before.status ≡ RunStatus.approved
        → candidate_of before.analysis ≡ some (a, c)
        → Backed before.id tenant_id a c run
        → Outcome run_id tenant_id w run

  apply_approved-Backed :
      (before run : Run ports) (token tenant_id : String)
      (o : Option (AnalysisResult env.Percent × CandidatePatch))
      (w : World (AnalysisResult env.Percent))
      → (apply_approved ports before token tenant_id o w).0 ≡ ok run
      → (a : AnalysisResult env.Percent) × (c : CandidatePatch) × (o ≡ some (a, c))
        × Backed before.id tenant_id a c run
  unfolding apply_approved apply_claimed
  apply_approved-Backed before run token tenant_id none w h = cc
  apply_approved-Backed before run token tenant_id (some (a, c)) w h =
      let (t, _, h1) = >>=-returns _ _ w h in
      let (claimed, _, h2) = >>=-returns _ _ _ h1 in
      elim (Bool-cases claimed) [
        | inl e ↦
            let (_, _, h3) = >>=-returns (append ports _ _ _ _ _) _ _ (rw e at h2) in
            let applying : Run ports = record before {
              status = RunStatus.applying;
              updated_at = t;
            } in
            let (p, h4, h5) =
              try_else-returned (written ports before a c tenant_id) (write_failed ports applying)
                (settle ports applying) _ (λ x. write_failed-raises applying run x _) h3 in
            (a, c, refl, written-Backed before applying run a c tenant_id _ _ p h4 h5)
        | inr e ↦ cc (rw e at h2)
      ]

  status_beq-verified :
      (s : RunStatus) → status_beq s RunStatus.verified ≡ true → s ≡ RunStatus.verified
  status_beq-verified s h = ground arith

  status_beq-approved :
      (s : RunStatus) → status_beq s RunStatus.approved ≡ true → s ≡ RunStatus.approved
  status_beq-approved s h = ground arith

  -- A run that `apply` returns was verified before and is unchanged; or it was approved, the
  -- destination has answered its candidate with a receipt, the suite with the candidate ran again
  -- to the metrics that were projected, and the run keeps the receipt's digest and waits for the
  -- target's CI exactly when the receipt names a commit of a pull request, else it is verified.
  pub apply-Outcome :
      (run_id token tenant_id : String) (w : World (AnalysisResult env.Percent)) (run : Run ports)
      → (apply ports run_id token tenant_id w).0 ≡ ok run
      → Outcome run_id tenant_id w run
  unfolding apply require_run
  apply-Outcome run_id token tenant_id w run h =
      let (before, e, h1) = >>=-returns (require_run ports run_id tenant_id) _ w h in
      let found = require_run-found ports run_id tenant_id w before e in
      elim (Bool-cases (status_beq before.status RunStatus.verified)) [
        | inl f ↦
            let k : before ≡ run = ok-injective _ _ (rw f at h1) in
            Outcome.verified_before (found ∙ ap some k)
              (ap (λ r. r.status) (sym k) ∙ status_beq-verified before.status f)
        | inr f ↦ elim (Bool-cases (status_beq before.status RunStatus.approved)) [
          | inl g ↦
              let (a, c, q, b) =
                apply_approved-Backed before run token tenant_id (candidate_of before.analysis) _
                  (rw (f, g) at h1) in
              Outcome.applied_now before a c found (status_beq-approved before.status g) q b
          | inr g ↦ cc (rw (f, g) at h1)
        ]
      ]
