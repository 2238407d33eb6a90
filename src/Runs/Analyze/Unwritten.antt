-- ===== src/Runs/Analyze/Unwritten.antt =====
-- An analysis writes to no destination and leaves the approvals alone.
use course_fuzz.Prelude.{String, Option, none, some, refl}
use course_fuzz.Prelude.Result.{Exn}
use course_fuzz.Models.{RunStatus, AnalysisResult, CandidatePatch, status_beq}
use course_fuzz.Engine.Analyze.{analyze}
use course_fuzz.Runs.{Ports, Service, Run, try_else, require_run}
use course_fuzz.Runs.Keeps.{
  Keeps, Keeps-pure, Keeps-call, Keeps-engine, Keeps-bind, Keeps-recover, Keeps-test, Keeps-now,
  Keeps-save, Keeps-append, Keeps-assignment_for_run, Same-trans,
}
use course_fuzz.Runs.Analyze.{
  prepared, verdict_event, approval_event, fail_run, analysed, recorded, analyze_queued,
  analyze_run,
}

Keeps-try :
    {A B C : Type 0} (m : Service A B) (fail : Exn → Service A C) (f : B → Service A C)
    → Keeps m
    → ((x : Exn) → Keeps (fail x))
    → ((b : B) → Keeps (f b))
    → Keeps (try_else m fail f)
unfolding try_else
Keeps-try m fail f h k l = record {
  keeps = λ w.
      Same-trans w (m w).1 (try_else m fail f w).1 (h.keeps w)
        (Keeps-recover fail f k l (m w).0 (m w).1);
}

module _ (ports : Ports) where
  open ports use {env}

  pub Keeps-require_run : (run_id tenant_id : String) → Keeps (require_run ports run_id tenant_id)
  unfolding require_run
  Keeps-require_run run_id tenant_id = record { keeps = λ w. (refl, refl) }

  Keeps-prepared :
      (run : Run ports) (tenant_id : String) (a : AnalysisResult env.Percent)
      (c : Option CandidatePatch)
      → Keeps (prepared ports run tenant_id a c)
  unfolding prepared
  Keeps-prepared run tenant_id a none = Keeps-pure a
  Keeps-prepared run tenant_id a (some c) = Keeps-bind _ _ (Keeps-call _) λ p. Keeps-pure _

  Keeps-verdict_event :
      (run : Run ports) (a : AnalysisResult env.Percent) (c : Option CandidatePatch)
      → Keeps (verdict_event ports run a c)
  unfolding verdict_event
  Keeps-verdict_event run a none = Keeps-bind _ _ (Keeps-append ports _ _ _ _ _) λ _. Keeps-pure _
  Keeps-verdict_event run a (some c) =
      Keeps-bind _ _ (Keeps-append ports _ _ _ _ _) λ _. Keeps-pure _

  Keeps-approval_event :
      (run : Run ports) (c : Option CandidatePatch) → Keeps (approval_event ports run c)
  unfolding approval_event
  Keeps-approval_event run none = Keeps-pure tt
  Keeps-approval_event run (some c) =
      Keeps-bind _ _ (Keeps-append ports _ _ _ _ _) λ _. Keeps-pure _

  Keeps-fail_run : (run : Run ports) (x : Exn) → Keeps (fail_run ports run x)
  unfolding fail_run
  Keeps-fail_run run x = Keeps-bind _ _ (Keeps-now ports) λ t.
      Keeps-bind _ _ (Keeps-save ports _)
        λ _. Keeps-bind _ _ (Keeps-append ports _ _ _ _ _) λ _. Keeps-pure _

  Keeps-analysed : (run : Run ports) (tenant_id : String) → Keeps (analysed ports run tenant_id)
  unfolding analysed
  Keeps-analysed run tenant_id = Keeps-bind _ _ (Keeps-save ports _) λ _.
      Keeps-bind _ _ (Keeps-append ports _ _ _ _ _) λ _.
        Keeps-bind _ _ (Keeps-assignment_for_run ports run tenant_id) λ assignment.
          Keeps-bind _ _ (Keeps-engine (analyze env assignment)) λ found.
            Keeps-bind _ _ (Keeps-prepared run tenant_id found found.candidate) λ a.
              Keeps-bind _ _ (Keeps-append ports _ _ _ _ _) λ _.
                Keeps-bind _ _ (Keeps-verdict_event run a a.candidate)
                  λ next_status. Keeps-bind _ _ (Keeps-now ports) λ t. Keeps-pure _

  Keeps-recorded : (run : Run ports) (a : AnalysisResult env.Percent) → Keeps (recorded ports run a)
  unfolding recorded
  Keeps-recorded run a =
      Keeps-bind _ _ (Keeps-save ports _) λ _. Keeps-approval_event run a.candidate

  Keeps-analyze_queued :
      (run : Run ports) (tenant_id : String) → Keeps (analyze_queued ports run tenant_id)
  unfolding analyze_queued
  Keeps-analyze_queued run tenant_id = Keeps-bind _ _ (Keeps-now ports) λ t.
      let analyzing : Run ports = record run { status = RunStatus.analyzing; updated_at = t } in
      Keeps-try _ _ _ (Keeps-analysed analyzing tenant_id) (Keeps-fail_run analyzing)
        λ r. Keeps-try _ _ _ (Keeps-recorded r.0 r.1) (Keeps-fail_run r.0) λ _. Keeps-pure _

  pub Keeps-analyze_run : (run_id tenant_id : String) → Keeps (analyze_run ports run_id tenant_id)
  unfolding analyze_run
  Keeps-analyze_run run_id tenant_id = Keeps-bind _ _ (Keeps-require_run run_id tenant_id) λ run.
      Keeps-test (status_beq run.status RunStatus.queued) _ _ (Keeps-analyze_queued run tenant_id)
        (Keeps-pure tt)
