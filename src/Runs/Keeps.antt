-- ===== src/Runs/Keeps.antt =====
-- Operations of the run service that write to no destination and leave the approvals as they are.
use course_fuzz.Prelude.{
  ℕ, String, Bool, true, false, is_some, find, if◌then◌else◌, ◌≡◌, refl, ◌∙◌, inl, inr, Bool-cases,
  nat_beq, count, string_eq,
}
use course_fuzz.Prelude.Result.{Result, Exn, ok, raised}
use course_fuzz.Models.{AnalysisResult, Time}
use course_fuzz.Engine.{Timed}
use course_fuzz.Repository
use course_fuzz.Repository.{Method, Store, grants, has_id}
use course_fuzz.Runs.{
  Ports, Payload, World, Service, pure, raise, engine, call, continue, recover, ◌>>=◌, Run, now,
  timed, save, append, assignment_for_run, bound,
}

-- The two worlds have the same log and the same approvals.
abbrev pub Same : {A : Type 0} → World A → World A → Type 0
Same w w' = (w'.writes ≡ w.writes) × (w'.store.approvals ≡ w.store.approvals)

pub record Keeps {A B : Type 0} (m : Service A B) : Type 0 where
  pub keeps : (w : World A) → Same w (m w).1

module _ {A : Type 0} where
  pub Same-trans : (u v w : World A) → Same u v → Same v w → Same u w
  Same-trans u v w h k = (k.0 ∙ h.0, k.1 ∙ h.1)

module _ {A : Type 0} where
  pub Keeps-raise : (B : Type 0) (x : Exn) → Keeps {A = A} {B = B} (raise x)
  Keeps-raise B x = record { keeps = λ w. (refl, refl) }

module _ {A B : Type 0} where
  pub Keeps-pure : (b : B) → Keeps {A = A} (pure b)
  Keeps-pure b = record { keeps = λ w. (refl, refl) }

  pub Keeps-call : (f : ℕ → Result B) → Keeps {A = A} (call f)
  Keeps-call f = record { keeps = λ w. (refl, refl) }

  pub Keeps-engine : (m : Timed B) → Keeps {A = A} (engine m)
  Keeps-engine m = record { keeps = λ w. (refl, refl) }

module _ {A B C : Type 0} where
  pub Keeps-continue :
      (f : B → Service A C)
      → ((b : B) → Keeps (f b))
      → (r : Result B) (w : World A) → Same w (continue f r w).1
  Keeps-continue f h (ok b) w = (h b).keeps w
  Keeps-continue f h (raised x) w = (refl, refl)

  pub Keeps-bind :
      (m : Service A B) (f : B → Service A C) → Keeps m → ((b : B) → Keeps (f b)) → Keeps (m >>= f)
  unfolding ◌>>=◌
  Keeps-bind m f h k = record {
    keeps = λ w.
        Same-trans w (m w).1 (continue f (m w).0 (m w).1).1 (h.keeps w)
          (Keeps-continue f k (m w).0 (m w).1);
  }

  pub Keeps-recover :
      (fail : Exn → Service A C) (f : B → Service A C)
      → ((x : Exn) → Keeps (fail x))
      → ((b : B) → Keeps (f b))
      → (r : Result B) (w : World A) → Same w (recover fail f r w).1
  Keeps-recover fail f h k (ok b) w = (k b).keeps w
  Keeps-recover fail f h k (raised x) w = (h x).keeps w

module _ {A B : Type 0} where
  pub Keeps-test : (b : Bool) (m n : Service A B) → Keeps m → Keeps n → Keeps (if b then m else n)
  Keeps-test true m n h k = h
  Keeps-test false m n h k = k

module _ (ports : Ports) where
  open ports use {env}

  pub Keeps-now : Keeps (now ports)
  Keeps-now = record { keeps = λ w. (refl, refl) }

  pub Keeps-timed :
      {B : Type 0} (m : Time → Method (AnalysisResult env.Percent) B)
      → ((t : Time) (s : Store (AnalysisResult env.Percent)) → (m t s).1.approvals ≡ s.approvals)
      → Keeps (timed ports m)
  Keeps-timed m h = Keeps-bind _ _ Keeps-now λ t. record { keeps = λ w. (refl, h t w.store) }

  pub Keeps-save : (run : Run ports) → Keeps (save ports run)
  unfolding Repository.save
  Keeps-save run = Keeps-timed _ λ t w.
      elim (Bool-cases (nat_beq (count (has_id run.id) w.runs) 1)) [
        | inl e ↦ rw e refl
        | inr e ↦ rw e refl
      ]

  pub Keeps-append :
      (run_id event_type stage message : String) (p : Payload env.Percent)
      → Keeps (append ports run_id event_type stage message p)
  unfolding Repository.append_event
  Keeps-append run_id event_type stage message p = Keeps-timed _ λ t w.
      elim (Bool-cases (is_some (find (has_id run_id) w.runs))) [
        | inl e ↦ rw e refl
        | inr e ↦ rw e refl
      ]

  pub Keeps-save_artifact :
      (run_id path filename sha256 : String) (content : Result String)
      → Keeps (timed ports (Repository.save_artifact run_id path filename sha256 content))
  unfolding Repository.save_artifact
  Keeps-save_artifact run_id path filename sha256 (raised x) = Keeps-timed _ λ t w. refl
  Keeps-save_artifact run_id path filename sha256 (ok content) = Keeps-timed _ λ t w.
      elim (Bool-cases (is_some (find (has_id run_id) w.runs))) [
        | inl e ↦ rw e refl
        | inr e ↦ rw e refl
      ]

  pub Keeps-assignment_for_run :
      (run : Run ports) (tenant_id : String) → Keeps (assignment_for_run ports run tenant_id)
  unfolding assignment_for_run
  Keeps-assignment_for_run run tenant_id = Keeps-bind _ _ (Keeps-call _) λ snapshot.
      Keeps-test (bound run.assignment_snapshot_sha256 snapshot.snapshot_sha256) _ _ (Keeps-pure _)
        (Keeps-raise _ _)
