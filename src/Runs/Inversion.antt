-- ===== src/Runs/Inversion.antt =====
-- Inversion of a service operation that returned.
use course_fuzz.Prelude.{String, some, Option-cases, inl, inr, ◌≡◌, ◌∙◌, refl, ap}
use course_fuzz.Prelude.Result.{Result, ok, raised, ok-injective}
use course_fuzz.Models.{AnalysisResult}
use course_fuzz.Repository
use course_fuzz.Runs.{Ports, Run, require_run, World, Service, continue, ◌>>=◌}

module _ {A B C : Type 0} where
  pub continue-eq-ok :
      (f : B → Service A C) (r : Result B) (w : World A) {c : C}
      → (continue f r w).0 ≡ ok c
      → (b : B) × (r ≡ ok b) × ((f b w).0 ≡ ok c)
  continue-eq-ok f (ok b) w h = (b, refl, h)
  continue-eq-ok f (raised x) w h = cc

  pub >>=-returns :
      (m : Service A B) (f : B → Service A C) (w : World A) {c : C}
      → ((m >>= f) w).0 ≡ ok c
      → (b : B) × ((m w).0 ≡ ok b) × ((f b (m w).1).0 ≡ ok c)
  unfolding ◌>>=◌
  >>=-returns m f w h = continue-eq-ok f (m w).0 (m w).1 h

module _ (ports : Ports) where
  open ports use {env}

  pub require_run-found :
      (run_id tenant_id : String) (w : World (AnalysisResult env.Percent)) (run : Run ports)
      → (require_run ports run_id tenant_id w).0 ≡ ok run
      → Repository.get run_id tenant_id w.store ≡ some run
  unfolding require_run
  require_run-found run_id tenant_id w run e =
      elim (Option-cases (Repository.get run_id tenant_id w.store)) [
        | inl n ↦ cc (rw n at e)
        | inr (x, n) ↦ n ∙ ap some (ok-injective _ _ (rw n at e))
      ]
