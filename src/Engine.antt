-- ===== src/Engine.antt =====
-- The assessment engine (src/coursefuzz/domain/engine.py): what it is given, and its effects.
-- The clock, the sandbox and the hypothesis provider may answer differently at each call, so a run
-- carries the number of calls made so far, and an answer depends on it.
pub mod Measure
pub mod Verify
pub mod Select
pub mod Patch
pub mod Analyze
use course_fuzz.Prelude.{ℕ, ◌-◌, ◌≡◌, refl, suc, String, Bool, Option, List, ℤ, leb, if◌then◌else◌}
use course_fuzz.Prelude.Result.{Result, Exn, ok, raised, timeout_error}
use course_fuzz.Models.{
  ProgramVariant, TestCase, SuiteExecution, HypothesisContext, SurvivorHint, AttackHypothesis,
  CandidatePatch,
}
use course_fuzz.Models.Atom.{JsonAtom}

pub record Env : Type 1 where
  -- floats: `round((a / b) * 100, 1)` and `100.0`
  pub Percent : Type 0
  pub percent : ℕ → ℕ → Percent
  pub hundred : Percent
  -- `time.monotonic()`, in any unit of time
  pub monotonic : ℕ → ℕ
  pub max_analysis : ℕ
  -- `self.sandbox.run_suite_batch` with the time that remains
  pub run_suite_batch :
      ℕ → List ProgramVariant → String → List TestCase → ℕ → Result (List SuiteExecution)
  -- `self.hypotheses.propose`
  pub propose : ℕ → HypothesisContext → List SurvivorHint → Result (List AttackHypothesis)
  -- `analyze_source_ast`: the boundary constants and the comparison operators
  pub analyze_source_ast : String → List ℤ × List String
  -- `hashlib.sha256(text).hexdigest()`
  pub sha256_hex : String → String
  -- `json.dumps` of a candidate without its id and hash, and of a test's inputs and expected value
  pub candidate_json : CandidatePatch → String
  pub case_json : List ℤ → Option JsonAtom → String
  -- `repr` of an input tuple and of an expected value
  pub repr_inputs : List ℤ → String
  pub repr_expected : Option JsonAtom → String
  -- `re.sub(r"[^a-zA-Z0-9_]", "_", name).lower()`
  pub safe_identifier : String → String

-- An effect: it may raise, and it uses up calls.
abbrev pub Timed {ℓ} : Type ℓ → Type ℓ
Timed A = ℕ → Result A × ℕ

module _ {ℓ} {A : Type ℓ} where
  abbrev pub pure : A → Timed A
  pure a n = (ok a, n)

  abbrev pub raise : Exn → Timed A
  raise x n = (raised x, n)

  abbrev pub lift : Result A → Timed A
  lift r n = (r, n)

module _ {ℓ κ} {A : Type ℓ} {B : Type κ} where
  abbrev pub continue : (A → Timed B) → Result A → Timed B
  continue f (ok a) k = f a k
  continue f (raised x) k = (raised x, k)

  infixl 5 ◌>>=◌
  abbrev pub ◌>>=◌ : Timed A → (A → Timed B) → Timed B
  ◌>>=◌ m f n = continue f (m n).0 (m n).1

module _ (env : Env) where
  open env use {monotonic, run_suite_batch}

  -- _run_suite_batch: no call of the sandbox once the deadline has passed.
  unfoldable pub run_batch :
      List ProgramVariant → String → List TestCase → (deadline : ℕ) → Timed (List SuiteExecution)
  run_batch programs entrypoint tests deadline n =
      if leb deadline (monotonic n)
      then (raised (timeout_error "Analysis exceeded its total execution deadline"), suc n)
      else (run_suite_batch (suc n) programs entrypoint tests (deadline - monotonic n), suc (suc n))

-- Inversion of an effect that returned.
pub >>=-eq-ok {ℓ κ} :
    {A : Type ℓ} {B : Type κ} (m : Timed A) (f : A → Timed B) (n : ℕ) {b : B}
    → ((m >>= f) n).0 ≡ ok b
    → (a : A) × ((m n).0 ≡ ok a) × ((f a (m n).1).0 ≡ ok b)
>>=-eq-ok {A} {B} m f n {b} h = split (m n).0 (m n).1 h
  where
    split :
        (r : Result A) (k : ℕ)
        → (continue f r k).0 ≡ ok b
        → (a : A) × (r ≡ ok a) × ((f a k).0 ≡ ok b)
    split (ok a) k e = (a, refl, e)
    split (raised x) k e = cc
