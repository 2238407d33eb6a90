-- ===== src/Examples/Hypotheses.antt =====
-- The theorems on the generators, on an assignment with two inputs.
use course_fuzz.Prelude.{
  ℕ, pos, negsuc, String, true, some, [], ◌∷◌, map, length, All, list_eq, int_eq, string_eq, ◌≡◌,
  refl, arith,
}
use course_fuzz.Prelude.Result.{ok, ◌>>=◌}
use course_fuzz.Models.{AttackHypothesis, HypothesisContext, Provider}
use course_fuzz.Hypotheses.{
  Candidate, GeneratorScheduler, propose, deterministic_scheduler, in_domain, boundary_candidates,
}
use course_fuzz.Hypotheses.Budget.{IsProposal, propose-IsProposal}
use course_fuzz.Hypotheses.Domain.{boundary_candidates-in_domain}
use course_fuzz.Hypotheses.Deterministic.{deterministic_propose}
use course_fuzz.Hypotheses.Reproduced.{
  anonymous_hypothesis, deterministic_scheduler-deterministic_propose,
}

abbrev context : HypothesisContext
context = record {
  title = "minimum";
  summary = "the smaller of two";
  input_names = "a" ∷ "b" ∷ [];
  domain_min = negsuc 0;
  domain_max = pos 5;
  existing_tests = (pos 3 ∷ pos 2 ∷ [], "descending") ∷ [];
  ast_constants = [];
  ast_operators = [];
  previous_feedback = [];
}

abbrev shown : ℕ → String
shown n = "n"

abbrev fixed : Candidate
fixed = record {
  inputs = pos 3 ∷ pos 2 ∷ [];
  rationale = "known";
  misconception = "none";
  generator = some "fixed";
}

abbrev fresh : Candidate
fresh = record fixed { inputs = pos 1 ∷ pos 2 ∷ [] }

abbrev scheduler : GeneratorScheduler
scheduler = record { generators = (λ c s. ok (fixed ∷ fresh ∷ fresh ∷ [])) ∷ []; budget = 2 }

abbrev proposal : AttackHypothesis
proposal = record {
  id = "hypothesis-n";
  inputs = pos 1 ∷ pos 2 ∷ [];
  rationale = "known";
  misconception = "none";
  provider = Provider.deterministic_fallback;
  generator = some "fixed";
}

propose-IsProposal_example : IsProposal scheduler context [] (proposal ∷ [])
unfolding propose
propose-IsProposal_example = propose-IsProposal shown scheduler context [] (proposal ∷ []) refl

deterministic_scheduler-deterministic_propose_example :
    (deterministic_scheduler 8 >>= λ s.
    propose shown s context [] >>= λ hs. ok (map anonymous_hypothesis hs))
    ≡ deterministic_propose shown context []
deterministic_scheduler-deterministic_propose_example =
    deterministic_scheduler-deterministic_propose shown context [] (omega arith)

abbrev small : HypothesisContext
small = record context { input_names = "a" ∷ []; domain_min = pos 0; domain_max = pos 0 }

abbrev zero_case : Candidate
zero_case = record {
  inputs = pos 0 ∷ [];
  rationale = "Combine declared domain boundaries across every input position.";
  misconception = "boundary interaction";
  generator = some "boundary";
}

boundary_candidates-in_domain_example :
    All (λ x. (length x.inputs ≡ 1) × All (λ v. in_domain small v ≡ true) x.inputs) (zero_case ∷ [])
unfolding boundary_candidates
boundary_candidates-in_domain_example =
    boundary_candidates-in_domain (some "boundary") small (zero_case ∷ []) refl
