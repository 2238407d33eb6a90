-- ===== src/Examples/Delivery.antt =====
-- The theorems on an apply of the run service over its destinations.
use course_fuzz.Prelude.{ℕ, none, some, string_eq, ◌≡◌, refl}
use course_fuzz.Prelude.Result.{ok}
use course_fuzz.Models.{RunStatus, ActionReceipt, MutationMetrics}
use course_fuzz.Models.Atom.{atom_beq}
use course_fuzz.Engine.Analyze.{verify_applied_patch}
use course_fuzz.Repository
use course_fuzz.Runs.{Ports, Run, ◌>>=◌, try_else, assignment_for_run}
use course_fuzz.Engine.Measure.{measure}
use course_fuzz.Prelude.State
use course_fuzz.Runs.Apply.{
  apply, apply_claimed, written, write_destination, keep_artifact, metrics_same, settle, finish,
}
use course_fuzz.Runs.Apply.Settled.{Outcome, apply-Outcome}
use course_fuzz.Destinations.Coordinator
use course_fuzz.Destinations.Coordinator.{Files, Place}
use course_fuzz.Destinations.Delivered.{Delivered}
use course_fuzz.Examples.Actions.{ports, world_in, run_in}
use course_fuzz.Examples.Destinations.{remote, files, place, local_receipt, pull_receipt}

abbrev served : Ports
served = record ports { apply = λ n r c t. (Coordinator.apply files remote r c t place).0 }

abbrev settled : Run served
settled = record (run_in RunStatus.verified) {
  artifact_sha256 = some "digest";
  updated_at = 10;
  action_receipt = some local_receipt;
}

applies : (apply served "run_1" "token" "alice" (world_in RunStatus.approved)).0 ≡ ok settled
unfolding apply apply_claimed written write_destination keep_artifact metrics_same settle finish
    assignment_for_run measure atom_beq Coordinator.apply_at Coordinator.write_local
    Coordinator.artifact_path Coordinator.run_dir try_else ◌>>=◌ Repository.get
    Repository.claim_approved_apply Repository.save Repository.append_event Repository.save_artifact
    verify_applied_patch Coordinator.apply State.◌>>=◌
applies = refl

apply-Outcome_example : Outcome served "run_1" "alice" (world_in RunStatus.approved) settled
apply-Outcome_example =
    apply-Outcome served "run_1" "token" "alice" (world_in RunStatus.approved) settled applies

abbrev unwritten_receipt : ActionReceipt
unwritten_receipt = record pull_receipt { commit_sha = none }

abbrev unchecked : Run served
unchecked = record (run_in RunStatus.verified) {
  action_receipt = some unwritten_receipt;
  artifact_sha256 = some unwritten_receipt.artifact_sha256;
  updated_at = 0;
}

-- The projected metrics of the stored analysis.
abbrev metrics : MutationMetrics (ℕ × ℕ)
metrics = record {
  total_mutants = 1;
  killed_mutants = 1;
  surviving_mutants = 0;
  mutation_score = (1, 1);
  accepted_solution_pass_rate = (1, 1);
}
