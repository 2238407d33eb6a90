-- ===== src/Engine/Patch.antt =====
-- The candidate patch: its texts, and the digest that approval binds to.
use Prim.Native.String.{slice}
use course_fuzz.Prelude.{String, none, some, List, ◌≡◌, sym, ap}
use course_fuzz.Prelude.Text.{◌++ₛ◌}
use course_fuzz.Models.{
  AssignmentSpec, TestCase, OracleDecision, CandidatePatch, PatchTarget, Kind, DestinationConfig,
}
use course_fuzz.Models.Atom.{JsonAtom}
use course_fuzz.Engine.{Env}

abbrev pub test_directory : DestinationConfig → String
test_directory (DestinationConfig.local_artifact d) = d
test_directory (DestinationConfig.github_pull_request r b d) = d

abbrev pub patch_target : DestinationConfig → String → PatchTarget
patch_target (DestinationConfig.local_artifact d) path = record {
  kind = Kind.local_artifact;
  path = path;
  repository = none;
  base_branch = none;
  base_commit_sha = none;
  head_branch = none;
}
patch_target (DestinationConfig.github_pull_request r b d) path = record {
  kind = Kind.github_pull_request;
  path = path;
  repository = some r;
  base_branch = some b;
  base_commit_sha = none;
  head_branch = none;
}

module _ (env : Env) where
  open env use {sha256_hex, candidate_json, case_json, repr_inputs, repr_expected, safe_identifier}

  unfoldable pub bind_candidate_payload : CandidatePatch → CandidatePatch
  bind_candidate_payload c =
      let digest = sha256_hex (candidate_json c) in
      record c { id = "patch-" ++ₛ slice digest 0 12; payload_sha256 = digest }

  -- _build_patch
  unfoldable pub build_patch :
      TestCase
      → List String
      → (entrypoint : String) → (observed_actual : JsonAtom) → (target_title : String)
      → AssignmentSpec
      → OracleDecision
      → CandidatePatch
  unfolding bind_candidate_payload
  build_patch test killed_mutants entrypoint observed_actual target_title a oracle =
      let case_digest = slice (sha256_hex (case_json test.inputs test.expected)) 0 8 in
      let name = "test_coursefuzz_" ++ₛ safe_identifier entrypoint ++ₛ "_" ++ₛ case_digest in
      bind_candidate_payload (record {
        id = "pending";
        test = test;
        observed_actual = some observed_actual;
        rationale =
            "Execution proved that '"
            ++ₛ target_title
            ++ₛ "' disagrees with every accepted control on the verified input "
            ++ₛ repr_inputs test.inputs
            ++ₛ ".";
        target_mutants = killed_mutants;
        payload_sha256 = "pending";
        pytest_source =
            "from solution import "
            ++ₛ entrypoint
            ++ₛ "\n\n\ndef "
            ++ₛ name
            ++ₛ "():\n    assert "
            ++ₛ entrypoint
            ++ₛ repr_inputs test.inputs
            ++ₛ " == "
            ++ₛ repr_expected test.expected
            ++ₛ "\n";
        oracle = some oracle;
        target =
            patch_target a.destination (test_directory a.destination ++ₛ "/" ++ₛ name ++ₛ ".py");
      })

  -- The serialization leaves out the two fields that binding writes.
  record Excludes : Type 0 where
    pub excludes :
        (c : CandidatePatch) (i h : String)
        → candidate_json (record c { id = i; payload_sha256 = h }) ≡ candidate_json c

  -- A bound candidate carries the digest of its own payload, so that whoever reads it can compute
  -- the digest again, and binding it once more changes nothing; it needs a serialization that
  -- leaves out the id and the digest.
  bind_candidate_payload_idem :
      Excludes
      → (c : CandidatePatch)
      → ((bind_candidate_payload c).payload_sha256
          ≡ sha256_hex (candidate_json (bind_candidate_payload c)))
        × (bind_candidate_payload (bind_candidate_payload c) ≡ bind_candidate_payload c)
  unfolding bind_candidate_payload
  bind_candidate_payload_idem x c =
      let digest = sha256_hex (candidate_json c) in
      let e = x.excludes c ("patch-" ++ₛ slice digest 0 12) digest in
      (
        ap sha256_hex (sym e),
        ap
            (λ j. record c {
              id = "patch-" ++ₛ slice (sha256_hex j) 0 12;
              payload_sha256 = sha256_hex j;
            })
            e,
      )
