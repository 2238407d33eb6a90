-- ===== src/Destinations/Coordinator.antt =====
-- DestinationCoordinator (src/coursefuzz/adapters/destinations.py): the choice of the destination,
-- and the artifact that is written below the local directory of a run.
pub mod Contained
use course_fuzz.Prelude.{
  ℕ, suc, String, Bool, true, false, Option, none, some, List, [], ◌∷◌, Elem, ◌==◌, string_eq,
  if◌then◌else◌, ◌≡◌, refl, sym, ap, ◌∙◌, ◌⊎◌, inl, inr, Bool-cases, eq_of_beq,
}
use course_fuzz.Prelude.Result.{Result, ok, raised, runtime_error, ok-injective}
use course_fuzz.Prelude.State.{
  St, pure, raise, lift, ◌>>=◌, >>=-returned, Relates, IsPreorder, Relates-pure, Relates-raise,
  Relates-lift, Relates-bind, Relates-test,
}
use course_fuzz.Models.{CandidatePatch, ActionReceipt, Kind}
use course_fuzz.Engine.{Env}
use course_fuzz.Runs.{AppliedDestination}
use course_fuzz.Destinations.{Conn, Remote}
use course_fuzz.Destinations.Github

-- `pathlib` and the disk; each call of the disk may be answered differently. Bytes are a text with a
-- character for each byte.
pub record Files : Type 0 where
  pub artifact_dir : String
  -- `(directory / path).resolve()`, `path.is_relative_to(directory)` and `path.parent`
  pub resolve : (directory path : String) → String
  pub is_relative_to : (path directory : String) → Bool
  pub parent : String → String
  pub mkdir : ℕ → (directory : String) → Result (Unit {0})
  pub write_bytes : ℕ → (path bytes : String) → Result (Unit {0})
  pub read_bytes : ℕ → (path : String) → Result String
  pub decode : String → Result String

-- The calls of the disk made, the files written and the directories made, the last one first, and
-- the connection.
pub record Place : Type 0 where
  pub calls : ℕ
  pub written : List (String × String)
  pub made : List String
  pub conn : Conn

module _ (files : Files) (remote : Remote) where
  open files use {artifact_dir, resolve, is_relative_to, parent, decode}
  open remote use {encode, sha256_hex}

  unfoldable pub make_directory : (directory : String) → St Place Unit
  make_directory directory p =
      (files.mkdir p.calls directory, record p { calls = suc p.calls; made = directory ∷ p.made })

  unfoldable pub write_artifact : (path bytes : String) → St Place Unit
  write_artifact path bytes p = (
    files.write_bytes p.calls path bytes,
    record p { calls = suc p.calls; written = (path, bytes) ∷ p.written },
  )

  unfoldable pub read_artifact : (path : String) → St Place String
  read_artifact path p = (files.read_bytes p.calls path, record p { calls = suc p.calls })

  abbrev pub on_github : {A : Type 0} → St Conn A → St Place A
  on_github m p = ((m p.conn).0, record p { conn = (m p.conn).1 })

  -- prepare
  pub prepare_at :
      Env
      → Kind
      → (run_id : String) → CandidatePatch
      → (tenant_id : String) → St Place CandidatePatch
  unfolding Github.prepare
  prepare_at env Kind.github_pull_request run_id c tenant_id =
      on_github (Github.prepare remote env run_id c tenant_id)
  prepare_at env Kind.local_artifact run_id c tenant_id = pure c

  unfoldable pub prepare :
      Env → (run_id : String) → CandidatePatch → (tenant_id : String) → St Place CandidatePatch
  unfolding prepare_at
  prepare env run_id c tenant_id = prepare_at env c.target.kind run_id c tenant_id

  unfoldable pub run_dir : (run_id : String) → String
  run_dir run_id = resolve artifact_dir run_id

  unfoldable pub artifact_path : (run_id : String) → CandidatePatch → String
  unfolding run_dir
  artifact_path run_id c = resolve (run_dir run_id) c.target.path

  unfoldable pub local_receipt : CandidatePatch → (path bytes : String) → AppliedDestination
  local_receipt c path bytes = record {
    receipt = record {
      kind = Kind.local_artifact;
      path = c.target.path;
      artifact_sha256 = sha256_hex bytes;
      read_back_verified = true;
      external_url = none;
      repository = none;
      base_commit_sha = none;
      commit_sha = none;
      pull_request_number = none;
      external_ci_started_at = none;
      external_ci_url = none;
      external_ci_conclusion = none;
      external_ci_completed_at = none;
      external_ci_verified = false;
    };
    local_path = some path;
  }

  -- The write and the read-back of a path.
  unfoldable pub write_local : CandidatePatch → (path : String) → St Place AppliedDestination
  unfolding make_directory write_artifact read_artifact local_receipt
  write_local c path = make_directory (parent path) >>= λ _.
      write_artifact path (encode c.pytest_source) >>= λ _. read_artifact path >>= λ bytes.
      lift (decode bytes) >>= λ read_back.
      if read_back == c.pytest_source
      then pure (local_receipt c path bytes)
      else raise (runtime_error "Artifact read-back did not match the approved payload")

  unfoldable pub apply_at :
      Kind → (run_id : String) → CandidatePatch → (tenant_id : String) → St Place AppliedDestination
  unfolding Github.apply artifact_path run_dir write_local
  apply_at Kind.github_pull_request run_id c tenant_id = on_github (Github.apply remote c tenant_id)
  apply_at Kind.local_artifact run_id c tenant_id =
      if is_relative_to (artifact_path run_id c) (run_dir run_id)
      then write_local c (artifact_path run_id c)
      else raise (runtime_error "Local artifact target escaped the bounded run directory")

  unfoldable pub apply :
      (run_id : String) → CandidatePatch → (tenant_id : String) → St Place AppliedDestination
  unfolding apply_at
  apply run_id c tenant_id = apply_at c.target.kind run_id c tenant_id
