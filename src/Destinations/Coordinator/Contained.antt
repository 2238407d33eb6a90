-- ===== src/Destinations/Coordinator/Contained.antt =====
-- Where an apply writes on the disk, and what its receipt stands for
-- (DestinationCoordinator.apply, src/coursefuzz/adapters/destinations.py).
use mathlib.Core.Path.{subst}
use course_fuzz.Prelude.{
  ℕ, String, true, some, Elem, ◌==◌, string_eq, ◌≡◌, refl, sym, ap, ◌∙◌, ◌⊎◌, inl, inr, Bool-cases,
  eq_of_beq,
}
use course_fuzz.Prelude.Result.{ok, ok-injective}
use course_fuzz.Prelude.State.{
  lift, >>=-returned, Relates, IsPreorder, Relates-pure, Relates-raise, Relates-lift, Relates-bind,
  Relates-test,
}
use course_fuzz.Models.{CandidatePatch, Kind}
use course_fuzz.Runs.{AppliedDestination}
use course_fuzz.Destinations.{Remote}
use course_fuzz.Destinations.Coordinator.{
  Files, Place, make_directory, write_artifact, read_artifact, run_dir, artifact_path,
  local_receipt, write_local, apply_at, apply,
}

-- The files of the second place that the first has not written are of one sort.
abbrev Writes : (String × String → Type 0) → Place → Place → Type 0
Writes P s t = (w : String × String) → Elem w t.written → Elem w s.written ⊎ P w

Writes-IsPreorder : (P : String × String → Type 0) → IsPreorder (Writes P)
Writes-IsPreorder P = record {
  reflexive = λ s r m. inl m;
  transitive = λ s t u h k r m. elim (k r m) [ inl n ↦ h r n | inr p ↦ inr p ];
}

module _ (files : Files) (remote : Remote) (run_id : String) (c : CandidatePatch) where
  -- A write of the candidate's bytes below the directory of the run.
  unfoldable pub IsContained : String × String → Type 0
  IsContained (path, bytes) =
      (path ≡ artifact_path files remote run_id c)
      × (files.is_relative_to path (run_dir files remote run_id) ≡ true)
      × (bytes ≡ remote.encode c.pytest_source)

  Relates-write_local :
      (path : String)
      → IsContained (path, remote.encode c.pytest_source)
      → Relates (Writes IsContained) (write_local files remote c path)
  unfolding write_local make_directory write_artifact read_artifact
  Relates-write_local path p =
      let o = Writes-IsPreorder IsContained in
      Relates-bind _ o _ _ (record { relates = λ s w m. inl m })
        λ made.
          Relates-bind _ o _ _
            (record {
              relates =
                  λ s w m. elim m [ inl e ↦ inr (subst IsContained (sym e) p) | inr n ↦ inl n ];
            })
            λ done.
              Relates-bind _ o _ _ (record { relates = λ s w m. inl m })
                λ bytes. Relates-bind _ o _ _ (Relates-lift _ o _) λ read_back.
                  Relates-test _ (read_back == c.pytest_source) _ _ (Relates-pure _ o _)
                    (Relates-raise _ o _ _)

  Relates-apply_at :
      (kind : Kind) (tenant_id : String)
      → Relates (Writes IsContained) (apply_at files remote kind run_id c tenant_id)
  unfolding apply_at IsContained
  Relates-apply_at Kind.github_pull_request tenant_id = record { relates = λ s w m. inl m }
  Relates-apply_at Kind.local_artifact tenant_id =
      let path = artifact_path files remote run_id c in
      elim (Bool-cases (files.is_relative_to path (run_dir files remote run_id))) [
        | inl e ↦ rw e (Relates-write_local path (refl, e, refl))
        | inr e ↦ rw e (Relates-raise _ (Writes-IsPreorder IsContained) _ _)
      ]

  -- However `apply` ends, each file that it has written is the candidate's source at the resolved
  -- path of its target, and that path lies below the directory of the run.
  pub apply-IsContained :
      (tenant_id : String) (place : Place) (w : String × String)
      → Elem w (apply files remote run_id c tenant_id place).1.written
      → Elem w place.written ⊎ IsContained w
  unfolding apply
  apply-IsContained tenant_id place = (Relates-apply_at c.target.kind tenant_id).relates place

  -- What a receipt of a local artifact stands for.
  unfoldable pub Kept : AppliedDestination → Type 0
  Kept applied =
      (n : ℕ) × (bytes : String) × (files.is_relative_to (artifact_path files remote run_id c)
          (run_dir files remote run_id)
        ≡ true)
      × (files.read_bytes n (artifact_path files remote run_id c) ≡ ok bytes)
      × (files.decode bytes ≡ ok c.pytest_source)
      × (applied.receipt.artifact_sha256 ≡ remote.sha256_hex bytes)
      × (applied.local_path ≡ some (artifact_path files remote run_id c))

  write_local-Kept :
      (place : Place) (applied : AppliedDestination)
      → files.is_relative_to (artifact_path files remote run_id c) (run_dir files remote run_id)
        ≡ true
      → (write_local files remote c (artifact_path files remote run_id c) place).0 ≡ ok applied
      → Kept applied
  unfolding write_local Kept local_receipt read_artifact
  write_local-Kept place applied inside h =
      let s = >>=-returned (make_directory files remote _) _ place h in
      let u = >>=-returned (write_artifact files remote _ _) _ _ s.2 in
      let v = >>=-returned (read_artifact files remote _) _ _ u.2 in
      let w = >>=-returned (lift (files.decode v.0)) _ _ v.2 in
      elim (Bool-cases (w.0 == c.pytest_source)) [
        | inl f ↦
            let k = ok-injective _ _ (rw f at w.2) in
            subst Kept k (_, v.0, inside, v.1, w.1 ∙ ap ok (eq_of_beq _ _ f), refl, refl)
        | inr f ↦ cc (rw f at w.2)
      ]

  apply_at-Kept :
      (kind : Kind) (tenant_id : String) (place : Place) (applied : AppliedDestination)
      → kind ≡ Kind.local_artifact
      → (apply_at files remote kind run_id c tenant_id place).0 ≡ ok applied
      → Kept applied
  unfolding apply_at
  apply_at-Kept Kind.github_pull_request tenant_id place applied e h = cc
  apply_at-Kept Kind.local_artifact tenant_id place applied e h =
      elim (Bool-cases (
        files.is_relative_to (artifact_path files remote run_id c) (run_dir files remote run_id))) [
          | inl f ↦ write_local-Kept place applied f (rw f at h)
          | inr f ↦ cc (rw f at h)
        ]

  -- When `apply` returns for a local target, the target's path lies below the directory of the run,
  -- the bytes read back there decode to the candidate's source, and the receipt holds their digest.
  pub apply-Kept :
      (tenant_id : String) (place : Place) (applied : AppliedDestination)
      → c.target.kind ≡ Kind.local_artifact
      → (apply files remote run_id c tenant_id place).0 ≡ ok applied
      → Kept applied
  unfolding apply
  apply-Kept tenant_id place applied e h = apply_at-Kept c.target.kind tenant_id place applied e h
