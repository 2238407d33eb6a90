-- ===== src/Coverage/Clusters.antt =====
-- The clusters of the matrix.
use course_fuzz.Prelude.{
  String, Bool, List, [], ◌∷◌, ◌++◌, map, filter, lookup, lookup-insert, ◌==◌, eq_of_beq, list_eq,
  string_eq, if◌then◌else◌, ◌≡◌, refl, sym, ap, ◌∙◌, inl, inr, Bool-cases,
}
use mathlib.Core.List.{append_assoc, append-nil}
use course_fuzz.Coverage.{
  Grid, MutantEquivalenceCluster, bool_eq, signature_of, or_none, add_mutant, group_mutants,
  compute_differential_matrix,
}

-- The mutants of the cluster with a signature, none if there is none.
pub members : List Bool → List MutantEquivalenceCluster → List String
members sig [] = []
members sig (c ∷ cs) =
    let rest = members sig cs in if c.signature == sig then c.mutant_ids else rest

module _ (labels : List String) (grid : Grid) where
  abbrev clusters_of : List (List Bool × List String) → List MutantEquivalenceCluster
  clusters_of groups = map (λ p. record { signature = p.0; mutant_ids = p.1 }) groups

  members-clusters_of :
      (sig : List Bool) (groups : List (List Bool × List String))
      → members sig (clusters_of groups) ≡ or_none (lookup sig groups)
  unfolding members
  members-clusters_of sig [] = refl
  members-clusters_of sig ((k, ids) ∷ groups) = elim (Bool-cases (k == sig)) [
    | inl e ↦ rw e refl
    | inr e ↦ rw e (members-clusters_of sig groups)
  ]

  -- The mutants of a signature, in order.
  abbrev pub with_signature : List Bool → List String → List String
  with_signature sig ids = filter (λ mut_id. signature_of labels grid mut_id == sig) ids

  lookup-group_mutants :
      (sig : List Bool) (ids : List String) (groups : List (List Bool × List String))
      → or_none (lookup sig (group_mutants labels grid ids groups))
        ≡ or_none (lookup sig groups) ++ with_signature sig ids
  lookup-group_mutants sig [] groups = sym (append-nil _)
  lookup-group_mutants sig (m ∷ ids) groups =
      lookup-group_mutants sig ids (add_mutant (signature_of labels grid m) m groups)
      ∙ elim (Bool-cases (signature_of labels grid m == sig)) [
        | inl e ↦
            rw (lookup-insert, e)
              (append_assoc _ (m ∷ []) (with_signature sig ids)
                ∙ ap (λ k. or_none (lookup k groups) ++ m ∷ with_signature sig ids)
                    (eq_of_beq (signature_of labels grid m) sig e))
        | inr e ↦ rw (lookup-insert, e) refl
      ]

  -- For every signature, the cluster that has it holds exactly the given mutants whose row of
  -- passes is that signature, in their order; there is no such cluster only if there are none.
  pub compute_differential_matrix-members :
      (ids : List String) (sig : List Bool)
      → members sig (compute_differential_matrix labels ids grid).equivalence_clusters
        ≡ with_signature sig ids
  unfolding compute_differential_matrix
  compute_differential_matrix-members ids sig =
      members-clusters_of sig (group_mutants labels grid ids []) ∙ lookup-group_mutants sig ids []
