-- ===== src/Coverage.antt =====
-- The test-mutant matrix (src/coursefuzz/domain/coverage.py). A grid is the dictionary of each
-- test's row of passes; the text of a signature, which is its key, is the signature itself.
pub mod Clusters
use course_fuzz.Prelude.{
  ℕ, suc, String, Bool, true, false, not, ◌&&◌, Option, none, some, List, [], ◌∷◌, ◌++◌, map,
  filter, all, lookup, insert, contains, Eq, ◌==◌, string_eq, list_eq, nat_beq, if◌then◌else◌, ◌≡◌,
  refl, ◌↔◌, arith,
}

pub record MutantEquivalenceCluster : Type 0 where
  pub signature : List Bool
  pub mutant_ids : List String

pub record SubsumptionPair : Type 0 where
  pub parent_test_label : String
  pub child_test_label : String

abbrev pub Grid : Type 0
Grid = List (String × List (String × Bool))

pub record DifferentialMatrixResult : Type 0 where
  pub matrix : Grid
  pub equivalence_clusters : List MutantEquivalenceCluster
  pub subsumed_tests : List SubsumptionPair

abbrev pub bool_same : Bool → Bool → Bool
bool_same true b = b
bool_same false b = not b

pub bool_same_iff : (a b : Bool) → (bool_same a b ≡ true) ↔ (a ≡ b)
bool_same_iff a b = ground arith

instance abbrev pub bool_eq : Eq Bool
bool_eq = record { beq = bool_same; beq_iff = bool_same_iff }

abbrev or_empty : Option (List (String × Bool)) → List (String × Bool)
or_empty none = []
or_empty (some row) = row

abbrev or_true : Option Bool → Bool
or_true none = true
or_true (some b) = b

-- results_grid.get(label, {}).get(mut_id, True)
abbrev pub passes : Grid → (label mut_id : String) → Bool
passes grid label mut_id = or_true (lookup mut_id (or_empty (lookup label grid)))

abbrev pub signature_of : List String → Grid → (mut_id : String) → List Bool
signature_of labels grid mut_id = map (λ label. passes grid label mut_id) labels

abbrev pub or_none : Option (List String) → List String
or_none none = []
or_none (some ids) = ids

-- One turn of the loop over the mutants.
abbrev pub add_mutant :
    List Bool → String → List (List Bool × List String) → List (List Bool × List String)
add_mutant sig mut_id groups = insert sig (or_none (lookup sig groups) ++ mut_id ∷ []) groups

abbrev pub group_mutants :
    List String
    → Grid
    → List String
    → List (List Bool × List String)
    → List (List Bool × List String)
group_mutants labels grid [] groups = groups
group_mutants labels grid (mut_id ∷ ids) groups =
    group_mutants labels grid ids (add_mutant (signature_of labels grid mut_id) mut_id groups)

-- killed_sets[label], as the list of its members
abbrev pub killed_set : Grid → List String → (label : String) → List String
killed_set grid ids label = filter (λ mut_id. not (passes grid label mut_id)) ids

abbrev pub is_superset : List String → List String → Bool
is_superset k1 k2 = all (λ x. contains x k1) k2

abbrev is_empty : List String → Bool
is_empty [] = true
is_empty (x ∷ xs) = false

-- `k2 and k1.issuperset(k2) and k1 != k2`
abbrev pub subsumes : List String → List String → Bool
subsumes k1 k2 = not (is_empty k2) && is_superset k1 k2 && not (is_superset k2 k1)

-- The pairs of the test at place `i` with those from place `j` on.
pairs_with :
    Grid → List String → (i : ℕ) → (t1 : String) → (j : ℕ) → List String → List SubsumptionPair
pairs_with grid ids i t1 j [] = []
pairs_with grid ids i t1 j (t2 ∷ ts) =
    let rest = pairs_with grid ids i t1 (suc j) ts in
    if not (nat_beq i j) && subsumes (killed_set grid ids t1) (killed_set grid ids t2)
    then record { parent_test_label = t1; child_test_label = t2 } ∷ rest
    else rest

pairs_from : Grid → List String → List String → (i : ℕ) → List String → List SubsumptionPair
unfolding pairs_with
pairs_from grid ids labels i [] = []
pairs_from grid ids labels i (t1 ∷ ts) =
    pairs_with grid ids i t1 0 labels ++ pairs_from grid ids labels (suc i) ts

unfoldable pub compute_differential_matrix :
    List String → List String → Grid → DifferentialMatrixResult
unfolding pairs_from
compute_differential_matrix test_labels mutant_ids grid = record {
  matrix = grid;
  equivalence_clusters =
      map (λ p. record { signature = p.0; mutant_ids = p.1 })
        (group_mutants test_labels grid mutant_ids []);
  subsumed_tests = pairs_from grid mutant_ids test_labels 0 test_labels;
}
