-- ===== src/Examples/Assignments.antt =====
-- The theorems on the assignments, with one that a tenant creates.
use course_fuzz.Prelude.{false, some, none, [], ◌∷◌, ◌≡◌, refl, sym, ◌∙◌, inl, inr, true}
use course_fuzz.Prelude.Result.{ok}
use course_fuzz.Prelude.State.{◌>>=◌}
use course_fuzz.Prelude.Text.{take_chars}
use course_fuzz.Models.Atom.{atom_beq}
use course_fuzz.Assignments.{
  Snapshot, Tables, Provenance, Tools, create, snapshot_of, create_assignment, get_assignment,
  has_access,
}
use course_fuzz.Assignments.Stored.{IsKeyed, IsStored, create_assignment-IsStored}
use course_fuzz.Assignments.Private.{IsGranted, create_assignment-private}
use course_fuzz.Assignments.Checked.{IsChecked, create-IsChecked}
use course_fuzz.Examples.{demo, execution}

abbrev stored : Snapshot
stored = record {
  id = "asg_1";
  snapshot_sha256 = "one";
  provenance = Provenance.manual;
  github_provenance = none;
  created_at = 1;
  spec = demo;
}

abbrev added : Snapshot
added = record stored { id = "asg_2"; snapshot_sha256 = "two"; created_at = 2 }

abbrev tables : Tables
tables = record { assignments = stored ∷ []; access = [] }

tables-IsKeyed : IsKeyed tables
unfolding IsKeyed
tables-IsKeyed a b (inl e) (inl f) h = e ∙ sym f
tables-IsKeyed a b (inl e) (inr m) h = absurd m
tables-IsKeyed a b (inr m) n h = absurd m

create_assignment-IsStored_example :
    IsStored added "alice" added (create_assignment added "alice" tables).1
unfolding create_assignment
create_assignment-IsStored_example =
    create_assignment-IsStored added "alice" tables tables-IsKeyed added true refl

tables-IsGranted : IsGranted tables
unfolding IsGranted has_access
tables-IsGranted id tenant_id h = cc h

create_assignment-private_example :
    get_assignment "asg_2" "bob" (create_assignment added "alice" tables).1
    ≡ get_assignment "asg_2" "bob" tables
create_assignment-private_example =
    create_assignment-private added "alice" "bob" tables tables-IsGranted refl (λ e. cc e)
      (λ e. cc e) "asg_2"

-- The digest of a specification is its identifier here, and every program is valid.
abbrev tools : Tools
tools = record {
  now = 3;
  snapshot_sha256 = λ a. a.id;
  validate_source = λ source entrypoint. ok tt;
  run_suite = λ p entrypoint tests. ok (execution tests p);
  is_rejection = λ x. false;
  message = λ x. "";
  shown = λ n. "0";
}

abbrev created : Snapshot
created = snapshot_of tools demo Provenance.manual none

create-IsChecked_example :
    IsChecked tools demo
    × (get_assignment created.id "alice" (create tools demo "alice" Provenance.manual none tables).1
        ≡ some created)
    × (created.snapshot_sha256 ≡ "asg")
    × IsKeyed (create tools demo "alice" Provenance.manual none tables).1
unfolding create ◌>>=◌ atom_beq take_chars
create-IsChecked_example =
    create-IsChecked tools demo "alice" Provenance.manual none tables tables-IsKeyed created true
      refl
