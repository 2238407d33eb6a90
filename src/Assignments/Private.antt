-- ===== src/Assignments/Private.antt =====
-- What another tenant sees of a creation (create_assignment and get_assignment of
-- src/coursefuzz/repositories/sqlite.py).
use course_fuzz.Prelude.{
  String, Bool, true, false, ◌||◌, Option, none, some, ◌∷◌, any, find, Elem, find-eq-none, ◌==◌,
  string_eq, eq_of_beq, ne_of_beq, beq_of_ne, ◌≡◌, ◌≢◌, refl, sym, ap, ◌∙◌, inl, inr, Bool-cases,
  arith, if◌then◌else◌,
}
use course_fuzz.Assignments.{
  Snapshot, Tables, global_tenant, has_digest, has_id, is_grant, has_access, grant, is_seeded,
  store_new, store_snapshot, create_assignment, get_assignment,
}
use course_fuzz.Assignments.Stored.{assignments-grant}

-- Every grant is of an assignment that is stored: the foreign key of assignment_access.
unfoldable pub IsGranted : Tables → Type 0
IsGranted t =
    (id tenant_id : String)
    → has_access id tenant_id t ≡ true
    → (a : Snapshot) × Elem a t.assignments × (a.id ≡ id)

has_access-same :
    (t : Tables) (id tenant_id : String) (after : Tables)
    → after.access ≡ t.access
    → has_access id tenant_id after ≡ has_access id tenant_id t
unfolding has_access
has_access-same t id tenant_id after h = ap (any (is_grant id tenant_id)) h

-- A grant to one tenant is none to another.
has_access-grant_ne :
    (id i tenant_id other : String) (t : Tables)
    → other ≢ tenant_id
    → has_access id other (grant i tenant_id t) ≡ has_access id other t
unfolding has_access grant
has_access-grant_ne id i tenant_id other t n =
    elim (Bool-cases (any (is_grant i tenant_id) t.access)) [
      | inl e ↦ rw e refl
      | inr e ↦ rw e (ground (arith, beq_of_ne tenant_id other (λ k. n (sym k))))
    ]

-- Whether a tenant may read an assignment.
abbrev readable : (id tenant_id : String) → Tables → Bool
readable id tenant_id t = has_access id tenant_id t || has_access id global_tenant t

module _ (s : Snapshot) (tenant_id other : String) (t : Tables) (granted : IsGranted t)
    (private : is_seeded s.provenance ≡ false) (no_global : global_tenant ≢ tenant_id)
    (another : other ≢ tenant_id) where
  -- The rows decide, where the grants to others are as they were.
  get_assignment-grant :
      (id i : String) (after : Tables)
      → after.access ≡ t.access
      → (readable id other t ≡ true
          → find (has_id id) after.assignments ≡ find (has_id id) t.assignments)
      → get_assignment id other (grant i tenant_id after) ≡ get_assignment id other t
  unfolding get_assignment
  get_assignment-grant id i after same rows =
      let own =
        has_access-grant_ne id i tenant_id other after another
        ∙ has_access-same t id other after same in
      let all =
        has_access-grant_ne id i tenant_id global_tenant after no_global
        ∙ has_access-same t id global_tenant after same in
      let may : readable id other (grant i tenant_id after) ≡ readable id other t =
        λ j. own j || all j in
      ap (λ b. if b then find (has_id id) (grant i tenant_id after).assignments else none) may
      ∙ elim (Bool-cases (readable id other t)) [
        | inl e ↦ rw e (ap (find (has_id id)) (assignments-grant i tenant_id after) ∙ rows e)
        | inr e ↦ rw e refl
      ]

  readable-row :
      (id : String)
      → readable id other t ≡ true
      → (a : Snapshot) × Elem a t.assignments × (a.id ≡ id)
  unfolding IsGranted
  readable-row id h = elim (Bool-cases (has_access id other t)) [
    | inl e ↦ granted id other e
    | inr e ↦ granted id global_tenant (rw e at h)
  ]

  -- A new row is under an identifier that nobody could read.
  new_row-unreadable :
      (id : String)
      → find (has_id s.id) t.assignments ≡ none
      → readable id other t ≡ true
      → find (has_id id) (s ∷ t.assignments) ≡ find (has_id id) t.assignments
  new_row-unreadable id n h = elim (Bool-cases (s.id == id)) [
    | inl e ↦
        let (a, m, k) = readable-row id h in
        absurd (
          ne_of_beq a.id s.id (find-eq-none (has_id s.id) t.assignments a n m)
            (k ∙ sym (eq_of_beq s.id id e)))
    | inr e ↦ rw e refl
  ]

  store_new-private :
      (o : Option Snapshot) (id : String)
      → find (has_id s.id) t.assignments ≡ o
      → get_assignment id other (store_new s tenant_id o t).1 ≡ get_assignment id other t
  unfolding store_new
  store_new-private none id n =
      get_assignment-grant id s.id (record t { assignments = s ∷ t.assignments }) refl
        (new_row-unreadable id n)
  store_new-private (some stored) id n = elim (Bool-cases (is_seeded stored.provenance)) [
    | inl e ↦ rw (e, private) refl
    | inr e ↦ rw e refl
  ]

  store_snapshot-private :
      (o : Option Snapshot) (id : String)
      → get_assignment id other (store_snapshot s tenant_id o t).1 ≡ get_assignment id other t
  unfolding store_snapshot
  store_snapshot-private none id = store_new-private (find (has_id s.id) t.assignments) id refl
  store_snapshot-private (some stored) id = get_assignment-grant id stored.id t refl (λ h. refl)

  -- Where every grant is of a stored assignment, a tenant's creation of an assignment that is not
  -- seeded, however it ends, changes nothing of what any other tenant reads under any identifier.
  pub create_assignment-private :
      (id : String)
      → get_assignment id other (create_assignment s tenant_id t).1 ≡ get_assignment id other t
  unfolding create_assignment
  create_assignment-private id =
      store_snapshot-private (find (has_digest s.snapshot_sha256) t.assignments) id
