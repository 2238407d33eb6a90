-- ===== src/Assignments/Stored.antt =====
-- What is read back after an assignment is stored (create_assignment and get_assignment of
-- src/coursefuzz/repositories/sqlite.py).
use mathlib.Core.Path.{subst}
use course_fuzz.Prelude.{
  String, Bool, true, not, ◌||◌, Option, none, some, List, [], ◌∷◌, any, find, Elem, Elem-map,
  find-Elem, find-eq-none, ◌==◌, string_eq, eq_of_beq, ne_of_beq, beq_refl, ◌≡◌, ◌≢◌, refl, sym, ap,
  ◌∙◌, ◌⊎◌, inl, inr, Bool-cases, Option-cases, if◌then◌else◌,
}
use course_fuzz.Prelude.Result.{ok, ok-pair_injective}
use course_fuzz.Assignments.{
  Snapshot, Tables, has_digest, has_id, is_grant, has_access, grant, is_seeded, replace_row,
  store_new, store_snapshot, create_assignment, get_assignment,
}

-- No two rows have one identifier.
unfoldable pub IsKeyed : Tables → Type 0
IsKeyed t = (a b : Snapshot) → Elem a t.assignments → Elem b t.assignments → a.id ≡ b.id → a ≡ b

has_access-grant_self :
    (id tenant_id : String) (t : Tables) → has_access id tenant_id (grant id tenant_id t) ≡ true
unfolding has_access grant
has_access-grant_self id tenant_id t = elim (Bool-cases (any (is_grant id tenant_id) t.access)) [
  | inl e ↦ rw e e
  | inr e ↦ rw e (rw (beq_refl id, beq_refl tenant_id) refl)
]

pub assignments-grant :
    (id tenant_id : String) (t : Tables) → (grant id tenant_id t).assignments ≡ t.assignments
unfolding grant
assignments-grant id tenant_id t = elim (Bool-cases (has_access id tenant_id t)) [
  | inl e ↦ rw e refl
  | inr e ↦ rw e refl
]

-- With one identifier for each row, a row is what a search for its identifier finds.
find-row :
    (rows : List Snapshot) (a : Snapshot)
    → ((b : Snapshot) → Elem b rows → b.id ≡ a.id → b ≡ a)
    → Elem a rows
    → find (has_id a.id) rows ≡ some a
find-row rows a h m = elim (Option-cases (find (has_id a.id) rows)) [
  | inl n ↦ cc (beq_refl a.id, find-eq-none (has_id a.id) rows a n m)
  | inr (b, n) ↦
      let f = find-Elem (has_id a.id) rows b n in n ∙ ap some (h b f.0 (eq_of_beq b.id a.id f.1))
]

-- What a creation leaves of its result.
unfoldable pub IsStored : Snapshot → (tenant_id : String) → Snapshot → Tables → Type 0
unfolding IsKeyed
IsStored s tenant_id r after =
    (get_assignment r.id tenant_id after ≡ some r)
    × (r.snapshot_sha256 ≡ s.snapshot_sha256)
    × IsKeyed after

-- A row that stands alone under its identifier is read back once access is granted.
granted-IsStored :
    (s r : Snapshot) (tenant_id : String) (t : Tables)
    → IsKeyed t
    → Elem r t.assignments
    → r.snapshot_sha256 ≡ s.snapshot_sha256
    → IsStored s tenant_id r (grant r.id tenant_id t)
unfolding IsStored IsKeyed get_assignment
granted-IsStored s r tenant_id t k m d =
    let rows = assignments-grant r.id tenant_id t in
    (
      rw (has_access-grant_self r.id tenant_id t, rows)
          (find-row t.assignments r (λ b n e. k b r n m e) m),
      d,
      subst (λ rs. (a b : Snapshot) → Elem a rs → Elem b rs → a.id ≡ b.id → a ≡ b) (sym rows) k,
    )

insert-IsKeyed :
    (s : Snapshot) (t : Tables)
    → IsKeyed t
    → find (has_id s.id) t.assignments ≡ none
    → IsKeyed (record t { assignments = s ∷ t.assignments })
unfolding IsKeyed
insert-IsKeyed s t k n a b (inl e) (inl f) h = e ∙ sym f
insert-IsKeyed s t k n a b (inl e) (inr m) h = absurd (
    ne_of_beq b.id s.id (find-eq-none (has_id s.id) t.assignments b n m) (sym h ∙ ap (λ x. x.id) e))
insert-IsKeyed s t k n a b (inr m) (inl f) h =
    absurd
      (ne_of_beq a.id s.id (find-eq-none (has_id s.id) t.assignments a n m) (h ∙ ap (λ x. x.id) f))
insert-IsKeyed s t k n a b (inr m) (inr o) h = k a b m o h

-- A replaced row is the new one, or an old one with another identifier.
Elem-replace_row :
    (s a : Snapshot) (rows : List Snapshot)
    → Elem a (replace_row s rows)
    → (a ≡ s) ⊎ (Elem a rows × (a.id ≢ s.id))
unfolding replace_row
Elem-replace_row s a rows m =
    let (r, n, e) = Elem-map (λ r. if r.id == s.id then s else r) rows a m in
    elim (Bool-cases (r.id == s.id)) [
      | inl f ↦ inl (sym (rw f at e))
      | inr f ↦
          let g : r ≡ a = rw f at e in
          inr (
            subst (λ x. Elem x rows) g n,
            subst (λ (x : Snapshot). x.id ≢ s.id) g (ne_of_beq r.id s.id f),
          )
    ]

replace_row-IsKeyed :
    (s : Snapshot) (t : Tables)
    → IsKeyed t
    → IsKeyed (record t { assignments = replace_row s t.assignments })
unfolding IsKeyed
replace_row-IsKeyed s t k a b m n h = elim (Elem-replace_row s a t.assignments m) [
  | inl e ↦ elim (Elem-replace_row s b t.assignments n) [
    | inl f ↦ e ∙ sym f
    | inr (o, f) ↦ absurd (f (sym h ∙ ap (λ x. x.id) e))
  ]
  | inr (o, e) ↦ elim (Elem-replace_row s b t.assignments n) [
    | inl f ↦ absurd (e (h ∙ ap (λ x. x.id) f))
    | inr (p, f) ↦ k a b o p h
  ]
]

Elem-replaced :
    (s : Snapshot) (rows : List Snapshot) (a : Snapshot)
    → Elem a rows
    → a.id ≡ s.id
    → Elem s (replace_row s rows)
unfolding replace_row
Elem-replaced s [] a m h = absurd m
Elem-replaced s (r ∷ rows) a (inl e) h =
    let f : (r.id == s.id) ≡ true = (string_eq.beq_iff r.id s.id).1 (ap (λ x. x.id) (sym e) ∙ h) in
    rw f (inl refl)
Elem-replaced s (r ∷ rows) a (inr m) h = inr (Elem-replaced s rows a m h)

module _ (s : Snapshot) (tenant_id : String) (t : Tables) (keyed : IsKeyed t) where
  store_new-IsStored :
      (o : Option Snapshot) (r : Snapshot) (new : Bool)
      → find (has_id s.id) t.assignments ≡ o
      → (store_new s tenant_id o t).0 ≡ ok (r, new)
      → IsStored s tenant_id r (store_new s tenant_id o t).1
  unfolding store_new
  store_new-IsStored none r new f h =
      subst
        (λ x.
          IsStored s tenant_id x
            (grant s.id tenant_id (record t { assignments = s ∷ t.assignments })))
        (ok-pair_injective _ _ _ _ h).0
        (granted-IsStored s s tenant_id _ (insert-IsKeyed s t keyed f) (inl refl) refl)
  store_new-IsStored (some stored) r new f h =
      elim (Bool-cases (not (is_seeded stored.provenance) || not (is_seeded s.provenance))) [
        | inl e ↦ cc (rw e at h)
        | inr e ↦
            let m = find-Elem (has_id s.id) t.assignments stored f in
            let g = (ok-pair_injective _ _ _ _ (rw e at h)).0 in
            rw e (
              subst
                (λ x.
                  IsStored s tenant_id x
                    (grant s.id tenant_id (record t { assignments = replace_row s t.assignments })))
                g
                (granted-IsStored s s tenant_id _ (replace_row-IsKeyed s t keyed)
                  (Elem-replaced s t.assignments stored m.0 (eq_of_beq stored.id s.id m.1)) refl))
      ]

  store_snapshot-IsStored :
      (o : Option Snapshot) (r : Snapshot) (new : Bool)
      → find (has_digest s.snapshot_sha256) t.assignments ≡ o
      → (store_snapshot s tenant_id o t).0 ≡ ok (r, new)
      → IsStored s tenant_id r (store_snapshot s tenant_id o t).1
  unfolding store_snapshot
  store_snapshot-IsStored none r new f h =
      store_new-IsStored (find (has_id s.id) t.assignments) r new refl h
  store_snapshot-IsStored (some stored) r new f h =
      let m = find-Elem (has_digest s.snapshot_sha256) t.assignments stored f in
      subst (λ (x : Snapshot). IsStored s tenant_id x (grant stored.id tenant_id t))
        (ok-pair_injective _ _ _ _ h).0
        (granted-IsStored s stored tenant_id t keyed m.0 (eq_of_beq _ _ m.1))

  -- Where no two rows have one identifier, an assignment that is created is read back by the same
  -- tenant under the identifier that was returned, has the digest that was asked for, and no two
  -- rows have one identifier after it.
  pub create_assignment-IsStored :
      (r : Snapshot) (new : Bool)
      → (create_assignment s tenant_id t).0 ≡ ok (r, new)
      → IsStored s tenant_id r (create_assignment s tenant_id t).1
  unfolding create_assignment
  create_assignment-IsStored r new h =
      store_snapshot-IsStored (find (has_digest s.snapshot_sha256) t.assignments) r new refl h
