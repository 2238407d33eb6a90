-- ===== src/Installations/Owners.antt =====
-- Which workspace owns an installation (SqliteInstallationStore.claim_installation,
-- src/coursefuzz/security/installations.py).
use mathlib.Core.Path.{subst}
use course_fuzz.Prelude.{
  ℕ, String, Bool, false, not, some, List, [], ◌∷◌, filter, find, lookup, is_some, Elem,
  Elem-filter, ltb, find-Elem, find-eq-none, nat_beq, nat_beq_iff, ◌==◌, string_eq, eq_of_beq, ◌≡◌,
  ap, sym, ◌∙◌, ◌⊎◌, inl, inr, Bool-cases, Option-cases, arith,
}
use course_fuzz.Installations.{
  InstallationEvent, Binding, Db, id_limit, put_binding, is_active, apply_installation_event,
  transaction,
}
use course_fuzz.Installations.Sqlite
use course_fuzz.Installations.Sqlite.{
  claim_installation, installation_for_workspace, owned_by_another, record_delivery,
}
use course_fuzz.Installations.Tables.{
  intent, tables, apply-tables, apply-overflow, upsert_in, Intent,
}

-- The calls that the program makes of a store.
pub data Step (lower : String → String) : Db → Db → Type 0 where
  event :
      (e : InstallationEvent) (now : String) (db : Db)
      → Step lower db (apply_installation_event (Sqlite.store lower) e now db).1
  delivery : (id now : String) (db : Db) → Step lower db (record_delivery id now db).1
  claim :
      (tenant_id : String) (i : ℕ) (now : String) (db : Db)
      → Step lower db (claim_installation tenant_id i now db).1

-- What such calls can make of the empty tables.
pub data Reachable (lower : String → String) : Db → Type 0 where
  empty :
      Reachable lower (record { installations = []; repos = []; workspaces = []; deliveries = [] })
  next : (db after : Db) → Reachable lower db → Step lower db after → Reachable lower after

-- No two workspaces hold one installation.
abbrev OneOwner : List Binding → Type 0
OneOwner bs =
    (b c : Binding)
    → Elem b bs
    → Elem c bs
    → b.installation_id ≡ c.installation_id
    → b.tenant_id ≡ c.tenant_id

Elem-put_binding :
    (b c : Binding) (bs : List Binding) → Elem c (put_binding b bs) → (c ≡ b) ⊎ Elem c bs
unfolding put_binding
Elem-put_binding b c [] (inl e) = inl e
Elem-put_binding b c [] (inr m) = absurd m
Elem-put_binding b c (d ∷ bs) m = elim (Bool-cases (d.tenant_id == b.tenant_id)) [
  | inl e ↦ elim (let k : Elem c (b ∷ bs) = rw e at m in k) [ inl f ↦ inl f | inr n ↦ inr (inr n) ]
  | inr e ↦ elim (let k : Elem c (d ∷ put_binding b bs) = rw e at m in k) [
    | inl f ↦ inr (inl f)
    | inr n ↦ elim (Elem-put_binding b c bs n) [ inl f ↦ inl f | inr o ↦ inr (inr o) ]
  ]
]

OneOwner-filter : (p : Binding → Bool) (bs : List Binding) → OneOwner bs → OneOwner (filter p bs)
OneOwner-filter p bs h b c m n e = h b c (Elem-filter p bs b m).0 (Elem-filter p bs c n).0 e

-- Every row of the installation is the tenant's.
owner-tenant :
    (tenant_id : String) (i : ℕ) (bs : List Binding)
    → OneOwner bs
    → owned_by_another tenant_id (find (λ b. nat_beq b.installation_id i) bs) ≡ false
    → (c : Binding) → Elem c bs
    → c.installation_id ≡ i
    → c.tenant_id ≡ tenant_id
owner-tenant tenant_id i bs h o c m e =
    elim (Option-cases (find (λ b. nat_beq b.installation_id i) bs)) [
      | inl n ↦
          let k = find-eq-none (λ b. nat_beq b.installation_id i) bs c n m in
          cc ((nat_beq_iff c.installation_id i).1 e, k)
      | inr (f, n) ↦
          let k = find-Elem (λ b. nat_beq b.installation_id i) bs f n in
          let same : c.installation_id ≡ f.installation_id =
            e ∙ sym ((nat_beq_iff f.installation_id i).0 k.1) in
          let owner : not (f.tenant_id == tenant_id) ≡ false = rw n at o in
          h c f m k.0 same ∙ eq_of_beq f.tenant_id tenant_id (ground arith)
    ]

OneOwner-put_binding :
    (b : Binding) (bs : List Binding)
    → OneOwner bs
    → ((c : Binding)
        → Elem c bs
        → c.installation_id ≡ b.installation_id
        → c.tenant_id ≡ b.tenant_id)
    → OneOwner (put_binding b bs)
OneOwner-put_binding b bs h own c d m n e = elim (Elem-put_binding b c bs m) [
  | inl f ↦ elim (Elem-put_binding b d bs n) [
    | inl g ↦ ap (λ x. x.tenant_id) (f ∙ sym g)
    | inr g ↦ ap (λ x. x.tenant_id) f ∙ sym (own d g (sym e ∙ ap (λ x. x.installation_id) f))
  ]
  | inr f ↦ elim (Elem-put_binding b d bs n) [
    | inl g ↦ own c f (e ∙ ap (λ x. x.installation_id) g) ∙ sym (ap (λ x. x.tenant_id) g)
    | inr g ↦ h c d f g e
  ]
]

claim-OneOwner :
    (tenant_id : String) (i : ℕ) (now : String) (db : Db)
    → OneOwner db.workspaces
    → OneOwner (claim_installation tenant_id i now db).1.workspaces
unfolding claim_installation transaction
claim-OneOwner tenant_id i now db h = elim (Bool-cases (ltb i id_limit)) [
  | inr k ↦ rw k h
  | inl k ↦ elim (Bool-cases (is_active i db)) [
    | inr e ↦ rw (k, e) h
    | inl e ↦
        elim (Bool-cases
          (owned_by_another tenant_id (find (λ b. nat_beq b.installation_id i) db.workspaces))) [
            | inl f ↦ rw (k, e, f) h
            | inr f ↦
                rw (k, e, f)
                  (OneOwner-put_binding _ db.workspaces h
                    (owner-tenant tenant_id i db.workspaces h f))
          ]
  ]
]

tables-OneOwner :
    (lower : String → String) (k : Intent) (e : InstallationEvent) (now : String) (db : Db)
    → OneOwner db.workspaces
    → OneOwner (tables lower k e now db).workspaces
unfolding tables upsert_in
tables-OneOwner lower Intent.deletion e now db h = OneOwner-filter _ db.workspaces h
tables-OneOwner lower Intent.suspension e now db h = h
tables-OneOwner lower Intent.full_sync e now db h = h
tables-OneOwner lower Intent.addition e now db h = h
tables-OneOwner lower Intent.removal e now db h = h
tables-OneOwner lower Intent.other e now db h = h

Step-OneOwner :
    (lower : String → String) (db after : Db)
    → Step lower db after
    → OneOwner db.workspaces
    → OneOwner after.workspaces
unfolding record_delivery transaction
Step-OneOwner lower db after (Step.event e now _) h =
    elim (Bool-cases (ltb e.installation_id id_limit)) [
      | inl f ↦
          subst (λ x. OneOwner x.1.workspaces) (sym (apply-tables lower e now db f))
            (tables-OneOwner lower (intent e.action) e now db h)
      | inr f ↦ subst (λ x. OneOwner x.1.workspaces) (sym (apply-overflow lower e now db f)) h
    ]
Step-OneOwner lower db after (Step.delivery id now _) h =
    elim (Bool-cases (is_some (lookup id db.deliveries))) [ inl e ↦ rw e h | inr e ↦ rw e h ]
Step-OneOwner lower db after (Step.claim tenant_id i now _) h = claim-OneOwner tenant_id i now db h

Reachable-OneOwner :
    (lower : String → String) (db : Db) → Reachable lower db → OneOwner db.workspaces
Reachable-OneOwner lower db Reachable.empty = λ b c m. absurd m
Reachable-OneOwner lower db (Reachable.next before _ r s) =
    Step-OneOwner lower before db s (Reachable-OneOwner lower before r)

some-injective : {A : Type 0} {a b : A} → some a ≡ some b → a ≡ b
some-injective h = cc h

bound_row :
    (tenant_id : String) (i : ℕ) (db : Db)
    → installation_for_workspace tenant_id db ≡ some i
    → (b : Binding) × Elem b db.workspaces × (b.tenant_id ≡ tenant_id) × (b.installation_id ≡ i)
unfolding installation_for_workspace
bound_row tenant_id i db h =
    elim (Option-cases (find (λ b. b.tenant_id == tenant_id) db.workspaces)) [
      | inl n ↦ cc (rw n at h)
      | inr (b, n) ↦
          let k = find-Elem (λ b. b.tenant_id == tenant_id) db.workspaces b n in
          (b, k.0, eq_of_beq b.tenant_id tenant_id k.1, some-injective (rw n at h))
    ]

-- However webhooks, deliveries and claims follow each other, no two workspaces are ever bound to one
-- installation.
pub installation_for_workspace-injective :
    (lower : String → String) (db : Db)
    → Reachable lower db
    → (tenant_id other : String) (i : ℕ) → installation_for_workspace tenant_id db ≡ some i
    → installation_for_workspace other db ≡ some i
    → tenant_id ≡ other
installation_for_workspace-injective lower db r tenant_id other i h k =
    let (b, m, t, e) = bound_row tenant_id i db h in
    let (c, n, u, f) = bound_row other i db k in
    sym t ∙ Reachable-OneOwner lower db r b c m n (e ∙ sym f) ∙ u
