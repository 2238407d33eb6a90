-- ===== src/Installations/Access.antt =====
-- apply_installation_event (src/coursefuzz/security/installations.py) against an abstract account of
-- who may act where: functions, with no tables, order or duplicates.
use course_fuzz.Prelude.{
  ℕ, String, Bool, true, false, not, ◌&&◌, ◌||◌, Option, none, some, List, [], ◌∷◌, any, filter,
  lookup, insert, nat_beq, nat_eq, nat_beq_iff, ◌==◌, string_eq, if◌then◌else◌, ◌≡◌, refl, ap, sym,
  ◌∙◌, inl, inr, ◌⊎◌, ◌<◌, ◌≤◌, ltb, ltb→lt, Bool-cases, arith, lookup-insert, beq_comm,
}
use course_fuzz.Prelude.Result.{ok, raised}
use course_fuzz.Installations.{
  InstallationEvent, Installation, Binding, Db, id_limit, overflow, has_row, upserted,
  apply_installation_event,
}
use course_fuzz.Installations.Sqlite
use course_fuzz.Installations.Tables.{
  Intent, intent, upsert_in, tables, apply-tables, apply-overflow,
}
use course_fuzz.Installations.Rows.{mentions, has_row-put_rows, has_row-drop_rows, has_row-filter}

-- Whether an installation is known, and then suspended; the repositories it covers; and the
-- installation of a workspace.
pub record Access : Type 0 where
  pub status : ℕ → Option Bool
  pub covers : ℕ → String → Bool
  pub binds : String → ℕ → Bool

abbrev pub status_of : Option Installation → Option Bool
status_of none = none
status_of (some i) = some i.suspended

abbrev pub is_binding : String → ℕ → Binding → Bool
is_binding tenant_id i b = b.tenant_id == tenant_id && nat_beq b.installation_id i

unfoldable pub view : Db → Access
view db = record {
  status = λ i. status_of (lookup i db.installations);
  covers = λ i r. has_row i r db.repos;
  binds = λ t i. any (is_binding t i) db.workspaces;
}

-- What an event does to its installation.
unfoldable pub next_status : Intent → Option Bool → Option Bool
next_status Intent.deletion s = none
next_status Intent.suspension s = some true
next_status Intent.full_sync s = some false
next_status _ none = some false
next_status _ (some s) = some s

unfoldable pub next_covers : Intent → (mentioned covered : Bool) → Bool
next_covers Intent.deletion m c = false
next_covers Intent.suspension m c = c
next_covers Intent.full_sync m c = m
next_covers Intent.addition m c = m || c
next_covers Intent.removal m c = not m && c
next_covers Intent.other m c = c

unfoldable pub next_binds : Intent → Bool → Bool
next_binds Intent.deletion b = false
next_binds _ b = b

-- The abstract transition; other installations stay as they are.
unfoldable pub step_by : (lower : String → String) → Intent → InstallationEvent → Access → Access
unfolding next_status next_covers next_binds
step_by lower intended event v = record {
  status = λ i.
      if nat_beq event.installation_id i then next_status intended (v.status i) else v.status i;
  covers = λ i r.
      if nat_beq event.installation_id i
      then next_covers intended (mentions lower event.repositories r) (v.covers i r)
      else v.covers i r;
  binds = λ t i.
      if nat_beq event.installation_id i then next_binds intended (v.binds t i) else v.binds t i;
}

unfoldable pub step : (lower : String → String) → InstallationEvent → Access → Access
unfolding intent step_by
step lower event v = step_by lower (intent event.action) event v

lookup-filter :
    {V : Type 0} (i k : ℕ) (d : List (ℕ × V))
    → lookup k (filter (λ p. not (nat_beq p.0 i)) d) ≡ (if nat_beq i k then none else lookup k d)
lookup-filter i k [] = ground arith
lookup-filter i k ((j, v) ∷ d) = ground (arith, lookup-filter i k d)

any-filter :
    (t : String) (i k : ℕ) (bs : List Binding)
    → any (is_binding t k) (filter (λ b. not (nat_beq b.installation_id i)) bs)
      ≡ (if nat_beq i k then false else any (is_binding t k) bs)
any-filter t i k [] = ground arith
any-filter t i k (b ∷ bs) = ground (arith, any-filter t i k bs)

-- Two accounts are equal when they answer alike.
pub Access-path :
    (v w : Access)
    → ((i : ℕ) → v.status i ≡ w.status i)
    → ((i : ℕ) (r : String) → v.covers i r ≡ w.covers i r)
    → ((t : String) (i : ℕ) → v.binds t i ≡ w.binds t i)
    → v ≡ w
Access-path v w s c b =
    λ j. record { status = λ i. s i j; covers = λ i r. c i r j; binds = λ t i. b t i j }

status-upsert :
    (event : InstallationEvent) (s : Option Bool) (now : String) (db : Db) (i : ℕ)
    (intended : Intent)
    → next_status intended (status_of (lookup event.installation_id db.installations))
      ≡ status_of (
          some (upserted event.account_login s now (lookup event.installation_id db.installations)))
    → status_of (lookup i (upsert_in event s now db).installations) ≡ (
        if nat_beq event.installation_id i
        then next_status intended (status_of (lookup i db.installations))
        else status_of (lookup i db.installations))
unfolding upsert_in
status-upsert event s now db i intended h =
    let row = upserted event.account_login s now (lookup event.installation_id db.installations) in
    let put = lookup-insert event.installation_id i row db.installations in
    elim (Bool-cases (nat_beq event.installation_id i)) [
      | inl e ↦
          let g : event.installation_id ≡ i = (nat_beq_iff _ _).0 e in
          let new : lookup i (insert event.installation_id row db.installations) ≡ some row =
            rw e at put in
          rw e (
            ap status_of new
            ∙ sym h
            ∙ ap (λ k. next_status intended (status_of (lookup k db.installations))) g)
      | inr e ↦
          let old : lookup i (insert event.installation_id row db.installations)
              ≡ lookup i db.installations =
            rw e at put in
          rw e (ap status_of old)
    ]

suspended-upserted :
    (login : Option String) (b : Bool) (now : String) (o : Option Installation)
    → (upserted login (some b) now o).suspended ≡ b
suspended-upserted none b now none = refl
suspended-upserted none b now (some i) = refl
suspended-upserted (some l) b now none = refl
suspended-upserted (some l) b now (some i) = refl

-- An upsert without a suspension leaves the status, or makes it active.
kept :
    (intended : Intent)
    → ((s : Option Bool) → next_status intended s ≡ next_status Intent.other s)
    → (login : Option String) (now : String) (o : Option Installation)
    → next_status intended (status_of o) ≡ status_of (some (upserted login none now o))
unfolding next_status
kept intended h none now none = h none
kept intended h none now (some i) = h (some i.suspended)
kept intended h (some l) now none = h none
kept intended h (some l) now (some i) = h (some i.suspended)

module _ (lower : String → String) (event : InstallationEvent) (now : String) (db : Db) where
  covers-deleted :
      (i : ℕ) (r : String)
      → has_row i r (filter (λ p. not (nat_beq p.0 event.installation_id)) db.repos)
        ≡ (if nat_beq event.installation_id i then false else has_row i r db.repos)
  covers-deleted i r =
      has_row-filter i r (λ p. not (nat_beq p.0 event.installation_id)) db.repos
      ∙ ground (arith, beq_comm i event.installation_id)

  view-tables :
      (intended : Intent)
      → view (tables lower intended event now db) ≡ step_by lower intended event (view db)
  unfolding view step_by tables upsert_in next_covers next_binds next_status
  view-tables Intent.deletion =
      Access-path _ _
        (λ i. ap status_of (lookup-filter event.installation_id i db.installations) ∙ ground arith)
        (λ i r.
          has_row-filter i r (λ p. not (nat_beq p.0 event.installation_id)) _
          ∙ ground (arith, covers-deleted i r, beq_comm i event.installation_id))
        (λ t i. any-filter t event.installation_id i db.workspaces)
  view-tables Intent.suspension =
      Access-path _ _
        (λ i.
          status-upsert event (some true) now db i Intent.suspension
            (ap some (sym (suspended-upserted event.account_login true now _))))
        (λ i r. ground arith) (λ t i. ground arith)
  view-tables Intent.full_sync =
      Access-path _ _
        (λ i.
          status-upsert event (some false) now db i Intent.full_sync
            (ap some (sym (suspended-upserted event.account_login false now _))))
        (λ i r.
          has_row-put_rows lower event.installation_id i r event.repositories _
          ∙ ground (arith, covers-deleted i r))
        (λ t i. ground arith)
  view-tables Intent.addition =
      Access-path _ _
        (λ i. status-upsert event none now db i Intent.addition (
          kept Intent.addition (λ s. elim s [ none ↦ refl | some x ↦ refl ]) event.account_login now
            _))
        (λ i r.
          has_row-put_rows lower event.installation_id i r event.repositories _ ∙ ground arith)
        (λ t i. ground arith)
  view-tables Intent.removal =
      Access-path _ _
        (λ i. status-upsert event none now db i Intent.removal (
          kept Intent.removal (λ s. elim s [ none ↦ refl | some x ↦ refl ]) event.account_login now
            _))
        (λ i r.
          has_row-drop_rows lower event.installation_id i r event.repositories _ ∙ ground arith)
        (λ t i. ground arith)
  view-tables Intent.other =
      Access-path _ _
        (λ i.
          status-upsert event none now db i Intent.other
            (kept Intent.other (λ s. refl) event.account_login now _))
        (λ i r. ground arith) (λ t i. ground arith)

  -- When the event's id fits the database's integers, applying it returns, and the tables then show
  -- what the abstract transition says: who is active, which repositories are covered, and which
  -- workspaces are bound, for every installation. Otherwise it raises and changes nothing.
  pub apply_installation_event-step :
      let (r, after) = apply_installation_event (Sqlite.store lower) event now db in
      ((event.installation_id < id_limit) × (r ≡ ok tt) × (view after ≡ step lower event (view db)))
      ⊎ ((id_limit ≤ event.installation_id) × (r ≡ raised overflow) × (after ≡ db))
  unfolding step
  apply_installation_event-step = elim (Bool-cases (ltb event.installation_id id_limit)) [
    | inl e ↦
        let h = apply-tables lower event now db e in
        inl
          (ltb→lt _ _ e, ap (λ x. x.0) h, ap (λ x. view x.1) h ∙ view-tables (intent event.action))
    | inr e ↦
        let h = apply-overflow lower event now db e in
        inr (ground (arith, e), ap (λ x. x.0) h, ap (λ x. x.1) h)
  ]
