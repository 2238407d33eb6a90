-- ===== src/Installations/Repeat.antt =====
-- apply_installation_event (src/coursefuzz/security/installations.py) on an event that comes twice.
use course_fuzz.Prelude.{
  String, Bool, true, false, Option, none, some, nat_beq, if◌then◌else◌, ◌≡◌, refl, ap, sym, ◌∙◌,
  inl, inr, arith,
}
use course_fuzz.Installations.{InstallationEvent, Db, apply_installation_event}
use course_fuzz.Installations.Sqlite
use course_fuzz.Installations.Access.{
  Access, view, next_status, next_covers, next_binds, step_by, step, Access-path,
  apply_installation_event-step,
}
use course_fuzz.Installations.Tables.{Intent, intent}

next_status_idem :
    (k : Intent) (s : Option Bool) → next_status k (next_status k s) ≡ next_status k s
unfolding next_status
next_status_idem Intent.deletion s = refl
next_status_idem Intent.suspension s = refl
next_status_idem Intent.full_sync s = refl
next_status_idem Intent.addition none = refl
next_status_idem Intent.addition (some b) = refl
next_status_idem Intent.removal none = refl
next_status_idem Intent.removal (some b) = refl
next_status_idem Intent.other none = refl
next_status_idem Intent.other (some b) = refl

next_covers_idem :
    (k : Intent) (m c : Bool) → next_covers k m (next_covers k m c) ≡ next_covers k m c
unfolding next_covers
next_covers_idem Intent.deletion m c = refl
next_covers_idem Intent.suspension m c = refl
next_covers_idem Intent.full_sync m c = refl
next_covers_idem Intent.addition m c = ground arith
next_covers_idem Intent.removal m c = ground arith
next_covers_idem Intent.other m c = refl

next_binds_idem : (k : Intent) (b : Bool) → next_binds k (next_binds k b) ≡ next_binds k b
unfolding next_binds
next_binds_idem Intent.deletion b = refl
next_binds_idem Intent.suspension b = refl
next_binds_idem Intent.full_sync b = refl
next_binds_idem Intent.addition b = refl
next_binds_idem Intent.removal b = refl
next_binds_idem Intent.other b = refl

-- A function that is applied where a test holds, and twice there.
where_idem :
    {A : Type 0} (b : Bool) (f : A → A)
    → ((a : A) → f (f a) ≡ f a)
    → (a : A)
    → (if b then f (if b then f a else a) else (if b then f a else a)) ≡ (if b then f a else a)
where_idem true f h a = h a
where_idem false f h a = refl

step_idem :
    (lower : String → String) (event : InstallationEvent) (v : Access)
    → step lower event (step lower event v) ≡ step lower event v
unfolding step step_by
step_idem lower event v =
    let k = intent event.action in
    Access-path _ _
      (λ i.
        where_idem (nat_beq event.installation_id i) (next_status k) (next_status_idem k)
          (v.status i))
      (λ i r. where_idem (nat_beq event.installation_id i) _ (next_covers_idem k _) (v.covers i r))
      (λ t i.
        where_idem (nat_beq event.installation_id i) (next_binds k) (next_binds_idem k)
          (v.binds t i))

-- An event that is applied twice in a row, whatever the clock says, changes nothing the second time
-- of what is active, covered or bound.
pub apply_installation_event_idem :
    (lower : String → String) (event : InstallationEvent) (now later : String) (db : Db)
    → let once = (apply_installation_event (Sqlite.store lower) event now db).1 in
      let twice = (apply_installation_event (Sqlite.store lower) event later once).1 in
      view twice ≡ view once
apply_installation_event_idem lower event now later db =
    let once = (apply_installation_event (Sqlite.store lower) event now db).1 in
    elim (apply_installation_event-step lower event now db) [
      | inl (fits, _, first) ↦ elim (apply_installation_event-step lower event later once) [
        | inl (_, _, second) ↦
            second ∙ ap (step lower event) first ∙ step_idem lower event (view db) ∙ sym first
        | inr (_, _, same) ↦ ap view same
      ]
      | inr (large, _, same) ↦ elim (apply_installation_event-step lower event later once) [
        | inl (fits, _, second) ↦ absurd (omega (arith, fits, large))
        | inr (_, _, again) ↦ ap view again
      ]
    ]
