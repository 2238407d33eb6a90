-- ===== src/Installations/Payload/Actionable.antt =====
-- The events that parse_installation_event (src/coursefuzz/security/webhooks.py) lets through.
use course_fuzz.Prelude.{
  ℕ, zero, suc, pos, negsuc, String, true, false, ◌||◌, Option, none, some, List, [], All, contains,
  ◌<◌, ◌==◌, string_eq, ◌≡◌, refl, sym, beq_comm, ◌⊎◌, inl, inr, arith, Bool-cases,
}
use mathlib.Core.Path.{subst}
use course_fuzz.Installations.{
  InstallationEvent, is_full_sync, is_add, is_remove, is_delete, is_suspend,
}
use course_fuzz.Installations.Payload.{
  Json, Items, Fields, get, is_repository, add_name, add_entry, add_entries, clean_repositories,
  repositories_of, event_of, with_action, with_id, with_installation, parse_installation_event,
  handled_events, null, boolean, number, real, text, array, object, no_items, item,
}

abbrev AllRepositories : List String → Type 0
AllRepositories names = All (λ r. is_repository r ≡ true) names

-- The actions that an event of each type may carry.
unfoldable pub Handles : (event_type action : String) → Type 0
Handles event_type action =
    ((event_type ≡ "installation")
      × ((is_full_sync action || (is_delete action || is_suspend action)) ≡ true))
    ⊎ ((event_type ≡ "installation_repositories") × ((is_add action || is_remove action) ≡ true))

module _ (lower : String → String) where
  add_name-AllRepositories :
      (j : Json) (names : List String)
      → AllRepositories names
      → AllRepositories (add_name lower j names)
  unfolding add_name
  add_name-AllRepositories (text t) names h = elim (Bool-cases (is_repository (lower t))) [
    | inl e ↦ elim (Bool-cases (contains (lower t) names)) [
      | inl f ↦ rw (e, f) h
      | inr f ↦ rw (e, f) (e, h)
    ]
    | inr e ↦ rw e h
  ]
  add_name-AllRepositories null names h = h
  add_name-AllRepositories (boolean b) names h = h
  add_name-AllRepositories (number n) names h = h
  add_name-AllRepositories (real t) names h = h
  add_name-AllRepositories (array xs) names h = h
  add_name-AllRepositories (object o) names h = h

  add_entries-AllRepositories :
      (xs : Items) (names : List String)
      → AllRepositories names
      → AllRepositories (add_entries lower xs names)
  unfolding add_entries add_entry
  add_entries-AllRepositories no_items names h = h
  add_entries-AllRepositories (item (object o) xs) names h =
      add_entries-AllRepositories xs _ (add_name-AllRepositories (get "full_name" o) names h)
  add_entries-AllRepositories (item null xs) names h = add_entries-AllRepositories xs names h
  add_entries-AllRepositories (item (boolean b) xs) names h = add_entries-AllRepositories xs names h
  add_entries-AllRepositories (item (number n) xs) names h = add_entries-AllRepositories xs names h
  add_entries-AllRepositories (item (real t) xs) names h = add_entries-AllRepositories xs names h
  add_entries-AllRepositories (item (text t) xs) names h = add_entries-AllRepositories xs names h
  add_entries-AllRepositories (item (array ys) xs) names h = add_entries-AllRepositories xs names h

  clean-AllRepositories : (j : Json) → AllRepositories (clean_repositories lower j)
  unfolding clean_repositories
  clean-AllRepositories (array xs) = add_entries-AllRepositories xs [] tt
  clean-AllRepositories null = tt
  clean-AllRepositories (boolean b) = tt
  clean-AllRepositories (number n) = tt
  clean-AllRepositories (real t) = tt
  clean-AllRepositories (text t) = tt
  clean-AllRepositories (object o) = tt

  some_eq : {A : Type 0} (P : A → Type 0) (a b : A) → P a → some a ≡ some b → P b
  some_eq P a b p h = let e : a ≡ b = cc h in subst P e p

  handled_other :
      (event_type : String)
      → (event_type == "installation") ≡ false
      → contains event_type handled_events ≡ true
      → event_type ≡ "installation_repositories"
  handled_other event_type e c = sym (
      (string_eq.beq_iff "installation_repositories" event_type).0
        (ground (arith, beq_comm event_type "installation")))

  repositories_of-Handles :
      (event_type action : String) (payload : Fields) (names : List String)
      → contains event_type handled_events ≡ true
      → repositories_of lower event_type action payload ≡ some names
      → Handles event_type action × AllRepositories names
  unfolding repositories_of Handles
  repositories_of-Handles event_type action payload names c h =
      elim (Bool-cases (event_type == "installation")) [
        | inl e ↦ elim (Bool-cases (is_full_sync action)) [
          | inl f ↦ (
            inl ((string_eq.beq_iff _ _).0 e, rw f refl),
            some_eq AllRepositories _ names (clean-AllRepositories (get "repositories" payload))
                (rw (e, f) at h),
          )
          | inr f ↦ elim (Bool-cases (is_delete action || is_suspend action)) [
            | inl g ↦ (
              inl ((string_eq.beq_iff _ _).0 e, rw (f, g) refl),
              some_eq AllRepositories [] names tt (rw (e, f, g) at h),
            )
            | inr g ↦ cc (rw (e, f, g) at h)
          ]
        ]
        | inr e ↦
            let other : event_type ≡ "installation_repositories" = handled_other event_type e c in
            elim (Bool-cases (is_add action)) [
              | inl f ↦ (
                inr (other, rw f refl),
                some_eq AllRepositories _ names
                    (clean-AllRepositories (get "repositories_added" payload)) (rw (e, f) at h),
              )
              | inr f ↦ elim (Bool-cases (is_remove action)) [
                | inl g ↦ (
                  inr (other, rw (f, g) refl),
                  some_eq AllRepositories _ names
                      (clean-AllRepositories (get "repositories_removed" payload))
                      (rw (e, f, g) at h),
                )
                | inr g ↦ cc (rw (e, f, g) at h)
              ]
            ]
      ]

  -- What an event that is let through is like.
  unfoldable pub IsActionable : (event_type : String) → InstallationEvent → Type 0
  unfolding Handles
  IsActionable event_type event =
      (0 < event.installation_id)
      × Handles event_type event.action
      × AllRepositories event.repositories

  event_of-IsActionable :
      (event_type action : String) (i : ℕ) (login : Option String) (o : Option (List String))
      (event : InstallationEvent)
      → 0 < i
      → ((names : List String) → o ≡ some names → Handles event_type action × AllRepositories names)
      → event_of lower i login action o ≡ some event
      → IsActionable event_type event
  unfolding event_of IsActionable
  event_of-IsActionable event_type action i login none event p q h = cc
  event_of-IsActionable event_type action i login (some names) event p q h =
      let (a, b) = q names refl in some_eq (IsActionable event_type) _ event (p, a, b) h

  with_action-IsActionable :
      (event_type : String) (payload : Fields) (i : ℕ) (login : Option String) (j : Json)
      (event : InstallationEvent)
      → 0 < i
      → contains event_type handled_events ≡ true
      → with_action lower event_type payload i login j ≡ some event
      → IsActionable event_type event
  unfolding with_action
  with_action-IsActionable event_type payload i login (text action) event p c h =
      event_of-IsActionable event_type action i login
        (repositories_of lower event_type action payload) event p
        (λ names k. repositories_of-Handles event_type action payload names c k) h
  with_action-IsActionable event_type payload i login null event p c h = cc
  with_action-IsActionable event_type payload i login (boolean b) event p c h = cc
  with_action-IsActionable event_type payload i login (number n) event p c h = cc
  with_action-IsActionable event_type payload i login (real t) event p c h = cc
  with_action-IsActionable event_type payload i login (array t) event p c h = cc
  with_action-IsActionable event_type payload i login (object t) event p c h = cc

  with_id-IsActionable :
      (event_type : String) (payload installation : Fields) (j : Json) (event : InstallationEvent)
      → contains event_type handled_events ≡ true
      → with_id lower event_type payload installation j ≡ some event
      → IsActionable event_type event
  unfolding with_id
  with_id-IsActionable event_type payload installation (number (pos (suc n))) event c h =
      with_action-IsActionable event_type payload (suc n) _ (get "action" payload) event
        (omega arith) c h
  with_id-IsActionable event_type payload installation (number (pos zero)) event c h = cc
  with_id-IsActionable event_type payload installation (number (negsuc n)) event c h = cc
  with_id-IsActionable event_type payload installation null event c h = cc
  with_id-IsActionable event_type payload installation (boolean b) event c h = cc
  with_id-IsActionable event_type payload installation (real t) event c h = cc
  with_id-IsActionable event_type payload installation (text t) event c h = cc
  with_id-IsActionable event_type payload installation (array t) event c h = cc
  with_id-IsActionable event_type payload installation (object t) event c h = cc

  with_installation-IsActionable :
      (event_type : String) (payload : Fields) (j : Json) (event : InstallationEvent)
      → contains event_type handled_events ≡ true
      → with_installation lower event_type payload j ≡ some event
      → IsActionable event_type event
  unfolding with_installation
  with_installation-IsActionable event_type payload (object o) event c h =
      with_id-IsActionable event_type payload o (get "id" o) event c h
  with_installation-IsActionable event_type payload null event c h = cc
  with_installation-IsActionable event_type payload (boolean b) event c h = cc
  with_installation-IsActionable event_type payload (number n) event c h = cc
  with_installation-IsActionable event_type payload (real t) event c h = cc
  with_installation-IsActionable event_type payload (text t) event c h = cc
  with_installation-IsActionable event_type payload (array t) event c h = cc

  -- An event that is parsed from any body has a positive installation, an action that its type of
  -- event may carry, and only names of the form owner/name.
  pub parse_installation_event-IsActionable :
      (event_type : String) (payload : Json) (event : InstallationEvent)
      → parse_installation_event lower event_type payload ≡ some event
      → IsActionable event_type event
  unfolding parse_installation_event
  parse_installation_event-IsActionable event_type (object payload) event h =
      elim (Bool-cases (contains event_type handled_events)) [
        | inl e ↦
            with_installation-IsActionable event_type payload (get "installation" payload) event e
              (rw e at h)
        | inr e ↦ cc (rw e at h)
      ]
  parse_installation_event-IsActionable event_type null event h = cc
  parse_installation_event-IsActionable event_type (boolean b) event h = cc
  parse_installation_event-IsActionable event_type (number n) event h = cc
  parse_installation_event-IsActionable event_type (real t) event h = cc
  parse_installation_event-IsActionable event_type (text t) event h = cc
  parse_installation_event-IsActionable event_type (array t) event h = cc
