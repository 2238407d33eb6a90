-- ===== src/Repository/Events.antt =====
-- The audit trail.
use course_fuzz.Prelude.{
  ℕ, suc, ◌≤◌, ◌<◌, String, Bool, ◌&&◌, is_some, List, [], ◌∷◌, ◌++◌, find, filter, All, All-append,
  ◌==◌, string_eq, ltb, if◌then◌else◌, ◌≡◌, refl, ◌∙◌, inl, inr, Bool-cases, arith,
}
use course_fuzz.Prelude.Result.{ok, ok-injective}
use mathlib.Core.Path.{subst}
use course_fuzz.Models.{AuditEvent, Time}
use course_fuzz.Repository.{Store, has_id, events_after, append_event}

-- Events stand in increasing order of id, none above `last`.
abbrev pub Ordered : ℕ → List AuditEvent → Type 0
Ordered last [] = Unit
Ordered last (e ∷ es) = (e.id ≤ last) × All (λ f. e.id < f.id) es × Ordered last es

Ordered-append :
    (last : ℕ) (es : List AuditEvent) (e : AuditEvent)
    → Ordered last es
    → e.id ≡ suc last
    → Ordered (suc last) (es ++ e ∷ [])
Ordered-append last [] e h k = (omega arith, tt, tt)
Ordered-append last (x ∷ xs) e h k = (
  omega arith,
  All-append (λ f. x.id < f.id) xs (e ∷ []) h.1 (omega arith, tt),
  Ordered-append last xs e h.2 k,
)

filter-append :
    (p : AuditEvent → Bool) (xs : List AuditEvent) (y : AuditEvent)
    → filter p (xs ++ y ∷ []) ≡ (if p y then filter p xs ++ y ∷ [] else filter p xs)
filter-append p [] y = ground arith
filter-append p (x ∷ xs) y = ground (arith, filter-append p xs y)

module _ {A : Type 0} where
  pub record IsTrail (s : Store A) : Type 0 where
    pub ordered : Ordered s.last_event s.events

  -- Appending an event to an ordered trail keeps it ordered, and a reader of the run who has seen
  -- ids up to `seen`, none beyond the last, gets the new event behind what there was to read; a
  -- reader of another run gets what there was before.
  pub append_event-IsTrail :
      (run_id event_type stage message payload : String) (now : Time) (s : Store A) (e : AuditEvent)
      → IsTrail s
      → (append_event run_id event_type stage message payload now s).0 ≡ ok e
      → let s' = (append_event run_id event_type stage message payload now s).1 in
        IsTrail s'
        × ((k : String) (seen : ℕ)
            → seen ≤ s.last_event
            → events_after k seen s'
              ≡ (if run_id == k then events_after k seen s ++ e ∷ [] else events_after k seen s))
  unfolding append_event events_after
  append_event-IsTrail run_id event_type stage message payload now s e t h =
      elim (Bool-cases (is_some (find (has_id run_id) s.runs))) [
        | inl f ↦
            let new : AuditEvent = record {
              id = suc s.last_event;
              run_id = run_id;
              event_type = event_type;
              stage = stage;
              message = message;
              payload = payload;
              created_at = now;
            } in
            rw f (
              record { ordered = Ordered-append s.last_event s.events new t.ordered refl },
              λ k seen b.
                  filter-append (λ x. x.run_id == k && ltb seen x.id) s.events new
                  ∙ subst
                      (λ y.
                        (if run_id == k && ltb seen (suc s.last_event)
                          then events_after k seen s ++ new ∷ []
                          else events_after k seen s)
                        ≡ (if run_id == k
                            then events_after k seen s ++ y ∷ []
                            else events_after k seen s))
                      (ok-injective new e (rw f at h)) (ground arith),
            )
        | inr f ↦ cc (rw f at h)
      ]
