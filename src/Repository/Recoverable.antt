-- ===== src/Repository/Recoverable.antt =====
-- Which runs the worker is given to recover.
use mathlib.Core.List.Permᴰ
use mathlib.Core.List.{Permᴰ}
use course_fuzz.Prelude.{
  ℕ, zero, suc, ◌≤◌, min, Bool, ◌||◌, List, [], ◌∷◌, ◌++◌, take, filter, length, All, ltb, ◌≡◌,
  refl, ap, ◌∙◌, inl, inr, Bool-cases, arith,
}
use course_fuzz.Models.{RunStatus, status_beq}
use course_fuzz.Repository.{
  Store, RunRow, recoverable, put_by_updated_at, by_updated_at, recoverable_rows,
}

-- A run that work has begun on, or should begin on.
abbrev pub interrupted : RunStatus → Bool
interrupted s =
    status_beq s RunStatus.queued
    || status_beq s RunStatus.analyzing
    || status_beq s RunStatus.applying
    || status_beq s RunStatus.external_ci_pending

recoverable-interrupted : (s : RunStatus) → recoverable s ≡ interrupted s
recoverable-interrupted RunStatus.queued = refl
recoverable-interrupted RunStatus.analyzing = refl
recoverable-interrupted RunStatus.approval_required = refl
recoverable-interrupted RunStatus.approved = refl
recoverable-interrupted RunStatus.applying = refl
recoverable-interrupted RunStatus.external_ci_pending = refl
recoverable-interrupted RunStatus.verified = refl
recoverable-interrupted RunStatus.no_action_required = refl
recoverable-interrupted RunStatus.external_ci_failed = refl
recoverable-interrupted RunStatus.failed = refl

length-Perm : {A : Type 0} {xs ys : List A} → Permᴰ xs ys → length xs ≡ length ys
length-Perm Permᴰ.nil = refl
length-Perm (Permᴰ.cons e p) = ap suc (length-Perm p)
length-Perm (Permᴰ.swap e f) = refl
length-Perm (Permᴰ.trans p q) = length-Perm p ∙ length-Perm q

module _ {A : Type 0} where
  -- The oldest update first.
  abbrev pub OldestFirst : List (RunRow A) → Type 0
  OldestFirst [] = Unit
  OldestFirst (r ∷ rs) = All (λ x. r.updated_at ≤ x.updated_at) rs × OldestFirst rs

  All-put :
      (t : ℕ) (r : RunRow A) (rs : List (RunRow A))
      → t ≤ r.updated_at
      → All (λ x. t ≤ x.updated_at) rs
      → All (λ x. t ≤ x.updated_at) (put_by_updated_at r rs)
  unfolding put_by_updated_at
  All-put t r [] h k = (h, tt)
  All-put t r (x ∷ xs) h k = elim (Bool-cases (ltb x.updated_at r.updated_at)) [
    | inl e ↦ rw e (k.0, All-put t r xs h k.1)
    | inr e ↦ rw e (h, k)
  ]

  All-raise :
      (s t : ℕ) (rs : List (RunRow A))
      → s ≤ t
      → All (λ x. t ≤ x.updated_at) rs
      → All (λ x. s ≤ x.updated_at) rs
  All-raise s t [] h k = tt
  All-raise s t (x ∷ xs) h k = (omega (arith, h, k.0), All-raise s t xs h k.1)

  put-OldestFirst :
      (r : RunRow A) (rs : List (RunRow A)) → OldestFirst rs → OldestFirst (put_by_updated_at r rs)
  unfolding put_by_updated_at
  put-OldestFirst r [] h = (tt, tt)
  put-OldestFirst r (x ∷ xs) h = elim (Bool-cases (ltb x.updated_at r.updated_at)) [
    | inl e ↦ rw e (All-put x.updated_at r xs (ground (arith, e)) h.0, put-OldestFirst r xs h.1)
    | inr e ↦
        let le : r.updated_at ≤ x.updated_at = ground (arith, e) in
        rw e ((le, All-raise r.updated_at x.updated_at xs le h.0), h)
  ]

  sorted-OldestFirst : (rs : List (RunRow A)) → OldestFirst (by_updated_at rs)
  unfolding by_updated_at
  sorted-OldestFirst [] = tt
  sorted-OldestFirst (r ∷ rs) = put-OldestFirst r (by_updated_at rs) (sorted-OldestFirst rs)

  put-Perm : (r : RunRow A) (rs : List (RunRow A)) → Permᴰ (put_by_updated_at r rs) (r ∷ rs)
  unfolding put_by_updated_at
  put-Perm r [] = Permᴰ.refl (r ∷ [])
  put-Perm r (x ∷ xs) = elim (Bool-cases (ltb x.updated_at r.updated_at)) [
    | inl e ↦ rw e (Permᴰ.trans (Permᴰ.cons refl (put-Perm r xs)) (Permᴰ.swap refl refl))
    | inr e ↦ rw e (Permᴰ.refl (r ∷ x ∷ xs))
  ]

  sorted-Perm : (rs : List (RunRow A)) → Permᴰ (by_updated_at rs) rs
  unfolding by_updated_at
  sorted-Perm [] = Permᴰ.nil
  sorted-Perm (r ∷ rs) =
      Permᴰ.trans (put-Perm r (by_updated_at rs)) (Permᴰ.cons refl (sorted-Perm rs))

  -- What a limit leaves out.
  take-rest :
      (n : ℕ) (rs : List (RunRow A))
      → (rest : List (RunRow A)) × (take n rs ++ rest ≡ rs)
        × (length (take n rs) ≡ min n (length rs))
  take-rest zero rs = (rs, refl, omega arith)
  take-rest (suc n) [] = ([], refl, omega arith)
  take-rest (suc n) (r ∷ rs) =
      let (rest, e, l) = take-rest n rs in (rest, ap (λ t. r ∷ t) e, omega (arith, l))

  filter-same :
      (p q : RunRow A → Bool) (rs : List (RunRow A))
      → ((r : RunRow A) → p r ≡ q r)
      → filter p rs ≡ filter q rs
  filter-same p q rs h = ap (λ f. filter f rs) (λ i r. h r i)

  -- The worker is given the oldest of the interrupted runs: the rows that it is given and those that
  -- are left out are together all runs of the store that are queued, analyzing, applying or waiting
  -- for CI, each once, from the one that was updated first to the one that was updated last; and it
  -- is given `limit` of them, or all when there are fewer.
  pub recoverable_rows-OldestFirst :
      (limit : ℕ) (s : Store A)
      → let rows = recoverable_rows limit s in
        let all = filter (λ r. interrupted r.document.status) s.runs in
        (rest : List (RunRow A)) × Permᴰ (rows ++ rest) all
        × OldestFirst (rows ++ rest)
        × (length rows ≡ min limit (length all))
  unfolding recoverable_rows
  recoverable_rows-OldestFirst limit s =
      let found = filter (λ r. recoverable r.document.status) s.runs in
      let (rest, e, l) = take-rest limit (by_updated_at found) in
      let same = filter-same _ _ s.runs (λ r. recoverable-interrupted r.document.status) in
      let n : length (by_updated_at found) ≡ length found = length-Perm (sorted-Perm found) in
      (
        rest,
        rw (e, ← same) (sorted-Perm found),
        rw e (sorted-OldestFirst found),
        rw (← same) (l ∙ ap (min limit) n),
      )
