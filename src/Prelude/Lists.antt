-- ===== src/Prelude/Lists.antt =====
-- Lists measured by native numbers and tested by Boolean functions, under the library's names.
use course_fuzz.Prelude.Tests.{Eq, ◌==◌, beq_refl, eq_of_beq, Bool-cases, if◌then◌else◌}
use Prim.Native.Nat.{ℕ, zero, suc, ◌+◌, ◌≤◌, min}
use mathlib.Core.Path.{◌≡◌, refl, sym, ap, subst}
use mathlib.Core.Logic.{◌⊎◌, inl, inr, ◌≢◌, ◌↔◌}
use mathlib.Core.Bool.{Bool, true, false, ◌&&◌, ◌||◌, not}
use mathlib.Core.Option.{Option, none, some}
use mathlib.Core.List.{List, [], ◌∷◌, ◌++◌, map}
use native.Mathlib.Omega.{arith}

module _ {ℓ} {A : Type ℓ} where
  abbrev pub length : List A → ℕ
  length [] = 0
  length (x ∷ xs) = suc (length xs)

  abbrev pub take : ℕ → List A → List A
  take zero xs = []
  take (suc n) [] = []
  take (suc n) (x ∷ xs) = x ∷ take n xs

  abbrev pub drop : ℕ → List A → List A
  drop zero xs = xs
  drop (suc n) [] = []
  drop (suc n) (x ∷ xs) = drop n xs

  abbrev pub all : (A → Bool) → List A → Bool
  all p [] = true
  all p (x ∷ xs) = p x && all p xs

  abbrev pub any : (A → Bool) → List A → Bool
  any p [] = false
  any p (x ∷ xs) = p x || any p xs

  abbrev pub filter : (A → Bool) → List A → List A
  filter p [] = []
  filter p (x ∷ xs) = let rest = filter p xs in if p x then x ∷ rest else rest

  -- next((x for x in xs if p(x)), None)
  abbrev pub find : (A → Bool) → List A → Option A
  find p [] = none
  find p (x ∷ xs) = let rest = find p xs in if p x then some x else rest

  -- sum(1 for x in xs if p(x))
  abbrev pub count : (A → Bool) → List A → ℕ
  count p [] = 0
  count p (x ∷ xs) = let rest = count p xs in if p x then suc rest else rest

  -- zip, as far as the shorter list goes
  abbrev pub zip {κ} : {B : Type κ} → List A → List B → List (A × B)
  zip [] ys = []
  zip (x ∷ xs) [] = []
  zip (x ∷ xs) (y ∷ ys) = (x, y) ∷ zip xs ys

  -- Every entry satisfies the predicate.
  abbrev pub All {κ} : (A → Type κ) → List A → Type κ
  All P [] = Unit
  All P (x ∷ xs) = P x × All P xs

  -- No entry stands twice.
  abbrev pub Distinct : List A → Type ℓ
  Distinct [] = Unit
  Distinct (x ∷ xs) = All (λ y. x ≢ y) xs × Distinct xs

module _ {ℓ} {A : Type ℓ} where
  pub length-append : (xs ys : List A) → length (xs ++ ys) ≡ length xs + length ys
  length-append [] ys = omega arith
  length-append (x ∷ xs) ys = omega (arith, length-append xs ys)

  pub length-map {κ} : {B : Type κ} (f : A → B) (xs : List A) → length (map f xs) ≡ length xs
  length-map f [] = refl
  length-map f (x ∷ xs) = ap suc (length-map f xs)

  pub length-take : (n : ℕ) (xs : List A) → length (take n xs) ≡ min n (length xs)
  length-take zero xs = omega arith
  length-take (suc n) [] = omega arith
  length-take (suc n) (x ∷ xs) = omega (arith, length-take n xs)

  pub count-filter : (p : A → Bool) (xs : List A) → length (filter p xs) ≡ count p xs
  count-filter p [] = refl
  count-filter p (x ∷ xs) = elim (Bool-cases (p x)) [
    | inl h ↦ rw h (ap suc (count-filter p xs))
    | inr h ↦ rw h (count-filter p xs)
  ]

  pub count-not : (p : A → Bool) (xs : List A) → count p xs + count (λ x. not (p x)) xs ≡ length xs
  count-not p [] = omega arith
  count-not p (x ∷ xs) = elim (Bool-cases (p x)) [
    | inl h ↦ rw h (omega (arith, count-not p xs))
    | inr h ↦ rw h (omega (arith, count-not p xs))
  ]

  pub count-le-length : (p : A → Bool) (xs : List A) → count p xs ≤ length xs
  count-le-length p xs = omega (arith, count-not p xs)

  pub All-append {κ} :
      (P : A → Type κ) (front back : List A) → All P front → All P back → All P (front ++ back)
  All-append P [] back f b = b
  All-append P (a ∷ front) back (p, f) b = (p, All-append P front back f b)

module _ {A : Type 0} where
  -- `a` stands in the list.
  abbrev pub Elem : A → List A → Type 0
  Elem a [] = ⊥
  Elem a (x ∷ xs) = (a ≡ x) ⊎ Elem a xs

module _ {A : Type 0} where
  pub All-mem {κ} : (P : A → Type κ) (a : A) (xs : List A) → All P xs → Elem a xs → P a
  All-mem P a [] h m = absurd m
  All-mem P a (x ∷ xs) h (inl e) = rw e h.0
  All-mem P a (x ∷ xs) h (inr m) = All-mem P a xs h.1 m

  pub All-intro {κ} : (P : A → Type κ) (xs : List A) → ((a : A) → Elem a xs → P a) → All P xs
  All-intro P [] h = tt
  All-intro P (x ∷ xs) h = (h x (inl refl), All-intro P xs (λ a m. h a (inr m)))

  pub Elem-append_left : (a : A) (xs ys : List A) → Elem a xs → Elem a (xs ++ ys)
  Elem-append_left a [] ys m = absurd m
  Elem-append_left a (x ∷ xs) ys (inl e) = inl e
  Elem-append_left a (x ∷ xs) ys (inr m) = inr (Elem-append_left a xs ys m)

  pub Elem-append_right : (a : A) (xs ys : List A) → Elem a ys → Elem a (xs ++ ys)
  Elem-append_right a [] ys m = m
  Elem-append_right a (x ∷ xs) ys m = inr (Elem-append_right a xs ys m)

  pub Elem-append : (a : A) (xs ys : List A) → Elem a (xs ++ ys) → Elem a xs ⊎ Elem a ys
  Elem-append a [] ys m = inr m
  Elem-append a (x ∷ xs) ys (inl e) = inl (inl e)
  Elem-append a (x ∷ xs) ys (inr m) = elim (Elem-append a xs ys m) [
    | inl l ↦ inl (inr l)
    | inr r ↦ inr r
  ]

  pub Elem-filter :
      (p : A → Bool) (xs : List A) (a : A) → Elem a (filter p xs) → Elem a xs × (p a ≡ true)
  Elem-filter p [] a m = absurd m
  Elem-filter p (x ∷ xs) a m = elim (Bool-cases (p x)) [
    | inl h ↦ elim (let m' : Elem a (x ∷ filter p xs) = rw h at m in m') [
      | inl e ↦ (inl e, rw e h)
      | inr t ↦ let r = Elem-filter p xs a t in (inr r.0, r.1)
    ]
    | inr h ↦ let r = Elem-filter p xs a (rw h at m) in (inr r.0, r.1)
  ]

  pub filter-Elem :
      (p : A → Bool) (xs : List A) (a : A) → Elem a xs → p a ≡ true → Elem a (filter p xs)
  filter-Elem p [] a m h = absurd m
  filter-Elem p (x ∷ xs) a (inl e) h = let k : p x ≡ true = rw (← e) h in rw k (inl e)
  filter-Elem p (x ∷ xs) a (inr m) h = elim (Bool-cases (p x)) [
    | inl k ↦ rw k (inr (filter-Elem p xs a m h))
    | inr k ↦ rw k (filter-Elem p xs a m h)
  ]

  pub find-Elem :
      (p : A → Bool) (xs : List A) (a : A) → find p xs ≡ some a → Elem a xs × (p a ≡ true)
  find-Elem p [] a h = cc
  find-Elem p (x ∷ xs) a h = elim (Bool-cases (p x)) [
    | inl k ↦ let e : x ≡ a = cc (rw k at h) in (inl (sym e), rw (← e) k)
    | inr k ↦ let r = find-Elem p xs a (rw k at h) in (inr r.0, r.1)
  ]

  pub find-eq-none :
      (p : A → Bool) (xs : List A) (a : A) → find p xs ≡ none → Elem a xs → p a ≡ false
  find-eq-none p [] a h m = absurd m
  find-eq-none p (x ∷ xs) a h (inl e) = elim (Bool-cases (p x)) [
    | inl k ↦ cc (rw k at h)
    | inr k ↦ rw e k
  ]
  find-eq-none p (x ∷ xs) a h (inr m) = elim (Bool-cases (p x)) [
    | inl k ↦ cc (rw k at h)
    | inr k ↦ find-eq-none p xs a (rw k at h) m
  ]

  pub all_iff : (p : A → Bool) (xs : List A) → (all p xs ≡ true) ↔ All (λ x. p x ≡ true) xs
  all_iff p [] = (λ h. tt, λ h. refl)
  all_iff p (x ∷ xs) = ground (arith, all_iff p xs)

  pub any-Elem : (p : A → Bool) (xs : List A) (a : A) → Elem a xs → p a ≡ true → any p xs ≡ true
  any-Elem p [] a m h = absurd m
  any-Elem p (x ∷ xs) a (inl e) h = let k : p x ≡ true = rw (← e) h in rw k
  any-Elem p (x ∷ xs) a (inr m) h = ground (arith, any-Elem p xs a m h)

  pub Elem-any : (p : A → Bool) (xs : List A) → any p xs ≡ true → (a : A) × Elem a xs × (p a ≡ true)
  Elem-any p [] h = cc
  Elem-any p (x ∷ xs) h = elim (Bool-cases (p x)) [
    | inl k ↦ (x, inl refl, k)
    | inr k ↦ let r = Elem-any p xs (rw k at h) in (r.0, inr r.1, r.2)
  ]

module _ {A B : Type 0} where
  pub Elem-map :
      (f : A → B) (xs : List A) (b : B) → Elem b (map f xs) → (a : A) × Elem a xs × (f a ≡ b)
  Elem-map f [] b m = absurd m
  Elem-map f (x ∷ xs) b (inl e) = (x, inl refl, sym e)
  Elem-map f (x ∷ xs) b (inr m) = let r = Elem-map f xs b m in (r.0, inr r.1, r.2)

  pub map-Elem : (f : A → B) (xs : List A) (a : A) → Elem a xs → Elem (f a) (map f xs)
  map-Elem f [] a m = absurd m
  map-Elem f (x ∷ xs) a (inl e) = inl (ap f e)
  map-Elem f (x ∷ xs) a (inr m) = inr (map-Elem f xs a m)

module _ {A : Type 0} ⦃e : Eq A⦄ where
  -- x in xs
  abbrev pub contains : A → List A → Bool
  contains a xs = any (λ x. x == a) xs

  pub contains-Elem : (a : A) (xs : List A) → contains a xs ≡ true → Elem a xs
  contains-Elem a xs h = let r = Elem-any (λ x. x == a) xs h in rw (← eq_of_beq r.0 a r.2) r.1

  pub Elem-contains : (a : A) (xs : List A) → Elem a xs → contains a xs ≡ true
  Elem-contains a xs m = any-Elem (λ x. x == a) xs a m (beq_refl a)

  pub contains-ne : (a : A) (xs : List A) → contains a xs ≡ false → All (λ x. a ≢ x) xs
  contains-ne a xs h =
      All-intro (λ x. a ≢ x) xs
        λ x m k.
          let m' : Elem a xs = subst (λ t. Elem t xs) (sym k) m in cc (Elem-contains a xs m', h)
