-- ===== src/Prelude/State.antt =====
-- Operations on a state that may raise, and relations between the states before and after.
use mathlib.Core.Path.{◌≡◌, refl}
use mathlib.Core.Bool.{Bool, true, false}
use course_fuzz.Prelude.Tests.{if◌then◌else◌}
use course_fuzz.Prelude.Result.{Result, Exn, ok, raised}

abbrev pub St : Type 0 → Type 0 → Type 0
St S A = S → Result A × S

module _ {S A : Type 0} where
  abbrev pub pure : A → St S A
  pure a s = (ok a, s)

  abbrev pub raise : Exn → St S A
  raise x s = (raised x, s)

  abbrev pub lift : Result A → St S A
  lift r s = (r, s)

module _ {S A B : Type 0} where
  abbrev pub continue : (A → St S B) → Result A → St S B
  continue next (ok a) s = next a s
  continue next (raised x) s = (raised x, s)

  infixl 5 ◌>>=◌
  unfoldable pub ◌>>=◌ : St S A → (A → St S B) → St S B
  ◌>>=◌ first next s = continue next (first s).0 (first s).1

  continue-returns :
      (next : A → St S B) (r : Result A) (s : S) {b : B}
      → (continue next r s).0 ≡ ok b
      → (a : A) × (r ≡ ok a) × ((next a s).0 ≡ ok b)
  continue-returns next (ok a) s h = (a, refl, h)
  continue-returns next (raised x) s h = cc

  -- Both parts of an operation that returned have returned.
  pub >>=-returned :
      (first : St S A) (next : A → St S B) (s : S) {b : B}
      → ((first >>= next) s).0 ≡ ok b
      → (a : A) × ((first s).0 ≡ ok a) × ((next a (first s).1).0 ≡ ok b)
  unfolding ◌>>=◌
  >>=-returned first next s h = continue-returns next (first s).0 (first s).1 h

-- However the operation ends, the states before and after are related.
pub record Relates {S A : Type 0} (R : S → S → Type 0) (m : St S A) : Type 0 where
  pub relates : (s : S) → R s (m s).1

-- A relation that any sequence of steps can keep.
pub record IsPreorder {S : Type 0} (R : S → S → Type 0) : Type 0 where
  pub reflexive : (s : S) → R s s
  pub transitive : (s t u : S) → R s t → R t u → R s u

module _ {S : Type 0} (R : S → S → Type 0) (p : IsPreorder R) where
  pub Relates-pure : {A : Type 0} (a : A) → Relates R (pure a)
  Relates-pure a = record { relates = p.reflexive }

  pub Relates-raise : (A : Type 0) (x : Exn) → Relates {A = A} R (raise x)
  Relates-raise A x = record { relates = p.reflexive }

  pub Relates-lift : {A : Type 0} (r : Result A) → Relates R (lift r)
  Relates-lift r = record { relates = p.reflexive }

  Relates-continue :
      {A B : Type 0} (next : A → St S B)
      → ((a : A) → Relates R (next a))
      → (r : Result A) (s : S) → R s (continue next r s).1
  Relates-continue next h (ok a) s = (h a).relates s
  Relates-continue next h (raised x) s = p.reflexive s

  pub Relates-bind :
      {A B : Type 0} (first : St S A) (next : A → St S B)
      → Relates R first
      → ((a : A) → Relates R (next a))
      → Relates R (first >>= next)
  unfolding ◌>>=◌
  Relates-bind first next h k = record {
    relates = λ s.
        p.transitive s (first s).1 (continue next (first s).0 (first s).1).1 (h.relates s)
          (Relates-continue next k (first s).0 (first s).1);
  }

module _ {S A : Type 0} (R : S → S → Type 0) where
  pub Relates-test :
      (b : Bool) (m n : St S A) → Relates R m → Relates R n → Relates R (if b then m else n)
  Relates-test true m n h k = h
  Relates-test false m n h k = k
