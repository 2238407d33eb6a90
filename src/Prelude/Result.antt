-- ===== src/Prelude/Result.antt =====
-- Python's exceptions as values: `raised` carries what an `except` clause can tell apart, the class
-- and the message.
use mathlib.Core.Path.{◌≡◌, refl}
use mathlib.Core.Bool.{Bool, true, false}
use Prim.Native.String.{String}

pub data Exn : Type 0 where
  value_error key_error runtime_error permission_error timeout_error other_error : String → Exn

pub data Result {ℓ} (A : Type ℓ) : Type ℓ where
  ok : A → Result A
  raised : Exn → Result A

module _ {ℓ κ} {A : Type ℓ} {B : Type κ} where
  infixl 5 ◌>>=◌
  abbrev pub ◌>>=◌ : (attempt : Result A) → (next : A → Result B) → Result B
  raised x >>= next = raised x
  ok a >>= next = next a

-- if b: raise x
abbrev pub raise_if : Bool → Exn → Result (Unit {0})
raise_if true x = raised x
raise_if false x = ok tt

module _ {ℓ κ} {A : Type ℓ} {B : Type κ} where
  -- What an attempt that went well consists of.
  pub bind-eq-ok :
      (attempt : Result A) (next : A → Result B) {last : B}
      → (attempt >>= next) ≡ ok last
      → (first : A) × (attempt ≡ ok first) × (next first ≡ ok last)
  bind-eq-ok (raised x) next h = cc
  bind-eq-ok (ok first) next h = (first, refl, h)

module _ {ℓ} {A : Type ℓ} where
  pub ok-injective : (a b : A) → ok a ≡ ok b → a ≡ b
  ok-injective a b h = cc

module _ {ℓ} {A B : Type ℓ} where
  pub ok-pair_injective :
      (a c : A) (b d : B) → ◌≡◌ {A = Result (A × B)} (ok (a, b)) (ok (c, d)) → (a ≡ c) × (b ≡ d)
  ok-pair_injective a c b d h = (cc, cc)
