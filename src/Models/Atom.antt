-- ===== src/Models/Atom.antt =====
-- JsonAtom of domain/models.py: `str | int | float | bool`, with Python's equality.
-- A finite double is a multiple of 2 ^ -1074, so `float m` stands for m / 2 ^ 1074 exactly.
use course_fuzz.Prelude.{
  ℕ, ◌-◌, ◌*◌, ◌^◌, ℤ, pos, negsuc, String, Bool, true, false, not, ◌&&◌, ◌==◌, string_eq, int_eq,
  ◌≡◌, refl, ◌↔◌, arith, suc, sym, ◌∙◌,
}

pub data JsonAtom : Type 0 where
  text : String → JsonAtom
  int : ℤ → JsonAtom
  float : ℤ → JsonAtom
  infinite : (positive : Bool) → JsonAtom
  nan : JsonAtom
  bool : Bool → JsonAtom

-- What a decoded JSON document holds at `"actual"`: an atom, `null`, or an array or object.
pub data JsonValue : Type 0 where
  null : JsonValue
  atom : JsonAtom → JsonValue
  compound : String → JsonValue

-- What `==` and a set compare: a text, or a numeric value whatever its Python type.
pub data AtomKey : Type 0 where
  text : String → AtomKey
  number : ℤ → AtomKey
  infinite : Bool → AtomKey
  nan : AtomKey

pub float_unit : ℕ
float_unit = 2 ^ 1074

-- An integer in units of 2 ^ -1074.
unfoldable pub scale : ℤ → ℤ
unfolding float_unit
scale (pos n) = pos (n * float_unit)
scale (negsuc n) = negsuc (suc n * float_unit - 1)

unfoldable pub key : JsonAtom → AtomKey
unfolding scale
key (text s) = text s
key (int n) = number (scale n)
key (float m) = number m
key (infinite p) = infinite p
key nan = nan
key (bool true) = number (scale (pos 1))
key (bool false) = number (scale (pos 0))

bool_beq : Bool → Bool → Bool
bool_beq true b = b
bool_beq false b = not b

key_beq : AtomKey → AtomKey → Bool
unfolding bool_beq
key_beq (text a) (text b) = a == b
key_beq (number a) (number b) = a == b
key_beq (infinite a) (infinite b) = bool_beq a b
key_beq nan nan = true
key_beq _ _ = false

key_beq_iff : (a b : AtomKey) → (key_beq a b ≡ true) ↔ (a ≡ b)
unfolding key_beq
key_beq_iff (text a) (text b) = ground (arith, string_eq.beq_iff a b)
key_beq_iff (number a) (number b) = ground (arith, int_eq.beq_iff a b)
key_beq_iff (infinite a) (infinite b) = ground arith
key_beq_iff _ _ = ground arith

-- Membership in a Python set: `is` or `==`. The JSON decoder has one object for NaN, so two NaNs
-- that were read back are the same element.
unfoldable pub atom_same : JsonAtom → JsonAtom → Bool
unfolding key_beq key
atom_same a b = key_beq (key a) (key b)

is_nan : JsonAtom → Bool
is_nan nan = true
is_nan _ = false

-- a == b
unfoldable pub atom_beq : JsonAtom → JsonAtom → Bool
unfolding atom_same is_nan
atom_beq a b = not (is_nan a) && atom_same a b

pub atom_same_iff : (a b : JsonAtom) → (atom_same a b ≡ true) ↔ (key a ≡ key b)
unfolding atom_same
atom_same_iff a b = key_beq_iff (key a) (key b)

pub atom_same_of_beq : (a b : JsonAtom) → atom_beq a b ≡ true → atom_same a b ≡ true
unfolding atom_beq
atom_same_of_beq a b h = ground arith

-- True == 1 == 1.0, and NaN differs from itself.
atom_beq_bool : atom_beq (bool true) (int (pos 1)) ≡ true
unfolding atom_beq
atom_beq_bool = refl

atom_beq_float : atom_beq (int (pos 1)) (float (pos (2 ^ 1074))) ≡ true
unfolding atom_beq
atom_beq_float = refl

atom_beq_nan : atom_beq nan nan ≡ false
unfolding atom_beq
atom_beq_nan = refl

pub atom_same_trans :
    (a b c : JsonAtom) → atom_same a b ≡ true → atom_same b c ≡ true → atom_same a c ≡ true
atom_same_trans a b c h k =
    (atom_same_iff a c).1 ((atom_same_iff a b).0 h ∙ (atom_same_iff b c).0 k)

pub atom_same_comm : (a b : JsonAtom) → atom_same a b ≡ true → atom_same b a ≡ true
atom_same_comm a b h = (atom_same_iff b a).1 (sym ((atom_same_iff a b).0 h))
