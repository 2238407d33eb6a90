-- ===== src/Prelude/Text.antt =====
-- Text as the program builds it: f-strings, sorted sets of names, `join`.
use Prim.Native.String.{String, [] as empty, ◌∷◌ as ◌▹◌, ◌++◌, compare}
use Prim.Native.Nat.{ℕ, zero, suc}
use text.Mathlib.Text.{is_lt}
use mathlib.Core.Bool.{Bool, true, not, ◌&&◌}
use mathlib.Core.List.{List, [], ◌∷◌}
use course_fuzz.Prelude.Lists.{contains}
use course_fuzz.Prelude.Tests.{◌==◌, string_eq, if◌then◌else◌}

infixl 65 ◌++ₛ◌
abbrev pub ◌++ₛ◌ : String → String → String
a ++ₛ b = a ++ b

-- Python orders texts by code points.
unfoldable pub text_ltb : String → String → Bool
text_ltb a b = is_lt (compare a b)

-- One more element of a sorted list without duplicates.
unfoldable pub put_sorted : String → List String → List String
unfolding text_ltb
put_sorted a [] = a ∷ []
put_sorted a (x ∷ xs) =
    let rest = put_sorted a xs in
    if a == x then x ∷ xs else if text_ltb a x then a ∷ x ∷ xs else x ∷ rest

-- sorted(set(xs))
unfoldable pub sorted_set : List String → List String
unfolding put_sorted
sorted_set [] = []
sorted_set (x ∷ xs) = put_sorted x (sorted_set xs)

-- sep.join(xs)
unfoldable pub join : String → List String → String
join sep [] = ""
join sep (x ∷ []) = x
join sep (x ∷ y ∷ ys) = x ++ sep ++ join sep (y ∷ ys)

-- len(set(xs)) == len(xs)
unfoldable pub all_distinct : List String → Bool
all_distinct [] = true
all_distinct (x ∷ xs) = not (contains x xs) && all_distinct xs

-- text[:n]
unfoldable pub take_chars : ℕ → String → String
take_chars zero t = ""
take_chars (suc n) empty = ""
take_chars (suc n) (x ▹ t) = x ▹ take_chars n t
