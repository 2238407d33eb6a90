-- ===== src/Engine/Select/Best.antt =====
-- The selected verdict covers at least as many misconceptions as any other.
use course_fuzz.Prelude.{
  ◌≤◌, true, false, List, [], ◌∷◌, length, any, Elem, All, inl, inr, ◌≡◌, refl, arith, Bool-cases,
}
use mathlib.Core.Path.{subst}
use course_fuzz.Prelude.Result.{ok}
use course_fuzz.Models.{HypothesisVerdict}
use course_fuzz.Engine.Select.{magnitude, key_ltb, least_from, is_empty, select}

-- `v` kills at least as many mutants as `w`, and if as many, then by inputs no larger in sum.
pub record AtLeast (v w : HypothesisVerdict) : Type 0 where
  pub kills : length w.killed_mutants ≤ length v.killed_mutants
  pub legible :
      length w.killed_mutants ≡ length v.killed_mutants
      → magnitude v.hypothesis.inputs ≤ magnitude w.hypothesis.inputs

AtLeast-refl : (v : HypothesisVerdict) → AtLeast v v
AtLeast-refl v = omega arith

AtLeast-trans : (u v w : HypothesisVerdict) → AtLeast u v → AtLeast v w → AtLeast u w
AtLeast-trans u v w h k = ground arith

key_ltb-AtLeast : (v w : HypothesisVerdict) → key_ltb v w ≡ true → AtLeast v w
unfolding key_ltb
key_ltb-AtLeast v w h = ground arith

not_key_ltb-AtLeast : (v w : HypothesisVerdict) → key_ltb v w ≡ false → AtLeast w v
unfolding key_ltb
not_key_ltb-AtLeast v w h = ground arith

least_from-AtLeast :
    (best : HypothesisVerdict) (vs : List HypothesisVerdict)
    → Elem (least_from best vs) (best ∷ vs) × All (AtLeast (least_from best vs)) (best ∷ vs)
unfolding least_from
least_from-AtLeast best [] = (inl refl, (AtLeast-refl best, tt))
least_from-AtLeast best (v ∷ vs) = elim (Bool-cases (key_ltb v best)) [
  | inl e ↦
      let (m, r) = least_from-AtLeast v vs in
      subst Good (rw e) (inr m, (AtLeast-trans _ v best r.0 (key_ltb-AtLeast v best e), r))
  | inr e ↦
      let (m, r) = least_from-AtLeast best vs in
      subst Good (rw e)
        (skip m, (r.0, (AtLeast-trans _ best v r.0 (not_key_ltb-AtLeast v best e), r.1)))
]
  where
    Good : HypothesisVerdict → Type 0
    Good t = Elem t (best ∷ v ∷ vs) × All (AtLeast t) (best ∷ v ∷ vs)

    skip : Elem (least_from best vs) (best ∷ vs) → Elem (least_from best vs) (best ∷ v ∷ vs)
    skip (inl p) = inl p
    skip (inr p) = inr (inr p)

-- A selection that returns is one of the verified verdicts, no other kills more mutants, and none
-- that kills as many has inputs of a smaller sum of absolute values.
pub select-AtLeast :
    (vs : List HypothesisVerdict) (v : HypothesisVerdict)
    → select vs ≡ ok v
    → Elem v vs × All (AtLeast v) vs
unfolding select
select-AtLeast [] v h = cc
select-AtLeast (w ∷ ws) v h = elim (Bool-cases (any (λ u. is_empty u.hypothesis.inputs) (w ∷ ws))) [
  | inl e ↦ cc (rw e at h)
  | inr e ↦
      let k : least_from w ws ≡ v = cc (rw e at h) in
      subst (λ t. Elem t (w ∷ ws) × All (AtLeast t) (w ∷ ws)) k (least_from-AtLeast w ws)
]
