-- ===== src/Common/Lists.antt =====
-- One item of a list, taken out by its number.
use Prim.Native.Nat.{ℕ, zero, suc, ◌+◌}
use mathlib.Core.Path.{◌≡◌}
use mathlib.Core.Logic.{inl, inr}
use mathlib.Core.Option.{Option, none, some}
use mathlib.Core.List.{List, [], ◌∷◌}
use native.Mathlib.Omega.{arith}
use pro_sa_hyper.Common.Tests.{Option-cases}
use pro_sa_hyper.Common.Weights.{weight}

-- The item and the others.
unfoldable pub pick {ℓ} : {A : Type ℓ} → ℕ → List A → Option (A × List A)
pick n [] = none
pick zero (x ∷ xs) = some (x, xs)
pick (suc n) (x ∷ xs) = elim (pick n xs) [ none ↦ none | some (y, ys) ↦ some (y, x ∷ ys) ]

pub weight-pick {ℓ} :
    {A : Type ℓ} (w : A → ℕ) (n : ℕ) (xs ys : List A) (x : A)
    → pick n xs ≡ some (x, ys)
    → weight w xs ≡ w x + weight w ys
unfolding pick
weight-pick w n [] ys x h = cc
weight-pick w zero (z ∷ xs) ys x h = ground arith
weight-pick w (suc n) (z ∷ xs) ys x h = elim (Option-cases (pick n xs)) [
  | inl e ↦ ground arith
  | inr ((y, zs), e) ↦ ground (arith, weight-pick w n xs zs y e)
]
