-- ===== src/Common/Weights.antt =====
-- The weight of a list: the sum of a weight of its items. Two lists with the same weight for every
-- weight of items hold the same items, as often; so an equation between weights, for all weights,
-- is an equation between multisets.
use Prim.Native.Nat.{ℕ, suc, ◌+◌}
use mathlib.Core.Path.{◌≡◌, refl}
use mathlib.Core.Logic.{∥∥₁_elim}
use mathlib.Core.List.{List, [], ◌∷◌, ◌++◌, Perm, Permᴰ}
use native.Mathlib.Nat.{ℕ_set}
use native.Mathlib.Omega.{arith}

module _ {ℓ} {A : Type ℓ} where
  abbrev pub length : List A → ℕ
  length [] = 0
  length (x ∷ xs) = suc (length xs)

  abbrev pub weight : (A → ℕ) → List A → ℕ
  weight w [] = 0
  weight w (x ∷ xs) = w x + weight w xs

  abbrev pub All {κ} : (A → Type κ) → List A → Type κ
  All P [] = Unit
  All P (x ∷ xs) = P x × All P xs

  pub weight-append : (w : A → ℕ) (xs ys : List A) → weight w (xs ++ ys) ≡ weight w xs + weight w ys
  weight-append w [] ys = omega arith
  weight-append w (x ∷ xs) ys = omega (arith, weight-append w xs ys)

  weight-permᴰ : (w : A → ℕ) {xs ys : List A} → Permᴰ xs ys → weight w xs ≡ weight w ys
  weight-permᴰ w Permᴰ.nil = refl
  weight-permᴰ w (Permᴰ.cons e p) = ground (arith, weight-permᴰ w p)
  weight-permᴰ w (Permᴰ.swap e e') = ground arith
  weight-permᴰ w (Permᴰ.trans p q) = ground (arith, weight-permᴰ w p, weight-permᴰ w q)

  pub weight-perm : (w : A → ℕ) {xs ys : List A} → Perm xs ys → weight w xs ≡ weight w ys
  weight-perm w p = ∥∥₁_elim p (ℕ_set _ _) (λ d. weight-permᴰ w d)
