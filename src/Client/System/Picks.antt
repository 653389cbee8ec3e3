-- ===== src/Client/System/Picks.antt =====
-- What holds of the list that a task, or a request of one, is picked from.
use pro_sa_hyper.Common.{
  pick, ℕ, zero, suc, ◌≡◌, refl, ap, Option, none, some, List, [], ◌∷◌, All, length,
}

module _ {A : Type 0} where
  -- What holds of a list holds of the item that is picked and of the others.
  abbrev pub OfPick : (A → Type 0) → ℕ → Option (A × List A) → Type 0
  OfPick Q k none = Unit {0}
  OfPick Q k (some (x, ys)) = Q x × All Q ys × (k ≡ suc (length ys))

  pub pick-OfPick :
      (Q : A → Type 0) (n : ℕ) (xs : List A) → All Q xs → OfPick Q (length xs) (pick n xs)
  unfolding pick
  pick-OfPick Q n [] a = tt
  pick-OfPick Q zero (x ∷ xs) a = (a.0, a.1, refl)
  pick-OfPick Q (suc n) (x ∷ xs) a = behind (pick n xs) (pick-OfPick Q n xs a.1)
    where
      behind :
          (o : Option (A × List A))
          → OfPick Q (length xs) o
          → OfPick Q (suc (length xs)) (elim o [ none ↦ none | some (y, ys) ↦ some (y, x ∷ ys) ])
      behind none h = tt
      behind (some (y, ys)) h = (h.0, (a.0, h.1), ap suc h.2)
