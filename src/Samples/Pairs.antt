-- ===== src/Samples/Pairs.antt =====
-- An association list as a collection of pending messages, each with its timeout, the newest first.
-- Time begins when they are pushed; `pull` gives the newest message once its timeout is over.
use mathlib.Core.List.Perm
use pro_sa_hyper.Common.{
  ℕ, ◌≤◌, ◌≡◌, ◌≢◌, refl, inl, inr, Option, none, some, List, [], ◌∷◌, Bool, true, false, Perm,
  arith, if◌then◌else◌, ltb, ◌==◌, Bool-cases,
}
use pro_sa_hyper.Prosa.Pending.{PendingMsgs}

module _ {T : Type 0} where
  abbrev pub take_first : ℕ → List (ℕ × T × ℕ) → Option T × List (ℕ × T × ℕ)
  take_first i [] = (none, [])
  take_first i ((j, m, t) ∷ p) =
      let (x, rest) = take_first i p in if j == i then (some m, p) else (x, (j, m, t) ∷ rest)

  abbrev pub take_due : ℕ → List (ℕ × T × ℕ) → Option T × List (ℕ × T × ℕ)
  take_due now [] = (none, [])
  take_due now ((j, m, t) ∷ p) = if ltb now t then (none, (j, m, t) ∷ p) else (some m, p)

  abbrev pub is_nil : List (ℕ × T × ℕ) → Bool
  is_nil [] = true
  is_nil (e ∷ p) = false

  -- The messages without their timeouts, and the longest of these.
  abbrev pub without_timeouts : List (ℕ × T × ℕ) → List (ℕ × T)
  without_timeouts [] = []
  without_timeouts ((i, m, t) ∷ p) = (i, m) ∷ without_timeouts p

  abbrev pub longest : List (ℕ × T × ℕ) → ℕ
  longest [] = 0
  longest ((i, m, t) ∷ p) = if ltb (longest p) t then t else longest p

  pub take_first_some :
      (i : ℕ) (p : List (ℕ × T × ℕ)) (m : T)
      → (take_first i p).0 ≡ some m
      → Perm (without_timeouts p) ((i, m) ∷ without_timeouts (take_first i p).1)
  take_first_some i [] m e = cc
  take_first_some i ((j, x, t) ∷ p) m e = elim (Bool-cases (j == i)) [
    | inl hit ↦ rw hit (Perm.cons' (ground arith) Perm.rfl)
    | inr miss ↦ rw miss (
        Perm.trans (Perm.cons (j, x) (take_first_some i p m (ground arith)))
          (Perm.swap (i, m) (j, x) (without_timeouts (take_first i p).1)))
  ]

  pub take_first_none :
      (i : ℕ) (p : List (ℕ × T × ℕ))
      → (take_first i p).0 ≡ none
      → Perm (without_timeouts p) (without_timeouts (take_first i p).1)
  take_first_none i [] e = Perm.rfl
  take_first_none i ((j, x, t) ∷ p) e = elim (Bool-cases (j == i)) [
    | inl hit ↦ absurd (ground arith)
    | inr miss ↦ rw miss (Perm.cons (j, x) (take_first_none i p (ground arith)))
  ]

  pub take_first_missed :
      (i : ℕ) (p : List (ℕ × T × ℕ))
      → (take_first i p).0 ≡ none
      → (take_first i (take_first i p).1).0 ≡ none
  take_first_missed i [] e = refl
  take_first_missed i ((j, x, t) ∷ p) e = ground (arith, take_first_missed i p)

  pub take_first_ne :
      (i j : ℕ) (p : List (ℕ × T × ℕ))
      → i ≢ j
      → (take_first i (take_first j p).1).0 ≡ (take_first i p).0
  take_first_ne i j [] h = refl
  take_first_ne i j ((k, x, t) ∷ p) h = ground (arith, take_first_ne i j p h)

  pub take_due-some :
      (now : ℕ) (p : List (ℕ × T × ℕ)) (m : T)
      → (take_due now p).0 ≡ some m
      → (i : ℕ) × Perm (without_timeouts p) ((i, m) ∷ without_timeouts (take_due now p).1)
        × ((take_first i p).0 ≡ some m)
        × ((j : ℕ) → j ≢ i → (take_first j (take_due now p).1).0 ≡ (take_first j p).0)
  take_due-some now [] m e = cc
  take_due-some now ((j, x, t) ∷ p) m e = elim (Bool-cases (ltb now t)) [
    | inr hit ↦ (j, rw hit (Perm.cons' (ground arith) Perm.rfl), ground arith, λ k h. ground arith)
    | inl miss ↦ absurd (ground arith)
  ]

  pub take_due-none :
      (now : ℕ) (p : List (ℕ × T × ℕ)) → (take_due now p).0 ≡ none → (take_due now p).1 ≡ p
  take_due-none now [] e = refl
  take_due-none now ((j, x, t) ∷ p) e = ground arith

  pub front :
      (i : ℕ) (m : T) (t : ℕ) (p : List (ℕ × T × ℕ)) → (take_first i ((i, m, t) ∷ p)).0 ≡ some m
  front i m t p = ground arith

  pub behind :
      (i j : ℕ) (m : T) (t : ℕ) (p : List (ℕ × T × ℕ))
      → i ≢ j
      → (take_first i ((j, m, t) ∷ p)).0 ≡ (take_first i p).0
  behind i j m t p h = ground arith

  pub due_none_found :
      (i now : ℕ) (p : List (ℕ × T × ℕ))
      → (take_due now p).0 ≡ none
      → (take_first i (take_due now p).1).0 ≡ (take_first i p).0
  due_none_found i now p h = rw (take_due-none now p h)

  pub due_none_perm :
      (now : ℕ) (p : List (ℕ × T × ℕ))
      → (take_due now p).0 ≡ none
      → Perm (without_timeouts p) (without_timeouts (take_due now p).1)
  due_none_perm now p h = rw (take_due-none now p h) Perm.rfl

module _ {T : Type 0} where
  pub late_found :
      (now : ℕ) (p : List (ℕ × T × ℕ))
      → is_nil p ≡ false
      → longest p ≤ now
      → (take_due now p).0 ≢ none
  late_found now [] e h = cc
  late_found now ((j, x, t) ∷ p) e h = ground arith

  pub longest-take_due : (now : ℕ) (p : List (ℕ × T × ℕ)) → longest (take_due now p).1 ≤ longest p
  longest-take_due now [] = omega arith
  longest-take_due now ((j, x, t) ∷ p) = ground arith

  pub without_timeouts-nil : (p : List (ℕ × T × ℕ)) → is_nil p ≡ true → without_timeouts p ≡ []
  without_timeouts-nil [] e = refl
  without_timeouts-nil (x ∷ p) e = cc

abbrev pub pairs : (T : Type 0) → PendingMsgs T
pairs T = record {
  Pending = List (ℕ × T × ℕ);
  empty = [];
  push_with_id = λ i m t p. (i, m, t) ∷ p;
  pull_msg = take_first;
  pull = take_due;
  is_empty = is_nil;
  entries = without_timeouts;
  deadline = longest;
  entries-empty = refl;
  entries-push_with_id = λ i m t p h. Perm.rfl;
  pull_msg_some = take_first_some;
  pull_msg_none = take_first_none;
  pull_msg_missed = take_first_missed;
  pull_msg-push_with_id = λ i m t p. front i m t p;
  pull_msg-push_with_id_ne = λ i j m t p h. behind i j m t p h;
  pull_msg_ne = take_first_ne;
  pull_msg_pull_none = λ i now p h. due_none_found i now p h;
  pull_some = take_due-some;
  pull_none = λ now p h. due_none_perm now p h;
  pull_late = late_found;
  deadline-pull = longest-take_due;
  entries-is_empty = without_timeouts-nil;
}
