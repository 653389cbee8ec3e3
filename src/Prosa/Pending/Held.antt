-- ===== src/Prosa/Pending/Held.antt =====
-- The weight of what the collection of pending messages holds, before and after each operation.
use pro_sa_hyper.Common.{
  ℕ, ◌+◌, ◌≤◌, ◌≡◌, inl, inr, Option, none, some, arith, weight, weight-perm, Option-cases,
  if◌then◌else◌, ◌==◌,
}
use pro_sa_hyper.Prosa.Pending.{PendingMsgs}

abbrev pub weight_at : {T : Type 0} → (ℕ × T → ℕ) → ℕ → Option T → ℕ
weight_at f i none = 0
weight_at f i (some m) = f (i, m)

module _ {T : Type 0} (pm : PendingMsgs T) where
  open pm use {Pending, push_with_id, pull_msg, pull, is_empty, entries}

  pub weight-push_with_id :
      (f : ℕ × T → ℕ) (i : ℕ) (m : T) (t : ℕ) (p : Pending)
      → (pull_msg i p).0 ≡ none
      → weight f (entries (push_with_id i m t p)) ≡ f (i, m) + weight f (entries p)
  weight-push_with_id f i m t p h = weight-perm f (pm.entries-push_with_id i m t p h)

  pub weight-pull_msg :
      (f : ℕ × T → ℕ) (i : ℕ) (p : Pending)
      → weight f (entries p) ≡ weight_at f i (pull_msg i p).0 + weight f (entries (pull_msg i p).1)
  weight-pull_msg f i p = elim (Option-cases (pull_msg i p).0) [
    | inl e ↦ rw e (omega (arith, weight-perm f (pm.pull_msg_none i p e)))
    | inr (m, e) ↦ rw e (weight-perm f (pm.pull_msg_some i p m e))
  ]

  pub weight-pull :
      (f : T → ℕ) (now : ℕ) (p : Pending)
      → weight (λ e. f e.1) (entries p)
        ≡ weight_at (λ e. f e.1) 0 (pull now p).0 + weight (λ e. f e.1) (entries (pull now p).1)
  weight-pull f now p = elim (Option-cases (pull now p).0) [
    | inl e ↦ rw e (omega (arith, weight-perm (λ e. f e.1) (pm.pull_none now p e)))
    | inr (m, e) ↦ rw e (weight-perm (λ e. f e.1) (pm.pull_some now p m e).1)
  ]

  pub weight-pull-le :
      (f : ℕ × T → ℕ) (now : ℕ) (p : Pending)
      → weight f (entries (pull now p).1) ≤ weight f (entries p)
  weight-pull-le f now p = elim (Option-cases (pull now p).0) [
    | inl e ↦ omega (arith, weight-perm f (pm.pull_none now p e))
    | inr (m, e) ↦ omega (arith, weight-perm f (pm.pull_some now p m e).1)
  ]

  -- How often an identifier is in use.
  abbrev pub uses : ℕ → Pending → ℕ
  uses i p = weight (λ e. if e.0 == i then 1 else 0) (entries p)

  pub pull_msg_unused : (i : ℕ) (p : Pending) → uses i p ≡ 0 → (pull_msg i p).0 ≡ none
  pull_msg_unused i p h = elim (Option-cases (pull_msg i p).0) [
    | inl e ↦ e
    | inr (m, e) ↦
        absurd
          (ground (arith, weight-perm (λ e. if e.0 == i then 1 else 0) (pm.pull_msg_some i p m e)))
  ]

  -- In a collection that uses an identifier at most once, a message is found under it only once.
  pub pull_msg_twice : (i : ℕ) (p : Pending) → uses i p ≤ 1 → (pull_msg i (pull_msg i p).1).0 ≡ none
  pull_msg_twice i p once = elim (Option-cases (pull_msg i p).0) [
    | inl e ↦ pm.pull_msg_missed i p e
    | inr (m, e) ↦ pull_msg_unused i (pull_msg i p).1 (
        ground
          (arith, once, weight-perm (λ e. if e.0 == i then 1 else 0) (pm.pull_msg_some i p m e)))
  ]

  -- A message that expired is found under its identifier no more.
  pub pull_msg_expired :
      (now : ℕ) (p : Pending) (m : T) (due : (pull now p).0 ≡ some m)
      → uses (pm.pull_some now p m due).0 p ≤ 1
      → (pull_msg (pm.pull_some now p m due).0 (pull now p).1).0 ≡ none
  pull_msg_expired now p m due once =
      let (i, perm, found, rest) = pm.pull_some now p m due in
      pull_msg_unused i (pull now p).1
        (ground (arith, once, weight-perm (λ e. if e.0 == i then 1 else 0) perm))
