-- ===== src/Prosa/Pending.antt =====
-- `prosa::event::pending::PendingMsgs`, a library's collection of messages that wait for an answer,
-- as an interface. `entries` is what it holds; no law fixes the order.
pub mod Held
use pro_sa_hyper.Common.{
  ℕ, ◌≤◌, ◌≡◌, ◌≢◌, Bool, true, false, Option, none, some, List, [], ◌∷◌, Perm,
}

pub record PendingMsgs (T : Type 0) : Type 1 where
  pub Pending : Type 0
  pub empty : Pending
  -- The number after the message is its timeout, in nanoseconds.
  pub push_with_id : ℕ → T → ℕ → Pending → Pending
  pub pull_msg : ℕ → Pending → Option T × Pending
  -- What `pull` resolves to at a given time: an expired message.
  pub pull : ℕ → Pending → Option T × Pending
  pub is_empty : Pending → Bool
  pub entries : Pending → List (ℕ × T)
  -- A time at which all that it holds has expired.
  pub deadline : Pending → ℕ
  pub entries-empty : entries empty ≡ []
  pub entries-push_with_id :
      (i : ℕ) (m : T) (t : ℕ) (p : Pending)
      → (pull_msg i p).0 ≡ none
      → Perm (entries (push_with_id i m t p)) ((i, m) ∷ entries p)
  pub pull_msg_some :
      (i : ℕ) (p : Pending) (m : T)
      → (pull_msg i p).0 ≡ some m
      → Perm (entries p) ((i, m) ∷ entries (pull_msg i p).1)
  pub pull_msg_none :
      (i : ℕ) (p : Pending) → (pull_msg i p).0 ≡ none → Perm (entries p) (entries (pull_msg i p).1)
  pub pull_msg_missed :
      (i : ℕ) (p : Pending) → (pull_msg i p).0 ≡ none → (pull_msg i (pull_msg i p).1).0 ≡ none
  -- The collection is a map from identifiers to messages.
  pub pull_msg-push_with_id :
      (i : ℕ) (m : T) (t : ℕ) (p : Pending) → (pull_msg i (push_with_id i m t p)).0 ≡ some m
  pub pull_msg-push_with_id_ne :
      (i j : ℕ) (m : T) (t : ℕ) (p : Pending)
      → i ≢ j
      → (pull_msg i (push_with_id j m t p)).0 ≡ (pull_msg i p).0
  pub pull_msg_ne :
      (i j : ℕ) (p : Pending) → i ≢ j → (pull_msg i (pull_msg j p).1).0 ≡ (pull_msg i p).0
  pub pull_msg_pull_none :
      (i now : ℕ) (p : Pending)
      → (pull now p).0 ≡ none
      → (pull_msg i (pull now p).1).0 ≡ (pull_msg i p).0
  pub pull_some :
      (now : ℕ) (p : Pending) (m : T)
      → (pull now p).0 ≡ some m
      → (i : ℕ) × Perm (entries p) ((i, m) ∷ entries (pull now p).1)
        × ((pull_msg i p).0 ≡ some m)
        × ((j : ℕ) → j ≢ i → (pull_msg j (pull now p).1).0 ≡ (pull_msg j p).0)
  pub pull_none :
      (now : ℕ) (p : Pending) → (pull now p).0 ≡ none → Perm (entries p) (entries (pull now p).1)
  -- Once all has expired, `pull` gives what there is; and nothing that stays gets more time.
  pub pull_late :
      (now : ℕ) (p : Pending) → is_empty p ≡ false → deadline p ≤ now → (pull now p).0 ≢ none
  pub deadline-pull : (now : ℕ) (p : Pending) → deadline (pull now p).1 ≤ deadline p
  pub entries-is_empty : (p : Pending) → is_empty p ≡ true → entries p ≡ []
