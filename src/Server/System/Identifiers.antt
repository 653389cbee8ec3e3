-- ===== src/Server/System/Identifiers.antt =====
-- The identifiers under which the processor waits, in the system with its queue.
use pro_sa_hyper.Common.{
  pick, Option, none, some, ℕ, suc, ◌≤◌, ◌≡◌, refl, List, [], ◌∷◌, Bool, arith,
}
use pro_sa_hyper.Prosa.{Messages}
use pro_sa_hyper.Prosa.Pending.{PendingMsgs}
use pro_sa_hyper.Server.Proc
use pro_sa_hyper.Server.Proc.{Effect, Status, running, finished, failed, panicked, Setup, State}
use pro_sa_hyper.Server.Proc.Identifiers as ProcIdentifiers
use pro_sa_hyper.Server.Proc.Identifiers.{IsBelow, turn-IsBelow}
use pro_sa_hyper.Server.System.{
  Event, called, admitted, taken, internal, accept, expire, System, close, after_turn, admit, take,
  open_turn, closed_turn, turn,
}

module _ {M : Type 0} (ms : Messages M) (pm : PendingMsgs ms.RequestMsg) where
  pub closed_turn-same : (sys : System ms pm) (e : Event ms) → (closed_turn ms pm sys e).state ≡ sys
  unfolding closed_turn
  closed_turn-same sys (called m) = refl
  closed_turn-same sys (admitted k) = refl
  closed_turn-same sys (taken k i ok?) = refl
  closed_turn-same sys (internal m ok?) = refl
  closed_turn-same sys (accept ok?) = refl
  closed_turn-same sys (expire now) = refl

abbrev pub next_id : {M : Type 0} {ms : Messages M} → ℕ → Event ms → ℕ
next_id n (taken k i ok?) = suc i
next_id n (called m) = n
next_id n (admitted k) = n
next_id n (internal m ok?) = n
next_id n (accept ok?) = n
next_id n (expire now) = n

-- The counter that gives identifiers never goes back.
abbrev pub Ascending : {M : Type 0} {ms : Messages M} → ℕ → List (Event ms) → Type 0
Ascending n [] = Unit {0}
Ascending n (taken k i ok? ∷ es) = (n ≤ i) × Ascending (suc i) es
Ascending n (called m ∷ es) = Ascending n es
Ascending n (admitted k ∷ es) = Ascending n es
Ascending n (internal m ok? ∷ es) = Ascending n es
Ascending n (accept ok? ∷ es) = Ascending n es
Ascending n (expire now ∷ es) = Ascending n es

module _ {M : Type 0} (ms : Messages M) (pm : PendingMsgs ms.RequestMsg) (su : Setup ms pm)
    (sys : System ms pm) (n : ℕ) (b : IsBelow ms pm n sys.proc.pending) where
  -- The identifiers in use stay below the next one.
  empty-IsBelow : (k : ℕ) → IsBelow ms pm k pm.empty
  empty-IsBelow k = record {
    unused = λ i h. rw pm.entries-empty refl;
    once = λ i. rw pm.entries-empty (omega arith);
  }

  after_turn-IsBelow :
      (k : ℕ) (sending queue : List ms.RequestMsg) (t : Proc.Turn ms pm) (s : Status)
      → t.status ≡ s
      → IsBelow ms pm k t.state.pending
      → IsBelow ms pm k (after_turn ms pm sending queue t).state.proc.pending
  unfolding after_turn close
  after_turn-IsBelow k sending queue t running e h = rw (e, after_turn) h
  after_turn-IsBelow k sending queue t finished e h = rw (e, after_turn) (empty-IsBelow k)
  after_turn-IsBelow k sending queue t failed e h = rw (e, after_turn) (empty-IsBelow k)
  after_turn-IsBelow k sending queue t panicked e h = rw (e, after_turn) (empty-IsBelow k)

  loop-IsBelow :
      (queue : List ms.RequestMsg) (e : Proc.Event ms)
      → ProcIdentifiers.Ascending n (e ∷ [])
      → IsBelow ms pm
          (ProcIdentifiers.next_id n e)
          (after_turn ms pm sys.sending queue (Proc.turn ms pm su sys.proc e)).state.proc.pending
  loop-IsBelow queue e a =
      after_turn-IsBelow (ProcIdentifiers.next_id n e) sys.sending queue
        (Proc.turn ms pm su sys.proc e) _ refl (turn-IsBelow ms pm su sys.proc n b e a)

  later-IsBelow : (i : ℕ) → n ≤ i → IsBelow ms pm (suc i) sys.proc.pending
  later-IsBelow i h = record { unused = λ j k. b.unused j (omega arith); once = b.once }

  take-IsBelow :
      (q : Option (ms.RequestMsg × List ms.RequestMsg)) (i : ℕ) (ok? : Bool)
      → n ≤ i
      → IsBelow ms pm (suc i) (take ms pm su sys q i ok?).state.proc.pending
  unfolding take
  take-IsBelow none i ok? a = later-IsBelow i a
  take-IsBelow (some (m, rest)) i ok? a = loop-IsBelow rest (Proc.Event.http m i ok?) (a, tt)

  admit-IsBelow :
      (q : Option (ms.RequestMsg × List ms.RequestMsg))
      → IsBelow ms pm n (admit ms pm sys q).state.proc.pending
  unfolding admit
  admit-IsBelow none = b
  admit-IsBelow (some (m, rest)) = b

  open_turn-IsBelow :
      (e : Event ms)
      → Ascending n (e ∷ [])
      → IsBelow ms pm (next_id n e) (open_turn ms pm su sys e).state.proc.pending
  unfolding open_turn
  open_turn-IsBelow (called m) a = b
  open_turn-IsBelow (admitted k) a = admit-IsBelow (pick k sys.sending)
  open_turn-IsBelow (taken k i ok?) a = take-IsBelow (pick k sys.queue) i ok? a.0
  open_turn-IsBelow (internal m ok?) a = loop-IsBelow sys.queue (Proc.Event.internal m ok?) tt
  open_turn-IsBelow (accept ok?) a = loop-IsBelow sys.queue (Proc.Event.accept ok?) tt
  open_turn-IsBelow (expire now) a = loop-IsBelow sys.queue (Proc.Event.expire now) tt

  closed_turn-IsBelow :
      (e : Event ms)
      → Ascending n (e ∷ [])
      → IsBelow ms pm (next_id n e) (closed_turn ms pm sys e).state.proc.pending
  unfolding closed_turn
  closed_turn-IsBelow (called m) a = b
  closed_turn-IsBelow (admitted k) a = b
  closed_turn-IsBelow (taken k i ok?) a = later-IsBelow i a.0
  closed_turn-IsBelow (internal m ok?) a = b
  closed_turn-IsBelow (accept ok?) a = b
  closed_turn-IsBelow (expire now) a = b

  pub turn-IsBelow_system :
      (e : Event ms) (s : Status)
      → sys.status ≡ s
      → Ascending n (e ∷ [])
      → IsBelow ms pm (next_id n e) (turn ms pm su sys e).state.proc.pending
  unfolding turn
  turn-IsBelow_system e running h a = rw (h, turn) (open_turn-IsBelow e a)
  turn-IsBelow_system e finished h a = rw (h, turn) (closed_turn-IsBelow e a)
  turn-IsBelow_system e failed h a = rw (h, turn) (closed_turn-IsBelow e a)
  turn-IsBelow_system e panicked h a = rw (h, turn) (closed_turn-IsBelow e a)
