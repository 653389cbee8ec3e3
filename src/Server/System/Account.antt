-- ===== src/Server/System/Account.antt =====
-- What becomes of the calls of the server's service.
use pro_sa_hyper.Common.{
  pick, weight-pick, Option, none, some, ℕ, ◌+◌, ◌≤◌, ◌≡◌, refl, List, [], ◌∷◌, ◌++◌, Bool, arith,
  weight, weight-append,
}
use pro_sa_hyper.Prosa.{Messages}
use pro_sa_hyper.Prosa.Pending.{PendingMsgs}
use pro_sa_hyper.Server.Proc
use pro_sa_hyper.Server.Proc.{Effect, Status, running, finished, failed, panicked, Setup, State}
use pro_sa_hyper.Server.Proc.Identifiers as ProcIdentifiers
use pro_sa_hyper.Server.Proc.Identifiers.{IsBelow, turn-IsBelow}
use pro_sa_hyper.Server.Proc.Ledger.{arrived, settled, waiting, turn-Balanced}
use pro_sa_hyper.Server.System.Identifiers.{Ascending}
use pro_sa_hyper.Server.System.{
  Event, called, admitted, taken, internal, accept, expire, System, Turn, drop_all, drop_pending,
  close, after_turn, admit, take, open_turn, closed_turn, turn,
}

module _ {M : Type 0} (ms : Messages M) (pm : PendingMsgs ms.RequestMsg) (su : Setup ms pm)
    (w : ms.Sender → ℕ) where
  abbrev pub request_weight : ms.RequestMsg → ℕ
  request_weight m = w (ms.sender m)

  -- The weight of the calls that have no answer: those whose sends wait, those in the queue, and those
  -- that are pending in the processor.
  abbrev pub outstanding : System ms pm → ℕ
  outstanding sys =
      weight request_weight sys.sending
      + (weight request_weight sys.queue + waiting ms pm w sys.proc)

  -- The weight of the call that an event makes.
  abbrev pub calls : Event ms → ℕ
  calls (called m) = w (ms.sender m)
  calls (admitted k) = 0
  calls (taken k i ok?) = 0
  calls (internal m ok?) = 0
  calls (accept ok?) = 0
  calls (expire now) = 0

  settled-drop_all :
      (q : List ms.RequestMsg) → weight (settled ms w) (drop_all ms pm q) ≡ weight request_weight q
  unfolding drop_all
  settled-drop_all [] = refl
  settled-drop_all (m ∷ q) = omega (arith, settled-drop_all q)

  settled-drop_pending :
      (p : List (ℕ × ms.RequestMsg))
      → weight (settled ms w) (drop_pending ms pm p) ≡ weight (λ e. w (ms.sender e.1)) p
  unfolding drop_pending
  settled-drop_pending [] = refl
  settled-drop_pending ((i, m) ∷ p) = omega (arith, settled-drop_pending p)

  -- Nothing waits, as after the end of the loop.
  pub record IsEmpty (sys : System ms pm) : Type 0 where
    pub sending : sys.sending ≡ []
    pub queue : sys.queue ≡ []
    pub pending : sys.proc.pending ≡ pm.empty

  abbrev pub Balanced : System ms pm → ℕ → Turn ms pm → Type 0
  Balanced sys came t =
      outstanding sys + came ≡ weight (settled ms w) t.effects + outstanding t.state

  pub close-settles :
      (sending queue : List ms.RequestMsg) (t : Proc.Turn ms pm)
      → weight (settled ms w) (close ms pm sending queue t).effects
        ≡ weight (settled ms w) t.effects
          + (waiting ms pm w t.state
              + (weight request_weight queue + weight request_weight sending))
  unfolding close
  close-settles sending queue t = omega (
    arith,
    weight-append (settled ms w) t.effects (
        drop_pending ms pm (pm.entries t.state.pending)
        ++ (drop_all ms pm queue ++ drop_all ms pm sending)),
    weight-append (settled ms w) (drop_pending ms pm (pm.entries t.state.pending))
        (drop_all ms pm queue ++ drop_all ms pm sending),
    weight-append (settled ms w) (drop_all ms pm queue) (drop_all ms pm sending),
    settled-drop_pending (pm.entries t.state.pending),
    settled-drop_all queue,
    settled-drop_all sending,
  )

  pub close-empty :
      (sending queue : List ms.RequestMsg) (t : Proc.Turn ms pm)
      → outstanding (close ms pm sending queue t).state ≡ 0
  unfolding close
  close-empty sending queue t = rw (pm.entries-empty) refl

  after_turn-settles :
      (sending queue : List ms.RequestMsg) (t : Proc.Turn ms pm) (s : Status)
      → t.status ≡ s
      → weight (settled ms w) (after_turn ms pm sending queue t).effects
          + outstanding (after_turn ms pm sending queue t).state
        ≡ weight (settled ms w) t.effects
          + (waiting ms pm w t.state
              + (weight request_weight queue + weight request_weight sending))
  unfolding after_turn
  after_turn-settles sending queue t running e = rw (e, after_turn) (omega arith)
  after_turn-settles sending queue t finished e =
      rw (e, after_turn) (omega (arith, close-settles sending queue t, close-empty sending queue t))
  after_turn-settles sending queue t failed e =
      rw (e, after_turn) (omega (arith, close-settles sending queue t, close-empty sending queue t))
  after_turn-settles sending queue t panicked e =
      rw (e, after_turn) (omega (arith, close-settles sending queue t, close-empty sending queue t))

  module _ (sys : System ms pm) (n : ℕ) (b : IsBelow ms pm n sys.proc.pending) where
    loop-Balanced :
        (queue : List ms.RequestMsg) (e : Proc.Event ms)
        → ProcIdentifiers.Ascending n (e ∷ [])
        → weight request_weight queue + arrived ms w e ≡ weight request_weight sys.queue
        → Balanced sys 0 (after_turn ms pm sys.sending queue (Proc.turn ms pm su sys.proc e))
    loop-Balanced queue e a h = omega (
      arith,
      turn-Balanced ms pm w su sys.proc n e b a,
      after_turn-settles sys.sending queue (Proc.turn ms pm su sys.proc e) _ refl,
    )

    admit-Balanced :
        (k : ℕ) (q : Option (ms.RequestMsg × List ms.RequestMsg))
        → pick k sys.sending ≡ q
        → Balanced sys 0 (admit ms pm sys q)
    unfolding admit
    admit-Balanced k none e = omega arith
    admit-Balanced k (some (m, rest)) e = omega (
      arith,
      weight-pick request_weight k sys.sending rest m e,
      weight-append request_weight sys.queue (m ∷ []),
    )

    take-Balanced :
        (k : ℕ) (q : Option (ms.RequestMsg × List ms.RequestMsg)) (i : ℕ) (ok? : Bool)
        → pick k sys.queue ≡ q
        → n ≤ i
        → Balanced sys 0 (take ms pm su sys q i ok?)
    unfolding take
    take-Balanced k none i ok? e a = omega arith
    take-Balanced k (some (m, rest)) i ok? e a =
        loop-Balanced rest (Proc.Event.http m i ok?) (a, tt)
          (omega (arith, weight-pick request_weight k sys.queue rest m e))

    open_turn-Balanced :
        (e : Event ms) → Ascending n (e ∷ []) → Balanced sys (calls e) (open_turn ms pm su sys e)
    unfolding open_turn
    open_turn-Balanced (called m) a =
        omega (arith, weight-append request_weight sys.sending (m ∷ []))
    open_turn-Balanced (admitted k) a = admit-Balanced k (pick k sys.sending) refl
    open_turn-Balanced (taken k i ok?) a = take-Balanced k (pick k sys.queue) i ok? refl a.0
    open_turn-Balanced (internal m ok?) a =
        loop-Balanced sys.queue (Proc.Event.internal m ok?) tt (omega arith)
    open_turn-Balanced (accept ok?) a =
        loop-Balanced sys.queue (Proc.Event.accept ok?) tt (omega arith)
    open_turn-Balanced (expire now) a =
        loop-Balanced sys.queue (Proc.Event.expire now) tt (omega arith)

    closed_turn-Balanced : (e : Event ms) → Balanced sys (calls e) (closed_turn ms pm sys e)
    unfolding closed_turn
    closed_turn-Balanced (called m) = omega arith
    closed_turn-Balanced (admitted k) = omega arith
    closed_turn-Balanced (taken k i ok?) = omega arith
    closed_turn-Balanced (internal m ok?) = omega arith
    closed_turn-Balanced (accept ok?) = omega arith
    closed_turn-Balanced (expire now) = omega arith

    pub turn-Balanced_system :
        (e : Event ms) (s : Status)
        → sys.status ≡ s
        → Ascending n (e ∷ [])
        → Balanced sys (calls e) (turn ms pm su sys e)
    unfolding turn
    turn-Balanced_system e running h a = rw (h, turn) (open_turn-Balanced e a)
    turn-Balanced_system e finished h a = rw (h, turn) (closed_turn-Balanced e)
    turn-Balanced_system e failed h a = rw (h, turn) (closed_turn-Balanced e)
    turn-Balanced_system e panicked h a = rw (h, turn) (closed_turn-Balanced e)
