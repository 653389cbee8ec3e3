-- ===== src/Client/Queue.antt =====
-- A socket of the client with its channel: `setup_socket_queue` of src/client/socket.rs makes it, the
-- loop of `spawn_http1` or of `spawn_h2` reads it, and `close_socket!` empties it.
pub mod Loops
pub mod Account
pub mod Closed
pub mod Settled
use pro_sa_hyper.Common.{
  pick, ℕ, zero, suc, ◌+◌, ◌≡◌, List, [], ◌∷◌, ◌++◌, Option, none, some, Bool, true, false,
  if◌then◌else◌, ltb, length, weight,
}
use pro_sa_hyper.Prosa.{Messages, InternalMsg, request}
use pro_sa_hyper.Net.{Net}
use pro_sa_hyper.Client.Socket.{Effect, dropped, Status, running, closed, failed, panicked}
use pro_sa_hyper.Client.Socket.Weights.{settled, asked, kept}

-- What a turn of a loop leaves.
pub record Turned {M : Type 0} (ms : Messages M) (net : Net) (State : Type 0) : Type 0 where
  pub state : State
  pub effects : List (Effect ms)
  pub status : Status net

-- A socket's loop, as its channel sees it. `Outside` is what the loop reacts to besides messages, and
-- `Done` the end of a task that the loop has started and that outlives it. The list is what the
-- channel holds where the loop ends, and the flag whether the queue can be removed.
pub record SocketLoop {M : Type 0} (ms : Messages M) (net : Net) : Type 1 where
  pub State : Type 0
  pub Outside : Type 0
  pub Done : Type 0
  pub on_outside : State → Outside → List (InternalMsg ms) → Bool → Option (Turned ms net State)
  pub on_received :
      State → InternalMsg ms → List (InternalMsg ms) → Bool → Option (Turned ms net State)
  pub on_done : State → Done → Option (State × List (Effect ms))
  -- What an abort of the socket's task leaves.
  pub on_abort : State → State × List (Effect ms)
  -- The weight of the requests that the loop and its tasks have taken and not settled.
  pub held : (ms.Sender → ℕ) → State → ℕ
  -- What comes from the channel or is held is settled, once, or held. A loop that ends settles what
  -- the channel holds; one that goes on leaves it.
  pub outside-held :
      (w : ms.Sender → ℕ) (st : State) (o : Outside) (q : List (InternalMsg ms)) (ok? : Bool)
      (t : Turned ms net State)
      → on_outside st o q ok? ≡ some t
      → held w st + weight (asked ms w) q
        ≡ weight (settled ms w) t.effects + (held w t.state + kept t.status (weight (asked ms w) q))
  pub received-held :
      (w : ms.Sender → ℕ) (st : State) (x : InternalMsg ms) (q : List (InternalMsg ms)) (ok? : Bool)
      (t : Turned ms net State)
      → on_received st x q ok? ≡ some t
      → held w st + (asked ms w x + weight (asked ms w) q)
        ≡ weight (settled ms w) t.effects + (held w t.state + kept t.status (weight (asked ms w) q))
  pub done-held :
      (w : ms.Sender → ℕ) (st : State) (d : Done) (t : State × List (Effect ms))
      → on_done st d ≡ some t
      → held w st ≡ weight (settled ms w) t.1 + held w t.0
  pub abort-held :
      (w : ms.Sender → ℕ) (st : State)
      → held w st ≡ weight (settled ms w) (on_abort st).1 + held w (on_abort st).0

module _ {M : Type 0} (ms : Messages M) (net : Net) (loop : SocketLoop ms net) where
  -- `sent` is a message that is sent to the socket, and `admitted` the end of one of the sends that
  -- wait. `taken` is the receipt of a message that the channel holds and `outside` anything else that
  -- the loop reacts to, each with whether the queue can be removed and which of the sends that wait
  -- get in while it is emptied, should the loop end. `aborted` is the end of the socket's task by the
  -- end of the processor. When a send ends and which message comes, by their numbers, is up to the
  -- channel, which is not part of this code: no order and no bound is supposed.
  pub data Event : Type 0 where
    sent : InternalMsg ms → Event
    admitted : ℕ → Event
    taken : ℕ → Bool → List ℕ → Event
    outside : loop.Outside → Bool → List ℕ → Event
    done : loop.Done → Event
    aborted : Event

  -- The messages whose sends wait for room and those in the channel.
  pub record Line : Type 0 where
    pub sending : List (InternalMsg ms)
    pub queue : List (InternalMsg ms)
    pub state : loop.State
    pub open? : Bool

  pub record Turn : Type 0 where
    pub line : Line
    pub effects : List (Effect ms)

  abbrev same : Line → Turn
  same l = record { line = l; effects = [] }

  -- The messages of the sends that get in, by their numbers among those that wait, and the others.
  pub entering : List ℕ → List (InternalMsg ms) → List (InternalMsg ms)
  unfolding pick
  entering [] q = []
  entering (k ∷ ks) q = elim (pick k q) [
    | none ↦ entering ks q
    | some (x, rest) ↦ x ∷ entering ks rest
  ]

  pub others : List ℕ → List (InternalMsg ms) → List (InternalMsg ms)
  unfolding pick
  others [] q = q
  others (k ∷ ks) q = elim (pick k q) [ none ↦ others ks q | some (x, rest) ↦ others ks rest ]

  -- What is left of messages that are dropped.
  pub drop_all : List (InternalMsg ms) → List (Effect ms)
  drop_all [] = []
  drop_all (request m ∷ q) = dropped m ∷ drop_all q
  drop_all (_ ∷ q) = drop_all q

  -- The socket's task ends, and with it the channel; a send that waits fails.
  pub close : loop.State → List (Effect ms) → List (InternalMsg ms) → Turn
  unfolding drop_all
  close st es left = record {
    line = record { sending = []; queue = []; state = st; open? = false };
    effects = es ++ drop_all left;
  }

  -- What a turn of the loop makes of the line: `rest` is in the channel, and those of
  -- the sends that wait whose numbers `n` has get in if the loop ends.
  pub after_turn : Line → List (InternalMsg ms) → List ℕ → Turned ms net loop.State → Turn
  unfolding close entering others
  after_turn l rest n t = elim t.status [
    | running ↦ record { line = record l { queue = rest; state = t.state }; effects = t.effects }
    | closed s ↦ close t.state t.effects (others n l.sending)
    | failed ↦ close t.state t.effects (others n l.sending)
    | panicked ↦ close t.state t.effects (others n l.sending)
  ]

  pub on_turn : Line → List (InternalMsg ms) → List ℕ → Option (Turned ms net loop.State) → Turn
  unfolding after_turn
  on_turn l rest n none = same l
  on_turn l rest n (some t) = after_turn l rest n t

  -- The send that goes on, if there is one, and those that still wait.
  pub admit : Line → Option (InternalMsg ms × List (InternalMsg ms)) → Turn
  admit l none = same l
  admit l (some (x, rest)) = same (record l { sending = rest; queue = l.queue ++ x ∷ [] })

  -- The message that the loop receives, if there is one, and those still in the channel.
  pub take : Line → Option (InternalMsg ms × List (InternalMsg ms)) → Bool → List ℕ → Turn
  unfolding on_turn entering
  take l none ok? n = same l
  take l (some (x, rest)) ok? n =
      on_turn l rest n (loop.on_received l.state x (rest ++ entering n l.sending) ok?)

  pub on_task : Line → Option (loop.State × List (Effect ms)) → Turn
  on_task l none = same l
  on_task l (some (st, es)) = record { line = record l { state = st }; effects = es }

  -- While the socket's task runs.
  pub open_turn : Line → Event → Turn
  unfolding on_turn admit take on_task close entering pick
  open_turn l (sent x) = same (record l { sending = l.sending ++ x ∷ [] })
  open_turn l (admitted k) = admit l (pick k l.sending)
  open_turn l (taken k ok? n) = take l (pick k l.queue) ok? n
  open_turn l (outside o ok? n) =
      on_turn l l.queue n (loop.on_outside l.state o (l.queue ++ entering n l.sending) ok?)
  open_turn l (done d) = on_task l (loop.on_done l.state d)
  open_turn l aborted = let (st, es) = loop.on_abort l.state in close st es (l.queue ++ l.sending)

  -- Once it has ended a send fails; its tasks go on.
  pub closed_turn : Line → Event → Turn
  unfolding on_task drop_all
  closed_turn l (sent x) = record { line = l; effects = drop_all (x ∷ []) }
  closed_turn l (done d) = on_task l (loop.on_done l.state d)
  closed_turn l (admitted k) = same l
  closed_turn l (taken k ok? n) = same l
  closed_turn l (outside o ok? n) = same l
  closed_turn l aborted = same l

  unfoldable pub turn : Line → Event → Turn
  unfolding open_turn closed_turn
  turn l e = elim l.open? [ true ↦ open_turn l e | false ↦ closed_turn l e ]

  unfoldable pub run : Line → List Event → Turn
  run l [] = same l
  run l (e ∷ es) =
      let t = turn l e in
      let rest = run t.line es in record rest { effects = t.effects ++ rest.effects }

  -- The channel as `setup_socket_queue` leaves it.
  unfoldable pub fresh : loop.State → Line
  fresh st = record { sending = []; queue = []; state = st; open? = true }
