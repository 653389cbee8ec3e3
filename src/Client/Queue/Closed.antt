-- ===== src/Client/Queue/Closed.antt =====
-- What is left of the messages for a client's socket when it has ended.
use pro_sa_hyper.Common.{
  pick, ℕ, ◌+◌, ◌≡◌, ◌⊎◌, refl, ap, inl, inr, List, [], ◌∷◌, ◌++◌, Option, none, some, Bool, true,
  false, arith, weight,
}
use pro_sa_hyper.Prosa.{Messages, InternalMsg}
use pro_sa_hyper.Net.{Net}
use pro_sa_hyper.Client.Socket.{Effect, Status, running, closed, failed, panicked}
use pro_sa_hyper.Client.Socket.Weights.{settled, asked}
use pro_sa_hyper.Client.Queue.{
  Turned, SocketLoop, Event, sent, admitted, taken, outside, done, aborted, Line, entering, others,
  close, after_turn, on_turn, admit, take, on_task, open_turn, closed_turn, turn, run, fresh,
}
use pro_sa_hyper.Client.Queue.Account.{sends, line_balanced}

module _ {M : Type 0} (ms : Messages M) (net : Net) (loop : SocketLoop ms net)
    (Rests : loop.State → Type 0) where
  -- What a socket's loop leaves when it ends, given what its tasks and an abort do.
  pub record EndsAtRest : Type 0 where
    pub outside-rests :
        (st : loop.State) (o : loop.Outside) (q : List (InternalMsg ms)) (ok? : Bool)
        (t : Turned ms net loop.State)
        → loop.on_outside st o q ok? ≡ some t
        → (t.status ≡ running) ⊎ Rests t.state
    pub received-rests :
        (st : loop.State) (x : InternalMsg ms) (q : List (InternalMsg ms)) (ok? : Bool)
        (t : Turned ms net loop.State)
        → loop.on_received st x q ok? ≡ some t
        → (t.status ≡ running) ⊎ Rests t.state
    pub done-rests :
        (st : loop.State) (d : loop.Done) (t : loop.State × List (Effect ms))
        → loop.on_done st d ≡ some t
        → Rests st
        → Rests t.0
    pub abort-rests : (st : loop.State) → Rests (loop.on_abort st).0

  -- An ended socket has an empty channel, and no send to it waits.
  pub record HasEnded (l : Line ms net loop) : Type 0 where
    pub rests : Rests l.state
    pub no_sending : l.sending ≡ []
    pub no_queue : l.queue ≡ []

  abbrev pub IsOver : Line ms net loop → Type 0
  IsOver l = (l.open? ≡ true) ⊎ HasEnded l

  close-HasEnded :
      (st : loop.State) (es : List (Effect ms)) (left : List (InternalMsg ms))
      → Rests st
      → HasEnded (close ms net loop st es left).line
  unfolding close
  close-HasEnded st es left r = record { rests = r; no_sending = refl; no_queue = refl }

  after_turn-IsOver :
      (l : Line ms net loop) (rest : List (InternalMsg ms)) (n : List ℕ)
      (t : Turned ms net loop.State) (s : Status net)
      → t.status ≡ s
      → l.open? ≡ true
      → (t.status ≡ running) ⊎ Rests t.state
      → IsOver (after_turn ms net loop l rest n t).line
  unfolding after_turn
  after_turn-IsOver l rest n t running e o r = rw (e, after_turn) (inl o)
  after_turn-IsOver l rest n t s e o (inl r) = rw (r, after_turn) (inl o)
  after_turn-IsOver l rest n t (closed k) e o (inr r) =
      rw (e, after_turn) (inr (close-HasEnded t.state t.effects (others ms net loop n l.sending) r))
  after_turn-IsOver l rest n t failed e o (inr r) =
      rw (e, after_turn) (inr (close-HasEnded t.state t.effects (others ms net loop n l.sending) r))
  after_turn-IsOver l rest n t panicked e o (inr r) =
      rw (e, after_turn) (inr (close-HasEnded t.state t.effects (others ms net loop n l.sending) r))

  module _ (rule : EndsAtRest) (l : Line ms net loop) where
    on_turn-IsOver :
        (rest : List (InternalMsg ms)) (n : List ℕ) (x : Option (Turned ms net loop.State))
        → l.open? ≡ true
        → ((t : Turned ms net loop.State) → x ≡ some t → (t.status ≡ running) ⊎ Rests t.state)
        → IsOver (on_turn ms net loop l rest n x).line
    unfolding on_turn
    on_turn-IsOver rest n none o r = inl o
    on_turn-IsOver rest n (some t) o r = after_turn-IsOver l rest n t t.status refl o (r t refl)

    take-IsOver :
        (q : Option (InternalMsg ms × List (InternalMsg ms))) (ok? : Bool) (n : List ℕ)
        → l.open? ≡ true
        → IsOver (take ms net loop l q ok? n).line
    unfolding take
    take-IsOver none ok? n o = inl o
    take-IsOver (some (x, rest)) ok? n o =
        on_turn-IsOver rest n _ o
          (rule.received-rests l.state x (rest ++ entering ms net loop n l.sending) ok?)

    admit-IsOver :
        (q : Option (InternalMsg ms × List (InternalMsg ms)))
        → l.open? ≡ true
        → IsOver (admit ms net loop l q).line
    unfolding admit
    admit-IsOver none o = inl o
    admit-IsOver (some (x, rest)) o = inl o

    on_task-open :
        (x : Option (loop.State × List (Effect ms)))
        → l.open? ≡ true
        → IsOver (on_task ms net loop l x).line
    unfolding on_task
    on_task-open none o = inl o
    on_task-open (some (st, es)) o = inl o

    on_task-HasEnded :
        (x : Option (loop.State × List (Effect ms)))
        → ((t : loop.State × List (Effect ms)) → x ≡ some t → Rests l.state → Rests t.0)
        → HasEnded l
        → HasEnded (on_task ms net loop l x).line
    unfolding on_task
    on_task-HasEnded none r h = h
    on_task-HasEnded (some (st, es)) r h = record {
      rests = r (st, es) refl h.rests;
      no_sending = h.no_sending;
      no_queue = h.no_queue;
    }

    open_turn-IsOver :
        (e : Event ms net loop) → l.open? ≡ true → IsOver (open_turn ms net loop l e).line
    unfolding open_turn
    open_turn-IsOver (sent x) o = inl o
    open_turn-IsOver (admitted k) o = admit-IsOver (pick k l.sending) o
    open_turn-IsOver (taken k ok? n) o = take-IsOver (pick k l.queue) ok? n o
    open_turn-IsOver (outside x ok? n) o =
        on_turn-IsOver l.queue n _ o
          (rule.outside-rests l.state x (l.queue ++ entering ms net loop n l.sending) ok?)
    open_turn-IsOver (done d) o = on_task-open _ o
    open_turn-IsOver aborted o = inr (
        close-HasEnded (loop.on_abort l.state).0 (loop.on_abort l.state).1 (l.queue ++ l.sending)
          (rule.abort-rests l.state))

    closed_turn-HasEnded :
        (e : Event ms net loop) → HasEnded l → HasEnded (closed_turn ms net loop l e).line
    unfolding closed_turn
    closed_turn-HasEnded (done d) h = on_task-HasEnded _ (rule.done-rests l.state d) h
    closed_turn-HasEnded (sent x) h = h
    closed_turn-HasEnded (admitted k) h = h
    closed_turn-HasEnded (taken k ok? n) h = h
    closed_turn-HasEnded (outside x ok? n) h = h
    closed_turn-HasEnded aborted h = h

    turn-IsOver :
        (e : Event ms net loop) (b : Bool)
        → l.open? ≡ b
        → IsOver l
        → IsOver (turn ms net loop l e).line
    unfolding turn
    turn-IsOver e true h o = simp (h, turn) (open_turn-IsOver e h)
    turn-IsOver e false h (inl r) = absurd (ground (arith))
    turn-IsOver e false h (inr r) = simp (h, turn) (inr (closed_turn-HasEnded e r))

  module _ (rule : EndsAtRest) where
    run-IsOver :
        (l : Line ms net loop) (es : List (Event ms net loop))
        → IsOver l
        → IsOver (run ms net loop l es).line
    unfolding run
    run-IsOver l [] o = o
    run-IsOver l (e ∷ es) o =
        run-IsOver (turn ms net loop l e).line es (turn-IsOver rule l e l.open? refl o)

    ended : (l : Line ms net loop) → l.open? ≡ false → IsOver l → HasEnded l
    ended l h (inl o) = absurd (ground arith)
    ended l h (inr e) = e

    -- When a socket has ended, the requests sent to it are those settled and those that its tasks hold.
    pub ended_line_settles :
        (w : ms.Sender → ℕ) (st : loop.State) (es : List (Event ms net loop))
        → (run ms net loop (fresh ms net loop st) es).line.open? ≡ false
        → Rests (run ms net loop (fresh ms net loop st) es).line.state
          × (loop.held w st + weight (sends ms net loop w) es
              ≡ weight (settled ms w) (run ms net loop (fresh ms net loop st) es).effects
                + loop.held w (run ms net loop (fresh ms net loop st) es).line.state)
    unfolding fresh
    ended_line_settles w st es h =
        let l = (run ms net loop (fresh ms net loop st) es).line in
        let e = ended l h (run-IsOver (fresh ms net loop st) es (inl refl)) in
        (
          e.rests,
          omega (
            arith,
            line_balanced ms net loop w (fresh ms net loop st) es,
            ap (weight (asked ms w)) e.no_sending,
            ap (weight (asked ms w)) e.no_queue,
          ),
        )
