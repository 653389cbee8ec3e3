-- ===== src/Client/Queue/Account.antt =====
-- The requests that are sent to a socket of the client, over runs of it with its channel.
use pro_sa_hyper.Common.{
  Option-cases, inl, inr, weight-pick, pick, ℕ, ◌+◌, ◌≡◌, refl, List, [], ◌∷◌, ◌++◌, Option, none,
  some, Bool, true, false, arith, weight, weight-append,
}
use pro_sa_hyper.Prosa.{
  Messages, InternalMsg, request, response, error, command, config, service, shutdown,
}
use pro_sa_hyper.Net.{Net}
use pro_sa_hyper.Client.Socket.{Effect, Status, running, closed, failed, panicked}
use pro_sa_hyper.Client.Socket.Weights.{settled, asked, kept}
use pro_sa_hyper.Client.Queue.{
  Turned, SocketLoop, Event, sent, admitted, taken, outside, done, aborted, Line, Turn, entering,
  others, drop_all, close, after_turn, on_turn, admit, take, on_task, open_turn, closed_turn, turn,
  run,
}

module _ {M : Type 0} (ms : Messages M) (net : Net) (loop : SocketLoop ms net)
    (w : ms.Sender → ℕ) where
  -- The weight of the requests that are sent and not settled: those whose sends wait, those in the
  -- channel, and those that the loop and its tasks hold.
  abbrev pub outstanding : Line ms net loop → ℕ
  outstanding l =
      weight (asked ms w) l.sending + (weight (asked ms w) l.queue + loop.held w l.state)

  -- The weight of the request that an event sends.
  abbrev pub sends : Event ms net loop → ℕ
  sends (sent x) = asked ms w x
  sends (admitted k) = 0
  sends (taken k ok? n) = 0
  sends (outside o ok? n) = 0
  sends (done d) = 0
  sends aborted = 0

  abbrev pub Balanced : Line ms net loop → ℕ → Turn ms net loop → Type 0
  Balanced l came t = outstanding l + came ≡ weight (settled ms w) t.effects + outstanding t.line

  entering-others :
      (n : List ℕ) (q : List (InternalMsg ms))
      → weight (asked ms w) (entering ms net loop n q)
          + weight (asked ms w) (others ms net loop n q)
        ≡ weight (asked ms w) q
  unfolding entering others
  entering-others [] q = omega arith
  entering-others (k ∷ ks) q = elim (Option-cases (pick k q)) [
    | inl e ↦ rw (e, entering, others) (entering-others ks q)
    | inr ((x, rest), e) ↦
        rw (e, entering, others)
          (omega (arith, entering-others ks rest, weight-pick (asked ms w) k q rest x e))
  ]

  settled-drop_all :
      (q : List (InternalMsg ms))
      → weight (settled ms w) (drop_all ms net loop q) ≡ weight (asked ms w) q
  unfolding drop_all
  settled-drop_all [] = refl
  settled-drop_all (request m ∷ q) = omega (arith, settled-drop_all q)
  settled-drop_all (response m ∷ q) = omega (arith, settled-drop_all q)
  settled-drop_all (error m ∷ q) = omega (arith, settled-drop_all q)
  settled-drop_all (command ∷ q) = omega (arith, settled-drop_all q)
  settled-drop_all (config ∷ q) = omega (arith, settled-drop_all q)
  settled-drop_all (service t ∷ q) = omega (arith, settled-drop_all q)
  settled-drop_all (shutdown ∷ q) = omega (arith, settled-drop_all q)

  settled-close :
      (st : loop.State) (es : List (Effect ms)) (left : List (InternalMsg ms))
      → weight (settled ms w) (close ms net loop st es left).effects
          + outstanding (close ms net loop st es left).line
        ≡ weight (settled ms w) es + (weight (asked ms w) left + loop.held w st)
  unfolding close
  settled-close st es left =
      omega
        (arith, weight-append (settled ms w) es (drop_all ms net loop left), settled-drop_all left)

  -- A turn of the loop settles or leaves what it had, what the channel holds and what waits.
  after_turn-settles :
      (l : Line ms net loop) (rest : List (InternalMsg ms)) (n : List ℕ)
      (t : Turned ms net loop.State) (s : Status net)
      → t.status ≡ s
      → weight (settled ms w) (after_turn ms net loop l rest n t).effects
          + outstanding (after_turn ms net loop l rest n t).line
          + weight (asked ms w) (entering ms net loop n l.sending)
        ≡ weight (settled ms w) t.effects
          + (loop.held w t.state
              + (kept s (weight (asked ms w) (rest ++ entering ms net loop n l.sending))
                  + weight (asked ms w) l.sending))
  unfolding after_turn
  after_turn-settles l rest n t running e =
      rw (e, after_turn)
        (omega (arith, weight-append (asked ms w) rest (entering ms net loop n l.sending)))
  after_turn-settles l rest n t (closed k) e =
      rw (e, after_turn)
        (omega (
          arith,
          settled-close t.state t.effects (others ms net loop n l.sending),
          entering-others n l.sending,
          weight-append (asked ms w) rest (entering ms net loop n l.sending),
        ))
  after_turn-settles l rest n t failed e =
      rw (e, after_turn)
        (omega (
          arith,
          settled-close t.state t.effects (others ms net loop n l.sending),
          entering-others n l.sending,
          weight-append (asked ms w) rest (entering ms net loop n l.sending),
        ))
  after_turn-settles l rest n t panicked e =
      rw (e, after_turn)
        (omega (
          arith,
          settled-close t.state t.effects (others ms net loop n l.sending),
          entering-others n l.sending,
          weight-append (asked ms w) rest (entering ms net loop n l.sending),
        ))

  module _ (l : Line ms net loop) where
    -- A turn of the loop that takes requests of the given weight from the channel.
    on_turn-Balanced :
        (rest : List (InternalMsg ms)) (n : List ℕ) (o : Option (Turned ms net loop.State))
        (came : ℕ)
        → weight (asked ms w) l.queue ≡ came + weight (asked ms w) rest
        → ((t : Turned ms net loop.State)
            → o ≡ some t
            → loop.held w l.state
                + (came + weight (asked ms w) (rest ++ entering ms net loop n l.sending))
              ≡ weight (settled ms w) t.effects
                + (loop.held w t.state
                    + kept t.status
                        (weight (asked ms w) (rest ++ entering ms net loop n l.sending))))
        → Balanced l 0 (on_turn ms net loop l rest n o)
    unfolding on_turn
    on_turn-Balanced rest n none came e h = omega arith
    on_turn-Balanced rest n (some t) came e h = omega (
      arith,
      e,
      h t refl,
      after_turn-settles l rest n t t.status refl,
      weight-append (asked ms w) rest (entering ms net loop n l.sending),
    )

    take-Balanced :
        (k : ℕ) (q : Option (InternalMsg ms × List (InternalMsg ms))) (ok? : Bool) (n : List ℕ)
        → pick k l.queue ≡ q
        → Balanced l 0 (take ms net loop l q ok? n)
    unfolding take
    take-Balanced k none ok? n e = omega arith
    take-Balanced k (some (x, rest)) ok? n e =
        on_turn-Balanced rest n _ (asked ms w x) (weight-pick (asked ms w) k l.queue rest x e)
          (λ t. loop.received-held w l.state x (rest ++ entering ms net loop n l.sending) ok? t)

    admit-Balanced :
        (k : ℕ) (q : Option (InternalMsg ms × List (InternalMsg ms)))
        → pick k l.sending ≡ q
        → Balanced l 0 (admit ms net loop l q)
    unfolding admit
    admit-Balanced k none e = omega arith
    admit-Balanced k (some (x, rest)) e = omega (
      arith,
      weight-pick (asked ms w) k l.sending rest x e,
      weight-append (asked ms w) l.queue (x ∷ []),
    )

    on_task-Balanced :
        (o : Option (loop.State × List (Effect ms)))
        → ((t : loop.State × List (Effect ms))
            → o ≡ some t
            → loop.held w l.state ≡ weight (settled ms w) t.1 + loop.held w t.0)
        → Balanced l 0 (on_task ms net loop l o)
    unfolding on_task
    on_task-Balanced none h = omega arith
    on_task-Balanced (some (st, es)) h = omega (arith, h (st, es) refl)

    open_turn-Balanced : (e : Event ms net loop) → Balanced l (sends e) (open_turn ms net loop l e)
    unfolding open_turn
    open_turn-Balanced (sent x) = omega (arith, weight-append (asked ms w) l.sending (x ∷ []))
    open_turn-Balanced (admitted k) = admit-Balanced k (pick k l.sending) refl
    open_turn-Balanced (taken k ok? n) = take-Balanced k (pick k l.queue) ok? n refl
    open_turn-Balanced (outside o ok? n) =
        on_turn-Balanced l.queue n _ 0 (omega arith)
          (λ (t : Turned ms net loop.State)
              (h : loop.on_outside l.state o (l.queue ++ entering ms net loop n l.sending) ok?
                ≡ some t).
            omega (
              arith,
              loop.outside-held w l.state o (l.queue ++ entering ms net loop n l.sending) ok? t h,
            ))
    open_turn-Balanced (done d) =
        on_task-Balanced (loop.on_done l.state d) (λ t. loop.done-held w l.state d t)
    open_turn-Balanced aborted = omega (
      arith,
      loop.abort-held w l.state,
      settled-close (loop.on_abort l.state).0 (loop.on_abort l.state).1 (l.queue ++ l.sending),
      weight-append (asked ms w) l.queue l.sending,
    )

    closed_turn-Balanced :
        (e : Event ms net loop) → Balanced l (sends e) (closed_turn ms net loop l e)
    unfolding closed_turn
    closed_turn-Balanced (sent x) = omega (arith, settled-drop_all (x ∷ []))
    closed_turn-Balanced (done d) =
        on_task-Balanced (loop.on_done l.state d) (λ t. loop.done-held w l.state d t)
    closed_turn-Balanced (admitted k) = omega arith
    closed_turn-Balanced (taken k ok? n) = omega arith
    closed_turn-Balanced (outside o ok? n) = omega arith
    closed_turn-Balanced aborted = omega arith

    turn-Balanced :
        (e : Event ms net loop) (b : Bool)
        → l.open? ≡ b
        → Balanced l (sends e) (turn ms net loop l e)
    unfolding turn
    turn-Balanced e true h = simp (h, turn) (open_turn-Balanced e)
    turn-Balanced e false h = simp (h, turn) (closed_turn-Balanced e)

  -- Over any run of a socket with its channel, the requests that are sent to it and not settled at the
  -- start and those sent are together those answered or dropped and those not settled at the end, each
  -- as often: the equation holds for every weight of their senders. So it is for a socket of either
  -- protocol, whatever it closes by.
  pub line_balanced :
      (l : Line ms net loop) (es : List (Event ms net loop))
      → outstanding l + weight sends es
        ≡ weight (settled ms w) (run ms net loop l es).effects
          + outstanding (run ms net loop l es).line
  unfolding run
  line_balanced l [] = omega arith
  line_balanced l (e ∷ es) =
      let t = turn ms net loop l e in
      omega (
        arith,
        turn-Balanced l e l.open? refl,
        line_balanced t.line es,
        weight-append (settled ms w) t.effects (run ms net loop t.line es).effects,
      )
