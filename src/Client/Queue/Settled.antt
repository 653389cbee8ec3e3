-- ===== src/Client/Queue/Settled.antt =====
-- The sockets of either protocol with their channels, when they have ended.
use pro_sa_hyper.Common.{
  ℕ, ◌+◌, ◌≡◌, ◌⊎◌, refl, ap, inl, inr, List, [], Option, none, some, false, arith, weight,
}
use pro_sa_hyper.Prosa.{Messages}
use pro_sa_hyper.Http.{HttpApi}
use pro_sa_hyper.Net.{Net}
use pro_sa_hyper.Client.Socket.{running, ClientAdaptor, Setup}
use pro_sa_hyper.Client.Socket.Weights.{settled}
use pro_sa_hyper.Client.Socket.Http1
use pro_sa_hyper.Client.Socket.Http1.Closing.{GoesOnOrIdle, turn-GoesOnOrIdle}
use pro_sa_hyper.Client.Socket.Http1.Ledger.{in_flight}
use pro_sa_hyper.Client.Socket.Http2.Ledger.{in_tasks}
use pro_sa_hyper.Client.Queue.{Turned, Event, run, fresh}
use pro_sa_hyper.Client.Queue.Loops.{event1, turned1, drop_in_flight, loop1, loop2}
use pro_sa_hyper.Client.Queue.Account.{sends}
use pro_sa_hyper.Client.Queue.Closed.{EndsAtRest, ended_line_settles}

module _ {M : Type 0} (ms : Messages M) (ha : HttpApi) (net : Net) (ad : ClientAdaptor ms ha net)
    (su : Setup ms ha net ad) where
  -- A socket over HTTP/1.1 ends with no request in flight.
  turned1-rests :
      (o : Option (Http1.Turn ms ha net ad)) (t : Turned ms net (Http1.State ms ha net ad))
      → GoesOnOrIdle ms ha net ad su o
      → turned1 ms ha net ad su o ≡ some t
      → (t.status ≡ running) ⊎ (t.state ≡ none)
  turned1-rests none t g h = cc
  turned1-rests (some u) t (inl g) h = inl (ground arith)
  turned1-rests (some u) t (inr g) h = inr (ground arith)

  drop-rests : (st : Http1.State ms ha net ad) → (drop_in_flight ms ha net ad su st).0 ≡ none
  drop-rests none = refl
  drop-rests (some (m, r)) = refl

  loop1-EndsAtRest : EndsAtRest ms net (loop1 ms ha net ad su) (λ st. st ≡ none)
  loop1-EndsAtRest = record {
    outside-rests = λ st o q ok? t h.
        turned1-rests _ t (turn-GoesOnOrIdle ms ha net ad su st (event1 ms ha net ad su o q ok?)) h;
    received-rests = λ st x q ok? t h.
        turned1-rests _ t (turn-GoesOnOrIdle ms ha net ad su st (Http1.Event.received x q ok?)) h;
    done-rests = λ st d t h. cc;
    abort-rests = drop-rests;
  }

  loop2-EndsAtRest : EndsAtRest ms net (loop2 ms ha net ad su) (λ st. Unit {0})
  loop2-EndsAtRest = record {
    outside-rests = λ st o q ok? t h. inr tt;
    received-rests = λ st x q ok? t h. inr tt;
    done-rests = λ st d t h r. tt;
    abort-rests = λ st. tt;
  }

  -- When an HTTP/1.1 socket has ended, by whatever (a lost connection, a timeout, a shutdown, an error, a
  -- panic or an abort), the requests that were sent to it, before or after, are those answered or
  -- dropped, each as often: the equation holds for every weight of their senders.
  pub http1_line_settles :
      (w : ms.Sender → ℕ) (es : List (Event ms net (loop1 ms ha net ad su)))
      → (run ms net
          (loop1 ms ha net ad su)
          (fresh ms net (loop1 ms ha net ad su) none)
          es).line.open?
        ≡ false
      → weight (sends ms net (loop1 ms ha net ad su) w) es
        ≡ weight
            (settled ms w)
            (run ms net
              (loop1 ms ha net ad su)
              (fresh ms net (loop1 ms ha net ad su) none)
              es).effects
  http1_line_settles w es h =
      let (rests, e) =
        ended_line_settles ms net (loop1 ms ha net ad su) (λ st. st ≡ none) loop1-EndsAtRest w none
          es h in
      omega (arith, e, ap (in_flight ms ha net ad w su) rests)

  -- When an HTTP/2 socket has ended, the requests that were sent to it are those answered or dropped and
  -- those whose tasks still run, each as often.
  pub http2_line_settles :
      (w : ms.Sender → ℕ) (es : List (Event ms net (loop2 ms ha net ad su)))
      → (run ms net (loop2 ms ha net ad su) (fresh ms net (loop2 ms ha net ad su) []) es).line.open?
        ≡ false
      → weight (sends ms net (loop2 ms ha net ad su) w) es
        ≡ weight
            (settled ms w)
            (run ms net
              (loop2 ms ha net ad su)
              (fresh ms net (loop2 ms ha net ad su) [])
              es).effects
          + in_tasks ms ha net ad w su
              (run ms net
                (loop2 ms ha net ad su)
                (fresh ms net (loop2 ms ha net ad su) [])
                es).line.state
  http2_line_settles w es h =
      let (rests, e) =
        ended_line_settles ms net (loop2 ms ha net ad su) (λ st. Unit {0}) loop2-EndsAtRest w [] es
          h in
      omega (arith, e)
