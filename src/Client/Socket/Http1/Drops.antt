-- ===== src/Client/Socket/Http1/Drops.antt =====
-- Which requests an HTTP/1.1 socket leaves without an answer.
use pro_sa_hyper.Common.{
  ℕ, ◌+◌, ◌≡◌, refl, none, some, List, [], ◌∷◌, ◌++◌, Bool, arith, weight, weight-append,
}
use pro_sa_hyper.Prosa.{
  Messages, InternalMsg, request, response, error, command, config, service, shutdown,
}
use pro_sa_hyper.Http.{HttpApi}
use pro_sa_hyper.Net.{Net}
use pro_sa_hyper.Client.Socket.{
  ClientAdaptor, Effect, dropped, Setup, close_socket, build_request, process_request, settle,
}
use pro_sa_hyper.Client.Socket.Weights.{asked}
use pro_sa_hyper.Client.Socket.Unanswered.{
  unanswered, stuck, unanswered-drop_queue, unanswered-close_socket, unanswered-settle,
}
use pro_sa_hyper.Client.Socket.Http1.{
  Event, lost, answered, elapsed, received, State, Turn, turn, sending, idle, on_message, close,
}
use pro_sa_hyper.Client.Socket.Http1.Ledger.{in_flight}

module _ {M : Type 0} (ms : Messages M) (ha : HttpApi) (net : Net) (ad : ClientAdaptor ms ha net)
    (w : ms.Sender → ℕ) (su : Setup ms ha net ad) where
  unanswered-close :
      (before later : List (Effect ms)) (q : List (InternalMsg ms)) (ok? : Bool)
      → weight (unanswered ms w) (close ms ha net ad su before q ok? later).effects
        ≡ weight (unanswered ms w) before
          + (stuck ms ha net ad w su ok? q + weight (unanswered ms w) later)
  unanswered-close before later q ok? =
      let es = (close_socket ms ha net ad su su.socket q ok?).0 in
      omega (
        arith,
        weight-append (unanswered ms w) before (es ++ later),
        weight-append (unanswered ms w) es later,
        unanswered-close_socket ms ha net ad w su su.socket q ok?,
      )

  unanswered-process_request :
      (m : ms.RequestMsg)
      → weight
          (unanswered ms w)
          (process_request ms ha net ad m su.socket.target.url su.service_name).1
        ≡ 0
  unfolding process_request build_request
  unanswered-process_request m = ground arith

  -- The requests that go unanswered at an event: the one in flight if the connection is lost, and
  -- those left in its queue when the socket closes and cannot remove it, or panics.
  abbrev pub forsaken : State ms ha net ad → Event ms ha net ad → ℕ
  forsaken st (lost q ok?) = in_flight ms ha net ad w su st + stuck ms ha net ad w su ok? q
  forsaken st (elapsed q ok?) = stuck ms ha net ad w su ok? q
  forsaken st (received shutdown q ok?) = stuck ms ha net ad w su ok? q
  forsaken st (received (request m) q ok?) = 0
  forsaken st (received (response m) q ok?) = weight (asked ms w) q
  forsaken st (received (error m) q ok?) = weight (asked ms w) q
  forsaken st (received command q ok?) = 0
  forsaken st (received config q ok?) = 0
  forsaken st (received (service t) q ok?) = 0
  forsaken st (answered r) = 0

  on_message-forsaken :
      (x : InternalMsg ms) (q : List (InternalMsg ms)) (ok? : Bool)
      → weight (unanswered ms w) (on_message ms ha net ad su x q ok?).effects
        ≡ forsaken none (received x q ok?)
  unfolding on_message
  on_message-forsaken (request m) q ok? = unanswered-process_request m
  on_message-forsaken shutdown q ok? = omega (arith, unanswered-close [] [] q ok?)
  on_message-forsaken (response m) q ok? = unanswered-drop_queue ms ha net ad w su q
  on_message-forsaken (error m) q ok? = unanswered-drop_queue ms ha net ad w su q
  on_message-forsaken command q ok? = refl
  on_message-forsaken config q ok? = refl
  on_message-forsaken (service t) q ok? = refl

  -- A turn of the HTTP/1.1 loop drops exactly the requests that `forsaken` says, each as often, for
  -- every weight of their senders: when the connection is lost the request in flight gets no
  -- answer, while those in the queue do if it can be removed; at a panic those in the queue get none.
  pub turn-unanswered :
      (st : State ms ha net ad) (e : Event ms ha net ad) (t : Turn ms ha net ad)
      → turn ms ha net ad su st e ≡ some t
      → weight (unanswered ms w) t.effects ≡ forsaken st e
  unfolding turn sending idle
  turn-unanswered none (lost q ok?) t h = ground (arith, unanswered-close [] [] q ok?)
  turn-unanswered none (received x q ok?) t h = ground (arith, on_message-forsaken x q ok?)
  turn-unanswered none (answered r) t h = cc
  turn-unanswered none (elapsed q ok?) t h = cc
  turn-unanswered (some (m, r)) (lost q ok?) t h =
      ground (arith, unanswered-close [] (dropped m ∷ []) q ok?)
  turn-unanswered (some (m, r)) (answered x) t h =
      ground (arith, unanswered-settle ms ha net ad w su "HTTP/1" m (some x))
  turn-unanswered (some (m, r)) (elapsed q ok?) t h = ground (
    arith,
    unanswered-close (settle ms ha net ad su "HTTP/1" m none) [] q ok?,
    unanswered-settle ms ha net ad w su "HTTP/1" m none,
  )
  turn-unanswered (some (m, r)) (received x q ok?) t h = cc
