-- ===== src/Client/Socket/Http1/Ledger.antt =====
-- The account of the requests that an HTTP/1.1 socket takes from its queue.
use pro_sa_hyper.Common.{
  ℕ, ◌+◌, ◌≡◌, refl, ap, Option, none, some, List, [], ◌∷◌, ◌++◌, Bool, arith, weight,
  weight-append, Option-cases, inl, inr,
}
use pro_sa_hyper.Prosa.{
  Messages, InternalMsg, request, response, error, command, config, service, shutdown,
}
use pro_sa_hyper.Http.{HttpApi}
use pro_sa_hyper.Net.{Net}
use pro_sa_hyper.Client.Socket.{
  ClientAdaptor, Effect, dropped, Setup, running, build_request, process_request, settle,
  close_socket,
}
use pro_sa_hyper.Client.Socket.Weights.{
  settled, asked, settled-close_socket, settled-drop_queue, settled-settle,
}
use pro_sa_hyper.Client.Socket.Http1.{
  Event, lost, answered, elapsed, received, State, Turn, turn, run, sending, idle, on_message,
  close,
}

module _ {M : Type 0} (ms : Messages M) (ha : HttpApi) (net : Net) (ad : ClientAdaptor ms ha net)
    (w : ms.Sender → ℕ) (su : Setup ms ha net ad) where
  -- The weight of the request in flight.
  abbrev pub in_flight : State ms ha net ad → ℕ
  in_flight none = 0
  in_flight (some (m, r)) = w (ms.sender m)

  -- The weight of the requests that an event takes from the queue, or finds there at the end.
  abbrev pub taken : Event ms ha net ad → ℕ
  taken (lost q ok?) = weight (asked ms w) q
  taken (answered r) = 0
  taken (elapsed q ok?) = weight (asked ms w) q
  taken (received shutdown q ok?) = weight (asked ms w) q
  taken (received (request m) q ok?) = w (ms.sender m)
  taken (received (response m) q ok?) = weight (asked ms w) q
  taken (received (error m) q ok?) = weight (asked ms w) q
  taken (received command q ok?) = 0
  taken (received config q ok?) = 0
  taken (received (service t) q ok?) = 0

  abbrev pub Balanced : State ms ha net ad → ℕ → Turn ms ha net ad → Type 0
  Balanced st came t = in_flight st + came ≡ weight (settled ms w) t.effects + in_flight t.state

  close-Balanced :
      (before later : List (Effect ms)) (q : List (InternalMsg ms)) (ok? : Bool)
      → weight (settled ms w) (close ms ha net ad su before q ok? later).effects
        ≡ weight (settled ms w) before + (weight (asked ms w) q + weight (settled ms w) later)
  close-Balanced before later q ok? =
      let es = (close_socket ms ha net ad su su.socket q ok?).0 in
      omega (
        arith,
        weight-append (settled ms w) before (es ++ later),
        weight-append (settled ms w) es later,
        settled-close_socket ms ha net ad w su su.socket q ok?,
      )

  build_request-Balanced :
      (d : Option M) (m : ms.RequestMsg)
      → let r = build_request ms ha net ad su.service_name su.socket.target.url d m in
        w (ms.sender m) ≡ weight (settled ms w) r.1 + in_flight r.0
  unfolding build_request
  build_request-Balanced none m = omega arith
  build_request-Balanced (some d) m = ground arith

  on_message-Balanced :
      (x : InternalMsg ms) (q : List (InternalMsg ms)) (ok? : Bool)
      → Balanced none (taken (received x q ok?)) (on_message ms ha net ad su x q ok?)
  unfolding on_message process_request
  on_message-Balanced (request m) q ok? = omega (
    arith,
    build_request-Balanced (ms.take_data m).0 (ms.take_data m).1,
    ap w (ms.sender-take_data m),
  )
  on_message-Balanced shutdown q ok? = omega (arith, close-Balanced [] [] q ok?)
  on_message-Balanced (response m) q ok? = omega (arith, settled-drop_queue ms ha net ad w q)
  on_message-Balanced (error m) q ok? = omega (arith, settled-drop_queue ms ha net ad w q)
  on_message-Balanced command q ok? = refl
  on_message-Balanced config q ok? = refl
  on_message-Balanced (service t) q ok? = refl

  pub turn-Balanced :
      (st : State ms ha net ad) (e : Event ms ha net ad) (t : Turn ms ha net ad)
      → turn ms ha net ad su st e ≡ some t
      → Balanced st (taken e) t
  unfolding turn sending idle
  turn-Balanced none (lost q ok?) t h = ground (arith, close-Balanced [] [] q ok?)
  turn-Balanced none (received x q ok?) t h = ground (arith, on_message-Balanced x q ok?)
  turn-Balanced none (answered r) t h = cc
  turn-Balanced none (elapsed q ok?) t h = cc
  turn-Balanced (some (m, r)) (lost q ok?) t h =
      ground (arith, close-Balanced [] (dropped m ∷ []) q ok?)
  turn-Balanced (some (m, r)) (answered x) t h =
      ground (arith, settled-settle ms ha net ad w su "HTTP/1" m (some x))
  turn-Balanced (some (m, r)) (elapsed q ok?) t h = ground (
    arith,
    close-Balanced (settle ms ha net ad su "HTTP/1" m none) [] q ok?,
    settled-settle ms ha net ad w su "HTTP/1" m none,
  )
  turn-Balanced (some (m, r)) (received x q ok?) t h = cc

  -- The requests that a run takes from the queue, or finds there when the loop ends.
  pub run_taken : State ms ha net ad → List (Event ms ha net ad) → ℕ
  run_taken st [] = 0
  run_taken st (e ∷ es) = elim (turn ms ha net ad su st e) [
    | none ↦ 0
    | some t ↦ taken e + elim t.status [ running ↦ run_taken t.state es | _ ↦ 0 ]
  ]

  -- Over any run of an HTTP/1.1 socket, the request in flight at the start and those taken from the
  -- queue, or left there when the loop ends, are together those answered or dropped and the one
  -- in flight at the end, each as often: the equation holds for every weight of their senders.
  pub run_balanced_http1 :
      (st : State ms ha net ad) (es : List (Event ms ha net ad)) (t : Turn ms ha net ad)
      → run ms ha net ad su st es ≡ some t
      → in_flight st + run_taken st es ≡ weight (settled ms w) t.effects + in_flight t.state
  unfolding run run_taken
  run_balanced_http1 st [] t h = ground arith
  run_balanced_http1 st (e ∷ es) t h = elim (Option-cases (turn ms ha net ad su st e)) [
    | inl x ↦ ground arith
    | inr (u, x) ↦ elim (Option-cases (run ms ha net ad su u.state es)) [
      | inl y ↦ ground (arith, turn-Balanced st e u x)
      | inr (v, y) ↦ ground (
        arith,
        turn-Balanced st e u x,
        run_balanced_http1 u.state es v y,
        weight-append (settled ms w) u.effects v.effects,
      )
    ]
  ]
