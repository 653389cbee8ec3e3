-- ===== src/Client/Socket/Http2/Ledger.antt =====
-- The account of the requests that an HTTP/2 socket takes from its queue.
use pro_sa_hyper.Common.{
  pick, weight-pick, ℕ, ◌+◌, ◌≡◌, ap, Option, none, some, List, [], ◌∷◌, Bool, true, Result, arith,
  weight, weight-append, Option-cases, inl, inr,
}
use pro_sa_hyper.Prosa.{
  Messages, InternalMsg, request, response, error, command, config, service, shutdown,
}
use pro_sa_hyper.Http.{HttpApi}
use pro_sa_hyper.Net.{Net}
use pro_sa_hyper.Client.Socket.{ClientAdaptor, Setup, running}
use pro_sa_hyper.Client.Socket.Weights.{
  settled, asked, settled-close_socket, settled-drop_queue, settled-settle,
}
use pro_sa_hyper.Client.Socket.Http2.{
  Event, lost, received, finished, State, Turn, turn, run, on_message, start_task, run_task, close,
}

module _ {M : Type 0} (ms : Messages M) (ha : HttpApi) (net : Net) (ad : ClientAdaptor ms ha net)
    (w : ms.Sender → ℕ) (su : Setup ms ha net ad) where
  -- The weight of the requests whose tasks run.
  abbrev pub in_tasks : State ms ha net ad → ℕ
  in_tasks st = weight (λ t. w (ms.sender t.0)) st

  -- The weight of the requests that an event takes from the queue, or finds there at the end.
  abbrev pub taken : Event ms ha net ad → ℕ
  taken (lost q ok?) = weight (asked ms w) q
  taken (finished n outcome) = 0
  taken (received shutdown q ok?) = weight (asked ms w) q
  taken (received (request m) q ok?) = w (ms.sender m)
  taken (received (response m) q ok?) = weight (asked ms w) q
  taken (received (error m) q ok?) = weight (asked ms w) q
  taken (received command q ok?) = 0
  taken (received config q ok?) = 0
  taken (received (service t) q ok?) = 0

  abbrev pub Balanced : State ms ha net ad → ℕ → Turn ms ha net ad → Type 0
  Balanced st came t = in_tasks st + came ≡ weight (settled ms w) t.effects + in_tasks t.state

  pub settled-run_task :
      (m : ms.RequestMsg) (d : M) (outcome : Option (Result ha.Response ha.HyperCrateError))
      → weight (settled ms w) (run_task ms ha net ad su m d outcome) ≡ w (ms.sender m)
  unfolding run_task
  settled-run_task m d outcome = ground (arith, settled-settle ms ha net ad w su "HTTP/2" m outcome)

  close-Balanced :
      (st : State ms ha net ad) (q : List (InternalMsg ms)) (ok? : Bool)
      → Balanced st (weight (asked ms w) q) (close ms ha net ad su st q ok?)
  close-Balanced st q ok? =
      omega
        (arith, settled-close_socket ms ha net ad w su (record su.socket { is_http2 = true }) q ok?)

  start_task-Balanced :
      (st : State ms ha net ad) (d : Option M) (m : ms.RequestMsg)
      → Balanced st (w (ms.sender m)) (start_task ms ha net ad su st d m)
  unfolding start_task
  start_task-Balanced st none m = omega arith
  start_task-Balanced st (some d) m = omega arith

  on_message-Balanced :
      (st : State ms ha net ad) (x : InternalMsg ms) (q : List (InternalMsg ms)) (ok? : Bool)
      → Balanced st (taken (received x q ok?)) (on_message ms ha net ad su st x q ok?)
  unfolding on_message
  on_message-Balanced st (request m) q ok? = omega (
    arith,
    start_task-Balanced st (ms.take_data m).0 (ms.take_data m).1,
    ap w (ms.sender-take_data m),
  )
  on_message-Balanced st shutdown q ok? = close-Balanced st q ok?
  on_message-Balanced st (response m) q ok? = omega (arith, settled-drop_queue ms ha net ad w q)
  on_message-Balanced st (error m) q ok? = omega (arith, settled-drop_queue ms ha net ad w q)
  on_message-Balanced st command q ok? = omega arith
  on_message-Balanced st config q ok? = omega arith
  on_message-Balanced st (service t) q ok? = omega arith

  pub turn-Balanced :
      (st : State ms ha net ad) (e : Event ms ha net ad) (t : Turn ms ha net ad)
      → turn ms ha net ad su st e ≡ some t
      → Balanced st (taken e) t
  unfolding turn
  turn-Balanced st (lost q ok?) t h = ground (arith, close-Balanced st q ok?)
  turn-Balanced st (received x q ok?) t h = ground (arith, on_message-Balanced st x q ok?)
  turn-Balanced st (finished n outcome) t h = elim (Option-cases (pick n st)) [
    | inl x ↦ ground arith
    | inr (((m, d), rest), x) ↦ ground (
      arith,
      weight-pick (λ t. w (ms.sender t.0)) n st rest (m, d) x,
      settled-run_task m d outcome,
    )
  ]

  -- The requests that a run takes from the queue, or finds there when the loop ends.
  pub run_taken : State ms ha net ad → List (Event ms ha net ad) → ℕ
  run_taken st [] = 0
  run_taken st (e ∷ es) = elim (turn ms ha net ad su st e) [
    | none ↦ 0
    | some t ↦ taken e + elim t.status [ running ↦ run_taken t.state es | _ ↦ 0 ]
  ]

  -- Over any run of an HTTP/2 socket, the requests whose tasks run at the start and those taken from
  -- the queue, or left there when the loop ends, are together those answered or dropped and those
  -- whose tasks run at the end, each as often: the equation holds for every weight of their senders.
  pub run_balanced_http2 :
      (st : State ms ha net ad) (es : List (Event ms ha net ad)) (t : Turn ms ha net ad)
      → run ms ha net ad su st es ≡ some t
      → in_tasks st + run_taken st es ≡ weight (settled ms w) t.effects + in_tasks t.state
  unfolding run run_taken
  run_balanced_http2 st [] t h = ground arith
  run_balanced_http2 st (e ∷ es) t h = elim (Option-cases (turn ms ha net ad su st e)) [
    | inl x ↦ ground arith
    | inr (u, x) ↦ elim (Option-cases (run ms ha net ad su u.state es)) [
      | inl y ↦ ground (arith, turn-Balanced st e u x)
      | inr (v, y) ↦ ground (
        arith,
        turn-Balanced st e u x,
        run_balanced_http2 u.state es v y,
        weight-append (settled ms w) u.effects v.effects,
      )
    ]
  ]
