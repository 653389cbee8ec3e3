-- ===== src/Client/Socket/Exchange.antt =====
-- One request through a socket of either protocol.
use pro_sa_hyper.Common.{
  Bool, ◌≡◌, Option, none, some, List, [], ◌∷◌, ◌++◌, true, Result, ok, arith, length,
}
use pro_sa_hyper.Prosa.{Messages, request}
use pro_sa_hyper.Http.{HttpApi}
use pro_sa_hyper.Net.{Net}
use pro_sa_hyper.Client.Socket.{
  ClientAdaptor, Effect, returned, returned_error, dropped, recorded, queue_added, service_added,
  queue_removed, Setup,
}
use pro_sa_hyper.Client.Socket.Http1
use pro_sa_hyper.Client.Socket.Http2

-- The answers among the effects.
abbrev pub answers : {M : Type 0} {ms : Messages M} → List (Effect ms) → List (Effect ms)
answers [] = []
answers (returned m d ∷ es) = returned m d ∷ answers es
answers (returned_error m d e ∷ es) = returned_error m d e ∷ answers es
answers (dropped m ∷ es) = answers es
answers (recorded c v ∷ es) = answers es
answers (queue_added fd ∷ es) = answers es
answers (service_added s fd ∷ es) = answers es
answers (queue_removed fd ∷ es) = answers es

module _ {M : Type 0} (ms : Messages M) (ha : HttpApi) (net : Net) (ad : ClientAdaptor ms ha net)
    (su : Setup ms ha net ad) where
  abbrev pub Outcome : Type 0
  Outcome = Option (Result ha.Response ha.HyperCrateError)

  -- The effects of a run, if there is one.
  abbrev pub effects1 : Option (Http1.Turn ms ha net ad) → List (Effect ms)
  effects1 none = []
  effects1 (some t) = t.effects

  abbrev effects2 : Option (Http2.Turn ms ha net ad) → List (Effect ms)
  effects2 none = []
  effects2 (some t) = t.effects

  -- The end of an exchange, as an event of the HTTP/1.1 loop: at a timeout it closes, its queue empty.
  abbrev end1 : Outcome → Http1.Event ms ha net ad
  end1 none = Http1.Event.elapsed [] true
  end1 (some r) = Http1.Event.answered r

  -- What is done for a request, from its receipt to the end of its exchange, if it is sent at all.
  pub exchange1 : ms.RequestMsg → Outcome → List (Effect ms)
  exchange1 m x =
      let first = Http1.turn ms ha net ad su none (Http1.Event.received (request m) [] true) in
      elim first [
        | none ↦ []
        | some t ↦ t.effects ++ effects1 (Http1.turn ms ha net ad su t.state (end1 x))
      ]

  pub exchange2 : ms.RequestMsg → Outcome → List (Effect ms)
  exchange2 m x =
      let first = Http2.turn ms ha net ad su [] (Http2.Event.received (request m) [] true) in
      elim first [
        | none ↦ []
        | some t ↦
            t.effects ++ effects2 (Http2.turn ms ha net ad su t.state (Http2.Event.finished 0 x))
      ]

  -- An exchange that has a response, an error of hyper or a timeout for its outcome gives its request
  -- exactly one answer, the same over HTTP/1.1 and over HTTP/2, whatever the adaptor's two conversions
  -- give; at a timeout the queue of the HTTP/1.1 socket is empty and can be removed. Where the
  -- HTTP/1.1 loop finds its connection lost instead, with the request in flight and its queue empty,
  -- the request gets no answer.
  pub exchange_same :
      (m : ms.RequestMsg) (x : Outcome)
      → (answers (exchange1 m x) ≡ answers (exchange2 m x))
        × (length (answers (exchange1 m x)) ≡ 1)
        × ((req : ha.Request) (ok? : Bool)
            → answers
                (effects1 (Http1.turn ms ha net ad su (some (m, req)) (Http1.Event.lost [] ok?)))
              ≡ [])
  unfolding exchange1 exchange2 Http1.turn Http2.turn
  exchange_same m x = (ground arith, ground arith, λ req ok?. ground arith)

  -- A request whose two conversions succeed gets what the second makes of the response.
  pub exchange_answer :
      (m : ms.RequestMsg) (d x : M) (req : ha.Request) (r : ha.Response)
      → (ms.take_data m).0 ≡ some d
      → ad.process_srv_request d su.socket.target.url ≡ ok req
      → ad.process_http_response (ok r) ≡ ok x
      → answers (exchange1 m (some (ok r))) ≡ returned (ms.take_data m).1 x ∷ []
  unfolding exchange1 Http1.turn
  exchange_answer m d x req r taken asked answered = ground arith
