-- ===== src/Tests/ClientSockets.antt =====
-- The client's sockets at concrete events.
use pro_sa_hyper.Common.{
  Bool, ℕ, ◌+◌, ◌*◌, ◌≡◌, refl, none, some, List, [], ◌∷◌, true, false, err, from_millis, weight,
  length,
}
use pro_sa_hyper.Prosa.{request, shutdown, unable_to_reach_service, protocol_error}
use pro_sa_hyper.Net.{TargetSetting}
use pro_sa_hyper.Samples.{Req, sample_messages, sample_http}
use pro_sa_hyper.Samples.Nets.{sample_net, sample_client}
use pro_sa_hyper.Client.Socket.{
  Socket, returned_error, dropped, recorded, queue_removed, Setup, closed, Status,
}
use pro_sa_hyper.Client.Socket.Weights.{settled}
use pro_sa_hyper.Client.Socket.Http1
use pro_sa_hyper.Client.Socket.Http2
use pro_sa_hyper.Client.Socket.Http1.Ledger.{in_flight, run_taken, run_balanced_http1}
use pro_sa_hyper.Client.Socket.Http1.Drops.{turn-unanswered}
use pro_sa_hyper.Client.Socket.Unanswered.{unanswered}
use pro_sa_hyper.Client.Socket.Http2.Drops.{turn-unanswered_http2}
use pro_sa_hyper.Client.Socket.Http2.Ledger.{in_tasks, run_taken as run_taken2, run_balanced_http2}
use pro_sa_hyper.Client.Socket.Exchange.{answers, effects1, exchange1, exchange2, exchange_same}

abbrev target : TargetSetting sample_net
target = record { url = (true, 443); ssl = none; connect_timeout = 100 }

abbrev pub plain : Socket sample_net
plain = record { target = target; is_http2 = false; http_timeout = from_millis 5000 }

abbrev pub marked : Socket sample_net
marked = record plain { is_http2 = true }

abbrev pub setup : Setup sample_messages sample_http sample_net sample_client
setup = record { socket = plain; fd = 5; service_name = "hyper" }

abbrev pub first : Req
first = record { id = 0; service = "hyper"; payload = some 200; to = 3 }

abbrev pub second : Req
second = record { id = 1; service = "hyper"; payload = some 7; to = 4 }

-- The first request without its payload.
abbrev pub bare : Req
bare = record first { payload = none }

abbrev events1 : List (Http1.Event sample_messages sample_http sample_net sample_client)
events1 =
    Http1.Event.received (request first) [] true
    ∷ Http1.Event.lost (request second ∷ shutdown ∷ []) true
    ∷ []

abbrev end1 : Http1.Turn sample_messages sample_http sample_net sample_client
end1 = record {
  state = none;
  effects =
      queue_removed 5
      ∷ returned_error second none (unable_to_reach_service "hyper")
      ∷ dropped bare
      ∷ [];
  status = closed plain;
}

run1 : Http1.run sample_messages sample_http sample_net sample_client setup none events1 ≡ some end1
unfolding Http1.run Http1.turn
run1 = refl

run_balanced_http1_example :
    let w = λ (q : ℕ). q * q in
    in_flight sample_messages sample_http sample_net sample_client w setup none
      + run_taken sample_messages sample_http sample_net sample_client w setup none events1
    ≡ weight (settled sample_messages w) end1.effects
      + in_flight sample_messages sample_http sample_net sample_client w setup end1.state
run_balanced_http1_example =
    run_balanced_http1 sample_messages sample_http sample_net sample_client (λ (q : ℕ). q * q) setup
      none events1 end1 run1

-- The request in flight is 3's, and is lost.
abbrev lost_turn : Http1.Turn sample_messages sample_http sample_net sample_client
lost_turn = record end1 { effects = end1.effects }

lost_turn_lem :
    Http1.turn sample_messages sample_http sample_net sample_client setup
      (some (bare, 200))
      (Http1.Event.lost (request second ∷ shutdown ∷ []) true)
    ≡ some lost_turn
unfolding Http1.turn
lost_turn_lem = refl

turn-unanswered_example : weight (unanswered sample_messages (λ (q : ℕ). q)) lost_turn.effects ≡ 3
turn-unanswered_example =
    turn-unanswered sample_messages sample_http sample_net sample_client (λ (q : ℕ). q) setup
      (some (bare, 200)) (Http1.Event.lost (request second ∷ shutdown ∷ []) true) lost_turn
      lost_turn_lem

abbrev events2 : List (Http2.Event sample_messages sample_http sample_net sample_client)
events2 =
    Http2.Event.received (request first) [] true
    ∷ Http2.Event.received (request second) [] true
    ∷ Http2.Event.finished 1 (some (err 9))
    ∷ Http2.Event.received shutdown [] true
    ∷ []

abbrev end2 : Http2.Turn sample_messages sample_http sample_net sample_client
end2 = record {
  state = (record second { payload = none }, 7) ∷ [];
  effects =
      recorded 500 "HTTP/2"
      ∷ returned_error bare none (protocol_error "hyper")
      ∷ queue_removed 5
      ∷ [];
  status = closed marked;
}

run2 : Http2.run sample_messages sample_http sample_net sample_client setup [] events2 ≡ some end2
unfolding Http2.run Http2.turn
run2 = refl

run_balanced_http2_example :
    let w = λ (q : ℕ). q * q in
    in_tasks sample_messages sample_http sample_net sample_client w setup []
      + run_taken2 sample_messages sample_http sample_net sample_client w setup [] events2
    ≡ weight (settled sample_messages w) end2.effects
      + in_tasks sample_messages sample_http sample_net sample_client w setup end2.state
run_balanced_http2_example =
    run_balanced_http2 sample_messages sample_http sample_net sample_client (λ (q : ℕ). q * q) setup
      [] events2 end2 run2

exchange_same_example :
    (answers (exchange1 sample_messages sample_http sample_net sample_client setup first none)
      ≡ answers (exchange2 sample_messages sample_http sample_net sample_client setup first none))
    × (length (
          answers (exchange1 sample_messages sample_http sample_net sample_client setup first none))
        ≡ 1)
    × ((req : ℕ) (ok? : Bool)
        → answers (
            effects1 sample_messages sample_http sample_net sample_client setup (
              Http1.turn sample_messages sample_http sample_net sample_client setup
                (some (first, req))
                (Http1.Event.lost [] ok?)))
          ≡ [])
exchange_same_example =
    exchange_same sample_messages sample_http sample_net sample_client setup first none

-- The queue cannot be removed, and holds a request of 4's; the request in flight is not dropped.
abbrev stuck_turn : Http2.Turn sample_messages sample_http sample_net sample_client
stuck_turn = record {
  state = (bare, 200) ∷ [];
  effects = dropped second ∷ [];
  status = Status.failed;
}

stuck_turn_lem :
    Http2.turn sample_messages sample_http sample_net sample_client setup
      ((bare, 200) ∷ [])
      (Http2.Event.lost (request second ∷ []) false)
    ≡ some stuck_turn
unfolding Http2.turn
stuck_turn_lem = refl

turn-unanswered_http2_example :
    weight (unanswered sample_messages (λ (q : ℕ). q)) stuck_turn.effects ≡ 4
turn-unanswered_http2_example =
    turn-unanswered_http2 sample_messages sample_http sample_net sample_client (λ (q : ℕ). q) setup
      ((bare, 200) ∷ []) (Http2.Event.lost (request second ∷ []) false) stuck_turn stuck_turn_lem
