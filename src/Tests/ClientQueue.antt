-- ===== src/Tests/ClientQueue.antt =====
-- A socket of the client with its channel at concrete events.
use pro_sa_hyper.Common.{ℕ, ◌+◌, ◌*◌, ◌≡◌, refl, none, List, [], ◌∷◌, ◌++◌, true, false, weight}
use pro_sa_hyper.Prosa.{request, unable_to_reach_service}
use pro_sa_hyper.Samples.{sample_messages, sample_http}
use pro_sa_hyper.Samples.Nets.{sample_net, sample_client}
use pro_sa_hyper.Client.Socket.{returned_error, dropped, queue_removed}
use pro_sa_hyper.Client.Socket.Weights.{settled}
use pro_sa_hyper.Client.Socket.Http1
use pro_sa_hyper.Client.Socket.Http2
use pro_sa_hyper.Client.Socket.Http2.{run_task}
use pro_sa_hyper.Client.Socket.Http2.Ledger.{in_tasks}
use pro_sa_hyper.Client.Queue.{
  SocketLoop, Event, sent, admitted, taken, outside, aborted, run, turn, fresh,
}
use pro_sa_hyper.Client.Queue.Loops.{lost, loop1, loop2}
use pro_sa_hyper.Client.Queue.Account.{outstanding, sends, line_balanced}
use pro_sa_hyper.Client.Queue.Settled.{http1_line_settles, http2_line_settles}
use pro_sa_hyper.Tests.ClientSockets.{setup, first, second, bare}

abbrev http1 : SocketLoop sample_messages sample_net
http1 = loop1 sample_messages sample_http sample_net sample_client setup

abbrev http2 : SocketLoop sample_messages sample_net
http2 = loop2 sample_messages sample_http sample_net sample_client setup

-- Of three requests the first is in flight; the second is in the channel, and the third waits.
abbrev busy : List (Event sample_messages sample_net http1)
busy =
    sent (request first)
    ∷ sent (request second)
    ∷ admitted 0
    ∷ admitted 0
    ∷ taken 0 true []
    ∷ taken 0 true []
    ∷ sent (request second)
    ∷ []

-- The connection is lost; the send that waits gets in while the channel is emptied. One more request
-- comes after the end.
abbrev to_the_end : List (Event sample_messages sample_net http1)
to_the_end = busy ++ outside lost true (0 ∷ []) ∷ sent (request first) ∷ []

to_the_end-run :
    (run sample_messages sample_net http1
      (fresh sample_messages sample_net http1 none)
      to_the_end).effects
    ≡ queue_removed 5
      ∷ returned_error second none (unable_to_reach_service "hyper")
      ∷ returned_error second none (unable_to_reach_service "hyper")
      ∷ dropped bare
      ∷ dropped first
      ∷ []
unfolding run turn fresh Http1.turn
to_the_end-run = refl

ends :
    (run sample_messages sample_net http1
      (fresh sample_messages sample_net http1 none)
      to_the_end).line.open?
    ≡ false
unfolding run turn fresh Http1.turn
ends = refl

line_balanced_example :
    let w = λ (q : ℕ). q * q in
    outstanding sample_messages sample_net http1 w (fresh sample_messages sample_net http1 none)
      + weight (sends sample_messages sample_net http1 w) to_the_end
    ≡ weight
        (settled sample_messages w)
        (run sample_messages sample_net http1
          (fresh sample_messages sample_net http1 none)
          to_the_end).effects
      + outstanding sample_messages sample_net http1 w
          (run sample_messages sample_net http1
            (fresh sample_messages sample_net http1 none)
            to_the_end).line
line_balanced_example =
    line_balanced sample_messages sample_net http1 (λ (q : ℕ). q * q)
      (fresh sample_messages sample_net http1 none) to_the_end

http1_line_settles_example :
    let w = λ (q : ℕ). q * q in
    weight (sends sample_messages sample_net http1 w) to_the_end
    ≡ weight
        (settled sample_messages w)
        (run sample_messages sample_net http1
          (fresh sample_messages sample_net http1 none)
          to_the_end).effects
http1_line_settles_example =
    http1_line_settles sample_messages sample_http sample_net sample_client setup (λ (q : ℕ). q * q)
      to_the_end ends

-- The processor ends while one task runs and one request is in the channel.
abbrev events2 : List (Event sample_messages sample_net http2)
events2 =
    sent (request first)
    ∷ admitted 0
    ∷ taken 0 true []
    ∷ sent (request second)
    ∷ admitted 0
    ∷ aborted
    ∷ []

ends2 :
    (run sample_messages sample_net http2
      (fresh sample_messages sample_net http2 [])
      events2).line.open?
    ≡ false
unfolding run turn fresh Http2.turn
ends2 = refl

http2_line_settles_example :
    let w = λ (q : ℕ). q * q in
    weight (sends sample_messages sample_net http2 w) events2
    ≡ weight
        (settled sample_messages w)
        (run sample_messages sample_net http2
          (fresh sample_messages sample_net http2 [])
          events2).effects
      + in_tasks sample_messages sample_http sample_net sample_client w setup
          (run sample_messages sample_net http2
            (fresh sample_messages sample_net http2 [])
            events2).line.state
http2_line_settles_example =
    http2_line_settles sample_messages sample_http sample_net sample_client setup (λ (q : ℕ). q * q)
      events2 ends2
