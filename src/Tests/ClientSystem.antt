-- ===== src/Tests/ClientSystem.antt =====
-- The client's processor with its sockets at concrete events.
use pro_sa_hyper.Common.{
  pick, ℕ, ◌+◌, ◌*◌, ◌≡◌, ◌≢◌, refl, sym, length, ◌++◌, String, none, some, List, [], ◌∷◌, true, ok,
  err, weight,
}
use pro_sa_hyper.Prosa.{request, shutdown, protocol_error}
use pro_sa_hyper.Net.{TargetSetting}
use pro_sa_hyper.Samples.{sample_messages, sample_http}
use pro_sa_hyper.Samples.Nets.{sample_net, sample_client}
use pro_sa_hyper.Client.Socket.{
  new, dropped, queue_added, service_added, queue_removed, returned_error, recorded,
}
use pro_sa_hyper.Client.Socket.Http1
use pro_sa_hyper.Client.Socket.Http2
use pro_sa_hyper.Client.Socket.Weights.{settled}
use pro_sa_hyper.Client.Socket.Open.{spawn}
use pro_sa_hyper.Client.Proc
use pro_sa_hyper.Client.Task.{started, on1, on2}
use pro_sa_hyper.Client.System.Requests.Drain.{whole_run_settles}
use pro_sa_hyper.Client.System.{System, Event, at, join, internal, orphaned, turn, run, start}
use pro_sa_hyper.Client.System.Weights.{unsettled}
use pro_sa_hyper.Client.System.Requests.{run_took, requests_balanced}
use pro_sa_hyper.Client.System.Sound.{IsSound, run-IsSound}
use pro_sa_hyper.Tests.ClientSockets.{first, second, bare}
use pro_sa_hyper.Tests.ClientOpen.{attempt}
use pro_sa_hyper.Tests.ClientLoop.{settings}

abbrev pub text : TargetSetting sample_net → String
text t = "target"

-- One socket opens over HTTP/2 and takes a request, one over HTTP/1.1 takes one, closes, is joined and
-- spawned again; then the processor stops, and the request over HTTP/2 ends after it.
abbrev to_the_end : List (Event sample_messages sample_http sample_net sample_client ℕ ℕ text)
to_the_end =
    at 0 (started (attempt (some "h2") (ok tt)))
    ∷ at 0 (on2 (Http2.Event.received (request first) [] true))
    ∷ at 1 (started (attempt none (ok tt)))
    ∷ at 0 (on1 (Http1.Event.lost [] true))
    ∷ join 0
    ∷ at 2 (started (attempt none (ok tt)))
    ∷ at 0 (on1 (Http1.Event.received (request second) [] true))
    ∷ internal shutdown true
    ∷ []

abbrev events : List (Event sample_messages sample_http sample_net sample_client ℕ ℕ text)
events = to_the_end ++ orphaned 0 (some (err 9)) ∷ []

abbrev begins : Proc.State sample_messages sample_net (Unit {0}) (Unit {0})
begins = record { service = λ s. none; live = 0 }

events-run :
    (run sample_messages sample_http sample_net sample_client ℕ ℕ text settings
      (start sample_messages sample_http sample_net sample_client ℕ ℕ text settings true true
        begins).state
      events).effects
    ≡ queue_added 5
      ∷ service_added "hyper" 5
      ∷ queue_added 5
      ∷ service_added "hyper" 5
      ∷ queue_removed 5
      ∷ queue_added 5
      ∷ service_added "hyper" 5
      ∷ dropped (record second { payload = none })
      ∷ recorded 500 "HTTP/2"
      ∷ returned_error bare none (protocol_error "hyper")
      ∷ []
unfolding run turn start spawn new Proc.turn Proc.start Http1.turn Http2.turn pick Http2.run_task
events-run = refl

run-IsSound_example :
    IsSound sample_messages sample_http sample_net sample_client ℕ ℕ text settings
      (run sample_messages sample_http sample_net sample_client ℕ ℕ text settings
        (start sample_messages sample_http sample_net sample_client ℕ ℕ text settings true true
          begins).state
        events).state
run-IsSound_example =
    run-IsSound sample_messages sample_http sample_net sample_client ℕ ℕ text settings true true
      begins events

requests_balanced_example :
    let w = λ (q : ℕ). q * q in
    let sys =
      (start sample_messages sample_http sample_net sample_client ℕ ℕ text settings true true
        begins).state in
    unsettled sample_messages sample_http sample_net sample_client ℕ ℕ text settings w sys
      + run_took sample_messages sample_http sample_net sample_client ℕ ℕ text settings w sys events
    ≡ weight
        (settled sample_messages w)
        (run sample_messages sample_http sample_net sample_client ℕ ℕ text settings sys
          events).effects
      + unsettled sample_messages sample_http sample_net sample_client ℕ ℕ text settings w
          (run sample_messages sample_http sample_net sample_client ℕ ℕ text settings sys
            events).state
requests_balanced_example =
    requests_balanced sample_messages sample_http sample_net sample_client ℕ ℕ text settings
      (λ (q : ℕ). q * q)
      (start sample_messages sample_http sample_net sample_client ℕ ℕ text settings true true
        begins).state
      events

abbrev ended : System sample_messages sample_http sample_net sample_client ℕ ℕ text
ended =
    (run sample_messages sample_http sample_net sample_client ℕ ℕ text settings
      (start sample_messages sample_http sample_net sample_client ℕ ℕ text settings true true
        begins).state
      to_the_end).state

ended-finished : ended.status ≡ Proc.Status.finished
unfolding run turn start spawn new Proc.turn Proc.start Http1.turn Http2.turn pick
ended-finished = refl

ended-orphans : length ended.orphans ≡ 1
unfolding run turn start spawn new Proc.turn Proc.start Http1.turn Http2.turn pick
ended-orphans = refl

not_running : (u : Proc.Status) → u ≡ Proc.Status.finished → u ≢ Proc.Status.running
not_running u h e = cc

whole_run_settles_example :
    let w = λ (q : ℕ). q * q in
    (weight
          (settled sample_messages w)
          (run sample_messages sample_http sample_net sample_client ℕ ℕ text settings
            (start sample_messages sample_http sample_net sample_client ℕ ℕ text settings true true
              begins).state
            to_the_end).effects
        + weight
            (settled sample_messages w)
            (run sample_messages sample_http sample_net sample_client ℕ ℕ text settings ended
              (orphaned 0 none ∷ [])).effects
      ≡ run_took sample_messages sample_http sample_net sample_client ℕ ℕ text settings w
          (start sample_messages sample_http sample_net sample_client ℕ ℕ text settings true true
            begins).state
          to_the_end)
    × (unsettled sample_messages sample_http sample_net sample_client ℕ ℕ text settings w
          (run sample_messages sample_http sample_net sample_client ℕ ℕ text settings ended
            (orphaned 0 none ∷ [])).state
        ≡ 0)
whole_run_settles_example =
    whole_run_settles sample_messages sample_http sample_net sample_client ℕ ℕ text settings
      (λ (q : ℕ). q * q) true true begins to_the_end (none ∷ []) (not_running _ ended-finished)
      (sym ended-orphans)
