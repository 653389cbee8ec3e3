-- ===== src/Tests/ServerSystem.antt =====
-- Calls, queue and processor together at concrete events.
use pro_sa_hyper.Common.{
  ℕ, ◌+◌, ◌*◌, ◌≡◌, ◌≢◌, refl, none, some, List, [], ◌∷◌, ◌++◌, true, weight, arith, from_millis,
}
use pro_sa_hyper.Prosa.{shutdown, unable_to_reach_service}
use pro_sa_hyper.Samples.{Req, sample_messages}
use pro_sa_hyper.Samples.Pairs.{pairs}
use pro_sa_hyper.Server.Proc
use pro_sa_hyper.Server.Proc.{Effect, Status, finished, running, returned_error, sent, dropped}
use pro_sa_hyper.Server.Proc.Ledger.{settled}
use pro_sa_hyper.Server.System.{Event, called, admitted, taken, internal, System, turn, run}
use pro_sa_hyper.Server.System.Account.{outstanding, calls}
use pro_sa_hyper.Server.System.Calls.{calls_balanced}
use pro_sa_hyper.Server.Settings.{Settings}
use pro_sa_hyper.Server.Settings.Port.{offered}
use pro_sa_hyper.Server.Start
use pro_sa_hyper.Server.Start.{added, listening, internal_run}
use pro_sa_hyper.Server.Start.Whole.{start_listens, internal_run_settles}
use pro_sa_hyper.Net.{ListenerSetting}
use pro_sa_hyper.Samples.Nets.{sample_net}
use pro_sa_hyper.Tests.ServerLoop.{
  setup, table, start, start-IsBelow, known, unknown, kept, forwarded,
}

abbrev fresh : System sample_messages (pairs Req)
fresh = record { sending = []; queue = []; proc = start; status = running }

-- Of three calls one is forwarded, one is answered at once and one still waits for room.
abbrev events : List (Event sample_messages)
events =
    called known
    ∷ called unknown
    ∷ admitted 1
    ∷ admitted 0
    ∷ called known
    ∷ taken 1 10 true
    ∷ taken 0 11 true
    ∷ taken 0 12 true
    ∷ []

-- The loop ends, and one more call is made.
abbrev to_the_end : List (Event sample_messages)
to_the_end = events ++ internal shutdown true ∷ called unknown ∷ []

events-run :
    (run sample_messages (pairs Req) setup fresh to_the_end).effects
    ≡ sent 7 forwarded
      ∷ returned_error
          (record unknown { payload = none })
          (some 6)
          (unable_to_reach_service "OTHER")
      ∷ Effect.terminated
      ∷ Effect.removed
      ∷ dropped kept
      ∷ dropped known
      ∷ dropped unknown
      ∷ []
unfolding run turn Proc.turn
events-run = refl

calls_balanced_example :
    let w = λ (q : ℕ). q * q in
    outstanding sample_messages (pairs Req) setup w fresh
      + weight (calls sample_messages (pairs Req) setup w) events
    ≡ weight
        (settled sample_messages w)
        (run sample_messages (pairs Req) setup fresh events).effects
      + outstanding sample_messages
          (pairs Req)
          setup
          w
          (run sample_messages (pairs Req) setup fresh events).state
calls_balanced_example =
    calls_balanced sample_messages (pairs Req) setup (λ (q : ℕ). q * q) fresh 10 events
      start-IsBelow (omega arith)

abbrev settings : Settings sample_net
settings = record {
  listener = record { url = (true, 443); ssl = some ("http/1.0" ∷ []) };
  service_timeout = from_millis 800;
}

start_listens_example :
    (l : ListenerSetting sample_net) × ((Start.start sample_messages
        (pairs Req)
        sample_net
        settings
        table
        true
        true
        true).effects
      ≡ added ∷ listening l ∷ [])
    × (l.url ≡ (true, 443))
    × (offered sample_net l.ssl ≡ some ("h2" ∷ "http/1.1" ∷ []))
    × ((Start.start sample_messages
          (pairs Req)
          sample_net
          settings
          table
          true
          true
          true).system.proc.pending
        ≡ [])
unfolding Start.start
start_listens_example =
    start_listens sample_messages (pairs Req) sample_net settings table true true true refl

its_end :
    (internal_run sample_messages
      (pairs Req)
      sample_net
      settings
      99
      table
      true
      true
      true
      to_the_end).1.state.status
    ≡ finished
unfolding internal_run Start.start run turn Proc.turn
its_end = refl

not_running : (s : Status) → s ≡ finished → s ≢ running
not_running s h e = cc

internal_run_settles_example :
    let w = λ (q : ℕ). q * q in
    weight
      (settled sample_messages w)
      (internal_run sample_messages
        (pairs Req)
        sample_net
        settings
        99
        table
        true
        true
        true
        to_the_end).1.effects
    ≡ weight (calls sample_messages (pairs Req) setup w) to_the_end
unfolding Start.start
internal_run_settles_example =
    internal_run_settles sample_messages (pairs Req) sample_net settings table (λ (q : ℕ). q * q) 99
      true true true to_the_end (omega arith) (not_running _ its_end)
