-- ===== src/Tests/ServerLoop.antt =====
-- The server's processor at concrete events.
use text.Mathlib.Text.{◌==◌ as str_eq}
use pro_sa_hyper.Common.{
  ◌↔◌, ℕ, ◌≡◌, refl, String, Option, none, some, List, [], ◌∷◌, true, if◌then◌else◌, from_millis,
  millis_u64, arith,
}
use pro_sa_hyper.Prosa.{
  command, response, shutdown, unable_to_reach_service, timeout, protocol_error,
}
use pro_sa_hyper.Samples.{Req, Failure, sample_messages}
use pro_sa_hyper.Samples.Pairs.{pairs}
use pro_sa_hyper.Server.Proc.Branches.{IsUnsupported, turn-panicked_iff}
use pro_sa_hyper.Server.Proc.{
  panicked, Effect, returned, returned_error, sent, Event, internal, http, accept, expire, Setup,
  State, on_http, turn, run,
}
use pro_sa_hyper.Server.Proc.Identifiers.{IsBelow}
use pro_sa_hyper.Server.Proc.Spec.{Steps}
use pro_sa_hyper.Server.Proc.Refinement.{waits, run-Follows}
use pro_sa_hyper.Server.Proc.Correlation.{IsQuiet}

abbrev pub table : String → Option ℕ
table s = if str_eq s "SRV_TEST" then some 7 else none

abbrev pub setup : Setup sample_messages (pairs Req)
setup = record { service_timeout = from_millis 800; service_queue = 99 }

abbrev pub start : State sample_messages (pairs Req)
start = record { service = table; pending = [] }

-- An HTTP request for a known service, and one for a service that is not there.
abbrev pub known : Req
known = record { id = 0; service = "SRV_TEST"; payload = some 5; to = 1 }

abbrev pub unknown : Req
unknown = record { id = 1; service = "OTHER"; payload = some 6; to = 2 }

abbrev pub kept : Req
kept = record { id = 0; service = "SRV_TEST"; payload = none; to = 1 }

abbrev pub forwarded : Req
forwarded = record { id = 10; service = "SRV_TEST"; payload = some 5; to = 99 }

abbrev events : List (Event sample_messages)
events =
    http known 10 true
    ∷ http unknown 11 true
    ∷ internal (response (10, some 8)) true
    ∷ http known 12 true
    ∷ expire 800_000_000
    ∷ internal shutdown true
    ∷ accept true
    ∷ []

events-run :
    (run sample_messages (pairs Req) setup start events).effects
    ≡ sent 7 forwarded
      ∷ returned_error
          (record unknown { payload = none })
          (some 6)
          (unable_to_reach_service "OTHER")
      ∷ returned kept 8
      ∷ sent 7 (record forwarded { id = 12 })
      ∷ returned_error kept none (timeout "SRV_TEST" 800)
      ∷ Effect.terminated
      ∷ Effect.removed
      ∷ []
unfolding run turn
events-run = refl

pub start-IsBelow : IsBelow sample_messages (pairs Req) 10 []
start-IsBelow = record { unused = λ i h. refl; once = λ i. omega arith }

run-Follows_example :
    let end = run sample_messages (pairs Req) setup start events in
    Steps sample_messages
      (millis_u64 (from_millis 800))
      99
      table
      (waits sample_messages (pairs Req) setup [])
      events
      end.state.service
      (waits sample_messages (pairs Req) setup end.state.pending)
      end.effects
      end.status
run-Follows_example =
    run-Follows sample_messages (pairs Req) setup start 10 events start-IsBelow (omega arith)

-- One of the messages that the processor does not support.
turn-panicked_iff_example :
    ((turn sample_messages (pairs Req) setup start (internal command true)).status ≡ panicked)
    ↔ IsUnsupported sample_messages (pairs Req) setup (internal command true)
turn-panicked_iff_example =
    turn-panicked_iff sample_messages (pairs Req) setup start (internal command true)

abbrev between : List (Event sample_messages)
between = http unknown 11 true ∷ internal (response (11, some 3)) true ∷ []

between-IsQuiet :
    IsQuiet sample_messages
      (pairs Req)
      setup
      10
      (on_http sample_messages (pairs Req) setup start known 10 true).state
      between
unfolding IsQuiet turn on_http
between-IsQuiet = (tt, refl, (omega arith, refl, tt))

abbrev failure : Failure
failure = record { id = 10; payload = none; reason = protocol_error "SRV_TEST" }

abbrev later : State sample_messages (pairs Req)
later = record { service = table; pending = (10, kept, 800_000_000) ∷ [] }
