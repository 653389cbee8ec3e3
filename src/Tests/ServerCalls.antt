-- ===== src/Tests/ServerCalls.antt =====
-- Calls of the HTTP service at concrete requests.
use text.Mathlib.Text.{◌==◌ as str_eq}
use pro_sa_hyper.Common.{
  ◌≤◌, All, weight, ℕ, ◌≡◌, refl, String, Option, none, some, List, [], ◌∷◌, true, false,
  if◌then◌else◌, from_millis, arith, Result, ok, err,
}
use pro_sa_hyper.Prosa.{shutdown, response, timeout, protocol_error}
use pro_sa_hyper.Http.{hyper_version_str, unix, HttpError, hyper, HyperResp, srv_req, http_err}
use pro_sa_hyper.Samples.{Req, Failure, Reply, sample_messages, sample_http}
use pro_sa_hyper.Samples.Pairs.{pairs}
use pro_sa_hyper.Server.Proc.Ledger.{settled}
use pro_sa_hyper.Server.System.Ends.{IsSilent}
use pro_sa_hyper.Server.EndToEnd.Ended.{ending, ended_answer}
use pro_sa_hyper.Server.Proc.{
  Event, internal, Setup, State, failed, on_http, on_response, on_error, on_expire, turn, run,
}
use pro_sa_hyper.Server.Proc.Correlation.{IsQuiet}
use pro_sa_hyper.Server.Adaptor.{ServerAdaptor, response_builder, default_srv_error_response}
use pro_sa_hyper.Server.Adaptor.Answers.{AnswersError, default_srv_error_response-AnswersError}
use pro_sa_hyper.Server.Service.{counted, Call, process_call}
use pro_sa_hyper.Server.EndToEnd.{
  call_through, Serves, unknown_service_answer, closed_service_answer, expired_answer,
  response_answer, error_answer,
}

abbrev table : String → Option ℕ
table s = if str_eq s "SRV_TEST" then some 7 else none

abbrev setup : Setup sample_messages (pairs Req)
setup = record { service_timeout = from_millis 800; service_queue = 99 }

abbrev start : State sample_messages (pairs Req)
start = record { service = table; pending = [] }

-- A handler that answers a payload with 200 and an error by default.
abbrev handler : ℕ → Result ℕ Failure → Result Reply (HttpError sample_http)
handler a (ok d) = ok (record { code = 200; server = none; body = "fine" })
handler a (err e) =
    default_srv_error_response sample_http sample_messages e (response_builder sample_http unix)

-- Requests 0 and 1 ask services, 2 is answered at once, and any other fails.
abbrev process_request : ℕ → HyperResp sample_messages sample_http ℕ
process_request req =
    if str_eq (name req) "" then http_err (hyper 4) else srv_req (name req) 5 handler
  where
    name : ℕ → String
    name = elim [ ℕ.zero ↦ "SRV_TEST" | ℕ.suc n ↦ elim n [ ℕ.zero ↦ "OTHER" | ℕ.suc m ↦ "" ] ]

abbrev adaptor : ServerAdaptor sample_http sample_messages ℕ
adaptor = record {
  self = 0;
  build = response_builder sample_http unix;
  process_http_request = process_request;
}

abbrev no_answer : Call sample_messages sample_http adaptor
no_answer = record { id = 3; resp_tx = 1; answer = λ r. none }

abbrev overloaded : Reply
overloaded = record {
  code = 503;
  server = some "prosa-hyper/0.3.1 (Unix)";
  body = "Can't handle your request for now";
}

no_answer_call :
    process_call sample_messages sample_http adaptor no_answer 0
    ≡ (ok overloaded, counted 503 (some "HTTP/1.1") ∷ [])
unfolding process_call response_builder hyper_version_str
no_answer_call = refl

abbrev late : Failure
late = record { id = 3; payload = none; reason = timeout "SRV_TEST" 800 }

default_srv_error_response-AnswersError_example :
    AnswersError sample_messages sample_http unix (timeout "SRV_TEST" 800) (
      default_srv_error_response sample_http sample_messages late
        (response_builder sample_http unix))
default_srv_error_response-AnswersError_example =
    default_srv_error_response-AnswersError sample_messages sample_http unix late

unknown_service_answer_example :
    Serves sample_messages
      (pairs Req)
      sample_http
      unix
      adaptor
      setup
      start
      3
      1
      503
      "Can't reach service"
      (process_call sample_messages sample_http adaptor
        (call_through sample_messages
          (pairs Req)
          sample_http
          unix
          adaptor
          setup
          start
          3
          1
          (λ r. (on_http sample_messages (pairs Req) setup start r 10 true).effects))
        1)
unknown_service_answer_example =
    unknown_service_answer sample_messages (pairs Req) sample_http unix adaptor setup start 3 1 1
      "OTHER" 5 handler refl 10 true (λ e. refl) refl

closed_service_answer_example :
    ((on_http sample_messages
        (pairs Req)
        setup
        start
        (record { id = 3; service = "SRV_TEST"; payload = some 5; to = 1 })
        10
        false).status
      ≡ failed)
    × Serves sample_messages
        (pairs Req)
        sample_http
        unix
        adaptor
        setup
        start
        3
        1
        503
        "Can't handle your request for now"
        (process_call sample_messages sample_http adaptor
          (call_through sample_messages
            (pairs Req)
            sample_http
            unix
            adaptor
            setup
            start
            3
            1
            (λ r. (on_http sample_messages (pairs Req) setup start r 10 false).effects))
          0)
closed_service_answer_example =
    closed_service_answer sample_messages (pairs Req) sample_http unix adaptor setup start 3 1 0
      "SRV_TEST" 5 handler refl 7 10 refl refl

expired_answer_example :
    Serves sample_messages (pairs Req) sample_http unix adaptor setup start 3 1 504 "" (
      process_call sample_messages sample_http adaptor
        (call_through sample_messages (pairs Req) sample_http unix adaptor setup start 3 1 (λ r.
          (on_expire sample_messages
            (pairs Req)
            setup
            (on_http sample_messages (pairs Req) setup start r 10 true).state
            800_000_000).effects))
        0)
unfolding on_http
expired_answer_example =
    expired_answer sample_messages (pairs Req) sample_http unix adaptor setup start 3 1 0 "SRV_TEST"
      5 handler refl 10 800_000_000 (λ e. refl) refl refl

abbrev waits_too : Req
waits_too = record { id = 8; service = "OTHER"; payload = some 6; to = 2 }

abbrev sent_request : Req
sent_request = record { id = 3; service = "SRV_TEST"; payload = some 5; to = 1 }

abbrev between : List (Event sample_messages)
between = internal (response (11, some 3)) true ∷ []

between-IsQuiet :
    IsQuiet sample_messages
      (pairs Req)
      setup
      10
      (on_http sample_messages (pairs Req) setup start sent_request 10 true).state
      between
unfolding IsQuiet turn on_http
between-IsQuiet = (omega arith, refl, tt)

response_answer_example :
    process_call sample_messages sample_http adaptor
      (call_through sample_messages (pairs Req) sample_http unix adaptor setup start 3 1 (λ r.
        (on_response sample_messages
          (pairs Req)
          (run sample_messages
            (pairs Req)
            setup
            (on_http sample_messages (pairs Req) setup start r 10 true).state
            between).state
          (10, some 8)).effects))
      0
    ≡ (ok (record { code = 200; server = none; body = "fine" }), counted 200 (some "HTTP/1.1") ∷ [])
unfolding hyper_version_str
response_answer_example =
    response_answer sample_messages (pairs Req) sample_http unix adaptor setup start 3 1 0
      "SRV_TEST" 5 handler refl 7 10 between (10, some 8) 8 refl tt between-IsQuiet refl refl

abbrev refused : Failure
refused = record { id = 10; payload = some 5; reason = protocol_error "field 1" }

error_answer_example :
    Serves sample_messages (pairs Req) sample_http unix adaptor setup start 3 1 502 "" (
      process_call sample_messages sample_http adaptor
        (call_through sample_messages (pairs Req) sample_http unix adaptor setup start 3 1 (λ r.
          (on_error sample_messages
            (pairs Req)
            (run sample_messages
              (pairs Req)
              setup
              (on_http sample_messages (pairs Req) setup start r 10 true).state
              between).state
            refused).effects))
        0)
error_answer_example =
    error_answer sample_messages (pairs Req) sample_http unix adaptor setup start 3 1 0 "SRV_TEST" 5
      handler refl 7 10 between refused (λ e. refl) refl tt between-IsQuiet refl

-- The processor is shut down while one more call waits for it.
ended_answer_example :
    let es =
      ending sample_messages
        (pairs Req)
        sample_http
        unix
        adaptor
        setup
        start
        3
        1
        []
        (waits_too ∷ [])
        10
        between
        (internal shutdown true) in
    ((w : ℕ → ℕ) → w 1 ≤ weight (settled sample_messages w) (es sent_request))
    × All (IsSilent sample_messages (pairs Req)) (es sent_request)
    × Serves sample_messages
        (pairs Req)
        sample_http
        unix
        adaptor
        setup
        start
        3
        1
        503
        "Can't handle your request for now"
        (process_call sample_messages sample_http adaptor
          (call_through sample_messages (pairs Req) sample_http unix adaptor setup start 3 1 es)
          0)
ended_answer_example =
    ended_answer sample_messages (pairs Req) sample_http unix adaptor setup start 3 1 []
      (waits_too ∷ []) 0 "SRV_TEST" 5 handler 7 10 between (internal shutdown true) refl refl refl
      (omega arith) between-IsQuiet tt
