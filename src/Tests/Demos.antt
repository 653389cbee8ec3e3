-- ===== src/Tests/Demos.antt =====
-- The adaptors of the examples and of the tests of src/server.rs at concrete requests.
use pro_sa_hyper.Common.{
  ℕ, ◌≡◌, refl, String, Option, none, some, [], ◌∷◌, true, false, ok, from_millis,
}
use text.Mathlib.Text.{◌==◌ as str_eq}
use pro_sa_hyper.Common.{if◌then◌else◌}
use pro_sa_hyper.Prosa.{Messages}
use pro_sa_hyper.Server.Adaptor.{ServerAdaptor}
use pro_sa_hyper.Server.Proc.Correlation.{IsQuiet}
use pro_sa_hyper.Http.{unix, http_11, http_2}
use pro_sa_hyper.Samples.{Carrying, Reply, messages_of}
use pro_sa_hyper.Samples.Pairs.{pairs}
use pro_sa_hyper.Samples.Fields.{Fields, fields, Asked, paths_http, paths_net, paths}
use pro_sa_hyper.Server.Service.{Call, process_call}
use pro_sa_hyper.Server.Proc.{Setup as ServerSetup, State, on_http, on_response, run}
use pro_sa_hyper.Server.EndToEnd.{call_through}
use pro_sa_hyper.Client.Socket.{ClientAdaptor, Setup, returned}
use pro_sa_hyper.Client.Socket.Exchange.{answers, exchange1, exchange2}
use pro_sa_hyper.Server.TestServer.{ServerTestAdaptor, test_adaptor, run_test}
use pro_sa_hyper.Server.TestServer.Run.{responded, run_test_passes}
use pro_sa_hyper.Examples.Server.{Demo, demo_adaptor, test_message}
use pro_sa_hyper.Examples.Server.Pages.{IsServed, test_answer}
use pro_sa_hyper.Examples.Client.{demo_client, build_transaction}
use pro_sa_hyper.Examples.RoundTrip.{status_message, home_round_trip}

abbrev messages : Messages Fields
messages = messages_of Fields

abbrev server : ServerAdaptor paths_http messages Demo
server = demo_adaptor messages paths_http paths_net fields paths unix "srv"

abbrev client : ClientAdaptor messages paths_http paths_net
client = demo_client messages paths_http paths_net fields paths unix

abbrev transaction : Fields
transaction = build_transaction messages paths_http paths_net fields paths unix

abbrev message : ℕ → Fields
message = status_message messages paths_http paths_net fields paths unix unix "srv"

abbrev asked : Asked → Fields
asked = test_message messages paths_http paths_net fields paths unix

abbrev silent : Call messages paths_http server
silent = record { id = 3; resp_tx = 1; answer = λ r. none }

abbrev home_request : Asked
home_request = record { path = "/"; method = "GET"; version = http_2 }

abbrev socket : Setup messages paths_http paths_net client
socket = record {
  socket = record {
    target = record { url = "/"; ssl = none; connect_timeout = 100 };
    is_http2 = false;
    http_timeout = from_millis 5000;
  };
  fd = 5;
  service_name = "hyper";
}

abbrev injected : Carrying Fields
injected = record { id = 0; service = "hyper"; payload = some transaction; to = 3 }

home_round_trip_example :
    (req : Asked) × (r : Reply) × (client.process_srv_request transaction "/" ≡ ok req)
    × (req.method ≡ "GET")
    × ((process_call messages paths_http server silent req).0 ≡ ok r)
    × (answers (exchange1 messages paths_http paths_net client socket injected (some (ok r)))
        ≡ returned (record injected { payload = none }) (message 200) ∷ [])
    × (answers (exchange2 messages paths_http paths_net client socket injected (some (ok r)))
        ≡ returned (record injected { payload = none }) (message 200) ∷ [])
    × (fields.get_string 1 (message 200) ≡ ok "200 OK")
home_round_trip_example =
    home_round_trip messages paths_http paths_net fields paths unix unix "srv" socket injected
      silent tt refl

abbrev table : String → Option ℕ
table s = if str_eq s "SRV_TEST" then some 7 else none

abbrev setup : ServerSetup messages (pairs (Carrying Fields))
setup = record { service_timeout = from_millis 800; service_queue = 99 }

abbrev start : State messages (pairs (Carrying Fields))
start = record { service = table; pending = [] }

abbrev test_request : Asked
test_request = record { path = "/test"; method = "POST"; version = http_11 }

-- What the service answers: its field 10 is a text.
abbrev answer : Fields
answer = fields.put_string 10 "hi" fields.default

test_answer_example :
    IsServed messages paths_http paths_net fields paths unix "srv" 200 "Body: hi\nTvfResp: fields" (
      process_call messages paths_http server
        (call_through messages
          (pairs (Carrying Fields))
          paths_http
          unix
          server
          setup
          start
          3
          1
          (λ r.
            (on_response messages
              (pairs (Carrying Fields))
              (run messages
                (pairs (Carrying Fields))
                setup
                (on_http messages (pairs (Carrying Fields)) setup start r 10 true).state
                []).state
              (10, some answer)).effects))
        test_request)
    × (fields.get_string 1 (asked test_request) ≡ ok "POST")
    × (fields.get_string 2 (asked test_request) ≡ ok "/test")
unfolding IsQuiet
test_answer_example =
    test_answer messages paths_http paths_net fields paths unix "srv" (pairs (Carrying Fields))
      setup start 3 1 test_request 7 10 [] (10, some answer) answer refl refl tt tt refl refl

abbrev test_server : ServerAdaptor paths_http messages ServerTestAdaptor
test_server = test_adaptor messages paths_http (λ r. r.version) unix

run_test_passes_example :
    run_test paths_http (λ i.
      responded paths_http
        (process_call messages paths_http test_server
          (record { id = i; resp_tx = 1; answer = λ q. none })
          home_request).0)
    ≡ some tt
run_test_passes_example =
    run_test_passes messages paths_http (λ r. r.version) unix
      (λ i. record { id = i; resp_tx = 1; answer = λ q. none }) (λ i. home_request)
