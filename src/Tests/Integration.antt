-- ===== src/Tests/Integration.antt =====
-- The integration tests at a concrete exchange.
use pro_sa_hyper.Common.{
  ◌↔◌, ℕ, ◌≡◌, refl, String, Option, none, some, [], ◌∷◌, true, false, ok, from_millis,
  if◌then◌else◌,
}
use text.Mathlib.Text.{◌==◌ as str_eq}
use pro_sa_hyper.Prosa.{Messages, protocol_error}
use pro_sa_hyper.Http.{unix}
use pro_sa_hyper.Samples.{Carrying, Failing, Reply, messages_of}
use pro_sa_hyper.Samples.Pairs.{pairs}
use pro_sa_hyper.Samples.Fields.{paths_net}
use pro_sa_hyper.Samples.Posts.{Message, Posted, values, numbers, makes, posted_http, posted, posts}
use pro_sa_hyper.Server.Settings as Server
use pro_sa_hyper.Server.Settings.{new_server_settings, default_settings}
use pro_sa_hyper.Client.Proc.{create_sockets, add_backend, new_settings}
use pro_sa_hyper.Client.Socket.{new}
use pro_sa_hyper.Server.Service.{counted, process_call}
use pro_sa_hyper.Server.Proc.{Setup as ServerSetup, State, on_http, on_error, run}
use pro_sa_hyper.Server.Proc.Correlation.{IsQuiet}
use pro_sa_hyper.Server.EndToEnd.{call_through}
use pro_sa_hyper.Client.Socket.{Setup, returned}
use pro_sa_hyper.Client.Socket.Exchange.{answers, exchange1, exchange2}
use pro_sa_hyper.Integration.{
  TestAdaptor, Counters, client_type, count, check, process_request, service_message,
  injected_message, process_response, client_new, server_new, client_adaptor,
}
use pro_sa_hyper.Integration.Refused.{client, injected}
use pro_sa_hyper.Integration.Wiring.{
  IsTest, HttpTestSettings, test_settings, settings_with, test_settings_agree,
}
use pro_sa_hyper.Integration.Passes.{empty_answer, server, refusal_counts}

abbrev messages : Messages Message
messages = messages_of Message

abbrev adaptor : TestAdaptor
adaptor = record { test_type = 0 }

abbrev counters : Counters
counters = record { http = 4294967295; https = 0; h2 = 0 }

-- The first count wraps.
count-wraps :
    count messages posted_http paths_net values posted numbers posts unix 0 counters
    ≡ (ok tt, record counters { http = 0 })
unfolding count
count-wraps = refl

-- The stub takes a message whose `User-Agent` is in its case.
stub_takes :
    check messages posted_http paths_net values posted numbers posts unix
      (ok "Hello")
      (ok "ProSA-Hyper/0.3.1")
    ≡ ok (values.put_string 1 "Hello from the stub!" values.default)
stub_takes = refl

abbrev table : String → Option ℕ
table s = if str_eq s "STUB_HTTP_SRV" then some 7 else none

abbrev setup : ServerSetup messages (pairs (Carrying Message))
setup = record { service_timeout = from_millis 1000; service_queue = 99 }

abbrev start : State messages (pairs (Carrying Message))
start = record { service = table; pending = [] }

abbrev socket :
    Setup messages posted_http paths_net
      (client messages posted_http paths_net values posted numbers posts unix adaptor)
socket = record {
  socket = record {
    target = record { url = "/"; ssl = none; connect_timeout = 100 };
    is_http2 = false;
    http_timeout = from_millis 5000;
  };
  fd = 5;
  service_name = "HTTP_CLIENT_SRV";
}

abbrev asking : Carrying Message
asking = record {
  id = 0;
  service = "HTTP_CLIENT_SRV";
  payload = some (injected messages posted_http paths_net values posted numbers posts unix);
  to = 3;
}

abbrev request : Posted
request = record {
  path = "/";
  method = "POST";
  agent = some "prosa-hyper/0.3.1 (Unix)";
  content = "Hello, ProSA Hyper! This is an injected message";
}

abbrev refusal : Failing Message
refusal = record { id = 10; payload = none; reason = protocol_error "Invalid request content" }

refusal_counts_example :
    (refusal.reason ≡ protocol_error "Invalid request content")
    × (r : Reply) × (process_call messages posted_http
          (server messages posted_http paths_net values posted numbers posts unix adaptor)
          (call_through messages
            (pairs (Carrying Message))
            posted_http
            unix
            (server messages posted_http paths_net values posted numbers posts unix adaptor)
            setup
            start
            3
            1
            (λ q.
              (on_error messages
                (pairs (Carrying Message))
                (run messages
                  (pairs (Carrying Message))
                  setup
                  (on_http messages (pairs (Carrying Message)) setup start q 10 true).state
                  []).state
                refusal).effects))
          request
        ≡ (ok r, counted 502 (some "HTTP/1.1") ∷ []))
    × (answers (
          exchange1 messages posted_http paths_net
            (client messages posted_http paths_net values posted numbers posts unix adaptor)
            socket
            asking
            (some (ok r)))
        ≡ returned
            (record asking { payload = none })
            (empty_answer messages posted_http paths_net values posted numbers posts unix adaptor)
          ∷ [])
    × (answers (
          exchange2 messages posted_http paths_net
            (client messages posted_http paths_net values posted numbers posts unix adaptor)
            socket
            asking
            (some (ok r)))
        ≡ returned
            (record asking { payload = none })
            (empty_answer messages posted_http paths_net values posted numbers posts unix adaptor)
          ∷ [])
    × (process_response messages posted_http paths_net values posted numbers posts unix
          (empty_answer messages posted_http paths_net values posted numbers posts unix adaptor)
          counters
        ≡ count messages posted_http paths_net values posted numbers posts unix 0 counters)
    × ((count messages posted_http paths_net values posted numbers posts unix 0 counters).0 ≡ ok tt)
unfolding client_new client_type client_adaptor injected_message process_request service_message
    IsQuiet
refusal_counts_example =
    refusal_counts messages posted_http paths_net values posted numbers posts unix
      (pairs (Carrying Message)) setup start 3 1 adaptor adaptor socket asking request [] counters 7
      10 [] refusal refl tt refl refl refl tt tt refl refl

abbrev server_settings : Server.Settings paths_net
server_settings = record { listener = makes.listener "/" none; service_timeout = from_millis 1000 }

abbrev given : HttpTestSettings paths_net makes
given =
    settings_with messages posted_http paths_net values posted numbers posts unix makes "/" none
      server_settings

test_settings_agree_example :
    ((a : TestAdaptor)
      → ((server_new messages posted_http paths_net values posted numbers posts unix "/" ≡ ok a)
          ↔ IsTest "http" a.test_type)
        × ((client_new messages posted_http paths_net values posted numbers posts unix
                (makes.target "/" none ∷ [])
              ≡ ok a)
            ↔ IsTest "http" a.test_type))
    × (create_sockets paths_net (makes.target "/" none ∷ []) 1 5000
        ≡ new paths_net (makes.target "/" none) 5000 ∷ [])
    × (given.inj ≡ given.client.service_name)
unfolding test_settings new_server_settings default_settings add_backend new_settings
test_settings_agree_example =
    test_settings_agree messages posted_http paths_net values posted numbers posts unix makes none
      "/" none none given refl
