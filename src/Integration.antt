-- ===== src/Integration.antt =====
-- The integration tests of src/tests.rs: `TestAdaptor`, which is the adaptor of their stub, their
-- server, their injector and their client.
pub mod Crates
pub mod Refused
pub mod Passes
pub mod Wiring
use text.Mathlib.Text.{◌==◌ as str_eq, starts_with}
use Prim.Native.String.{◌++◌}
use pro_sa_hyper.Common.{
  ℕ, ◌+◌, ◌%◌, ◌^◌, ◌==◌, String, Option, none, some, List, [], ◌∷◌, not, ◌||◌, Result, ok, err,
  map_err, if◌then◌else◌,
}
use pro_sa_hyper.Prosa.{Messages, ServiceError, protocol_error}
use pro_sa_hyper.Http.{
  Family, product_version_header, HttpApi, http, SrvRespHandler, HyperResp, srv_req,
}
use pro_sa_hyper.Net.{Net, TargetSetting}
use pro_sa_hyper.Server.Adaptor.{ServerAdaptor, response_builder, default_srv_error_response}
use pro_sa_hyper.Client.Socket.{ClientAdaptor}
use pro_sa_hyper.Examples.Crates.{Tvf, Web}
use pro_sa_hyper.Integration.Crates.{Numbers, Posts}

pub record TestAdaptor : Type 0 where
  pub test_type : ℕ

-- `COUNTER`, of three `AtomicU32`.
pub record Counters : Type 0 where
  pub http : ℕ
  pub https : ℕ
  pub h2 : ℕ

-- `fetch_add(1)`.
abbrev pub fetch_add : ℕ → ℕ
fetch_add n = (n + 1) % 2 ^ 32

module _ {M : Type 0} (ms : Messages M) (ha : HttpApi) (net : Net) (tvf : Tvf M) (web : Web ha net)
    (numbers : Numbers tvf) (posts : Posts ha net web) (f : Family) where
  -- The stub's answer, by the fields 1 and 2 of a request.
  abbrev pub check : Result String tvf.TvfError → Result String tvf.TvfError → Result M ServiceError
  check (err e) agent = err (protocol_error (tvf.to_string e))
  check (ok content) (err e) = err (protocol_error (tvf.to_string e))
  check (ok content) (ok agent) =
      if not (starts_with content "Hello") || not (starts_with agent "ProSA-Hyper/")
      then err (protocol_error "Invalid request content")
      else ok (tvf.put_string 1 "Hello from the stub!" tvf.default)

  -- `process_request` of the stub; the name of the service is not read.
  unfoldable pub process_request : M → Result M ServiceError
  process_request request = check (tvf.get_string 1 request) (tvf.get_string 2 request)

  -- The server's match on the scheme of its URL.
  unfoldable pub server_type : String → Result TestAdaptor ServiceError
  server_type s =
      if str_eq s "http"
      then ok (record { test_type = 0 })
      else if str_eq s "https"
      then ok (record { test_type = 1 })
      else if str_eq s "h2"
      then ok (record { test_type = 2 })
      else err (protocol_error "Unsupported scheme")

  -- `new` of the server's adaptor, by the URL of the listener.
  unfoldable pub server_new : net.Url → Result TestAdaptor ServiceError
  unfolding server_type
  server_new url = server_type (posts.scheme url)

  abbrev pub put_if : ℕ → Option String → M → M
  put_if i none m = m
  put_if i (some s) m = tvf.put_string i s m

  -- The message that the server sends for a request.
  unfoldable pub service_message : ha.Request → M
  service_message req =
      put_if 1 (posts.request_text req) (put_if 2 (posts.user_agent req) tvf.default)

  abbrev pub content_answer : Result String tvf.TvfError → Result ha.Response ha.HttpCrateError
  content_answer (ok s) = ha.body (ha.full s) (response_builder ha f 200)
  content_answer (err e) = ha.body (ha.full "Bad Request") (response_builder ha f 400)

  unfoldable pub stub_handler : SrvRespHandler ms ha TestAdaptor
  stub_handler a (ok resp) = map_err (λ x. http x) (content_answer (tvf.get_string 1 resp))
  stub_handler a (err e) = default_srv_error_response ha ms e (response_builder ha f)

  unfoldable pub server_adaptor : TestAdaptor → ServerAdaptor ha ms TestAdaptor
  unfolding service_message stub_handler
  server_adaptor a = record {
    self = a;
    build = response_builder ha f;
    process_http_request = λ req. srv_req "STUB_HTTP_SRV" (service_message req) stub_handler;
  }

  -- The message that is injected.
  unfoldable pub injected_message : M
  injected_message = tvf.put_string 1 "Hello, ProSA Hyper! This is an injected message" tvf.default

  -- The counter of a test.
  unfoldable pub count : ℕ → Counters → Result (Unit {0}) ServiceError × Counters
  count n c =
      if n == 0
      then (ok tt, record c { http = fetch_add c.http })
      else if n == 1
      then (ok tt, record c { https = fetch_add c.https })
      else if n == 2
      then (ok tt, record c { h2 = fetch_add c.h2 })
      else (err (protocol_error "Invalid response type"), c)

  abbrev pub count_given :
      Result ℕ tvf.TvfError → Counters → Result (Unit {0}) ServiceError × Counters
  count_given (ok n) c = count n c
  count_given (err e) c = (err (protocol_error (tvf.to_string e)), c)

  -- `process_response` of the injector.
  unfoldable pub process_response : M → Counters → Result (Unit {0}) ServiceError × Counters
  unfolding count
  process_response response c = count_given (numbers.get_unsigned 10 response) c

  -- The client's match on the scheme of its first backend, if it has one; its error has one text.
  unfoldable pub client_type : Option String → Result TestAdaptor (Unit {0})
  client_type none = err tt
  client_type (some s) =
      if str_eq s "http"
      then ok (record { test_type = 0 })
      else if str_eq s "https"
      then ok (record { test_type = 1 })
      else if str_eq s "h2"
      then ok (record { test_type = 2 })
      else err tt

  -- `new` of the client's adaptor.
  unfoldable pub client_new : List (TargetSetting net) → Result TestAdaptor (Unit {0})
  unfolding client_type
  client_new [] = client_type none
  client_new (t ∷ ts) = client_type (some (posts.scheme t.url))

  abbrev pub built : Result ha.Request ha.HttpCrateError → Result ha.Request ServiceError
  built (ok r) = ok r
  built (err e) = err (protocol_error ("Failed to build request: " ++ web.http_text e))

  abbrev pub post_of : net.Url → Result String tvf.TvfError → Result ha.Request ServiceError
  post_of url (err e) = err (protocol_error (tvf.to_string e))
  post_of url (ok content) = built (
      web.request_body (ha.full content) (
        web.request_header "User-Agent" (product_version_header f)
          (web.uri (web.as_str url) (posts.request_method "POST" web.request_builder))))

  abbrev pub read_text : TestAdaptor → Option String → Result M ServiceError
  read_text a none = err (protocol_error "Failed to read response body")
  read_text a (some s) = ok (numbers.put_unsigned 10 a.test_type (tvf.put_string 1 s tvf.default))

  unfoldable pub process_http_response :
      TestAdaptor → Result ha.Response ha.HyperCrateError → Result M ServiceError
  process_http_response a (ok r) = read_text a (posts.response_text r)
  process_http_response a (err e) = err (protocol_error ("HTTP error: " ++ web.hyper_text e))

  unfoldable pub client_adaptor : TestAdaptor → ClientAdaptor ms ha net
  unfolding process_http_response
  client_adaptor a = record {
    process_srv_request = λ m url. post_of url (tvf.get_string 1 m);
    process_http_response = process_http_response a;
  }
