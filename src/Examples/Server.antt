-- ===== src/Examples/Server.antt =====
-- The adaptor of examples/server.rs, `HyperDemoAdaptor`.
pub mod Pages
use Prim.Native.String.{◌++◌}
use text.Mathlib.Text.{◌==◌}
use pro_sa_hyper.Common.{String, Bool, true, false, Result, ok, err, map_err, if◌then◌else◌}
use pro_sa_hyper.Prosa.{Messages}
use pro_sa_hyper.Http.{
  Family, product_version_header, HttpApi, Version, http_11, http_2, http_3, other_version,
  HttpError, http, SrvRespHandler, HyperResp, srv_req, from_result,
}
use pro_sa_hyper.Net.{Net}
use pro_sa_hyper.Server.Adaptor.{ServerAdaptor, response_builder, default_srv_error_response}
use pro_sa_hyper.Examples.Crates.{Tvf, Web}

pub record Demo : Type 0 where
  pub prosa_name : String

unfoldable pub demo_new : String → Demo
demo_new name = record { prosa_name = name }

-- The text for `req.version() == hyper::Version::HTTP_2` and otherwise.
abbrev pub protocol_name : Version → String
protocol_name http_2 = "H2"
protocol_name http_11 = "HTTP/1.1"
protocol_name http_3 = "HTTP/1.1"
protocol_name other_version = "HTTP/1.1"

module _ {M : Type 0} (ms : Messages M) (ha : HttpApi) (net : Net) (tvf : Tvf M) (web : Web ha net)
    (f : Family) where
  open ha use {Request, Response, Builder, builder, status, header, body, full, header_name}

  -- The page at "/".
  pub home : Demo → Request → Result Response ha.HttpCrateError
  home d req =
      body (full (protocol_name (web.version req) ++ (" - Home of " ++ d.prosa_name)))
        (header (header_name "Server") (product_version_header f) builder)

  pub not_found : Result Response ha.HttpCrateError
  not_found =
      body (full "Not Found")
        (header (header_name "Server") (product_version_header f) (status 404 builder))

  -- The message for the service, the text of its answer and the handler of it, for "/test".
  abbrev pub test_message : Request → M
  test_message req = tvf.put_string 2 "/test" (tvf.put_string 1 (web.method req) tvf.default)

  abbrev pub text_or_empty : Result String tvf.TvfError → String
  text_or_empty (ok s) = s
  text_or_empty (err e) = "empty body"

  abbrev pub test_text : M → String
  test_text resp =
      "Body: " ++ (text_or_empty (tvf.get_string 10 resp) ++ ("\nTvfResp: " ++ tvf.debug resp))

  abbrev pub test_handler : SrvRespHandler ms ha Demo
  test_handler d (ok resp) =
      map_err (λ x. http x) (body (full (test_text resp)) (response_builder ha f 200))
  test_handler d (err e) = default_srv_error_response ha ms e (response_builder ha f)

  pub demo_process : Demo → Request → HyperResp ms ha Demo
  unfolding home not_found
  demo_process d req =
      if web.path req == "/"
      then from_result ms ha Demo (home d req)
      else if web.path req == "/test"
      then srv_req "SRV_TEST" (test_message req) test_handler
      else from_result ms ha Demo not_found

  -- The adaptor of a processor with the given name.
  unfoldable pub demo_adaptor : String → ServerAdaptor ha ms Demo
  unfolding demo_process
  demo_adaptor name = record {
    self = demo_new name;
    build = response_builder ha f;
    process_http_request = demo_process (demo_new name);
  }
