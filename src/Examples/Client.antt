-- ===== src/Examples/Client.antt =====
-- The adaptor of examples/client.rs, `HyperDemoAdaptor`: of the client's sockets, and of the
-- processor that injects transactions.
pub mod Transaction
use Prim.Native.String.{◌++◌}
use pro_sa_hyper.Common.{String, Result, ok, err}
use pro_sa_hyper.Prosa.{Messages, ServiceError, protocol_error}
use pro_sa_hyper.Http.{Family, product_version_header, HttpApi}
use pro_sa_hyper.Net.{Net}
use pro_sa_hyper.Client.Socket.{ClientAdaptor}
use pro_sa_hyper.Examples.Crates.{Tvf, Web}

module _ {M : Type 0} (ms : Messages M) (ha : HttpApi) (net : Net) (tvf : Tvf M) (web : Web ha net)
    (f : Family) where
  request_or_error : Result ha.Request ha.HttpCrateError → Result ha.Request ServiceError
  request_or_error (ok r) = ok r
  request_or_error (err e) = err (protocol_error ("Failed to build request: " ++ web.http_text e))

  request_to : net.Url → Result String tvf.TvfError → Result ha.Request ServiceError
  unfolding request_or_error
  request_to url (err e) = err (protocol_error (tvf.to_string e))
  request_to url (ok path) = request_or_error (
      web.request_body ha.empty (
        web.request_header "User-Agent" (product_version_header f)
          (web.uri (web.as_str (web.set_path path url)) web.request_builder)))

  unfoldable pub process_srv_request : M → net.Url → Result ha.Request ServiceError
  unfolding request_to
  process_srv_request request url = request_to url (tvf.get_string 1 request)

  unfoldable pub process_http_response :
      Result ha.Response ha.HyperCrateError → Result M ServiceError
  process_http_response (ok r) =
      ok (tvf.put_string 1 (web.status_text (ha.status_of r)) tvf.default)
  process_http_response (err e) = err (protocol_error ("HTTP error: " ++ web.hyper_text e))

  unfoldable pub demo_client : ClientAdaptor ms ha net
  demo_client = record {
    process_srv_request = process_srv_request;
    process_http_response = process_http_response;
  }

  -- The transaction that is injected.
  unfoldable pub build_transaction : M
  build_transaction = tvf.put_string 1 "/" tvf.default
