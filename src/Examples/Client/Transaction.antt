-- ===== src/Examples/Client/Transaction.antt =====
-- The transaction that examples/client.rs injects, as a request.
use pro_sa_hyper.Common.{◌≡◌, refl, ok}
use pro_sa_hyper.Prosa.{Messages}
use pro_sa_hyper.Http.{Family, HttpApi}
use pro_sa_hyper.Net.{Net}
use pro_sa_hyper.Examples.Crates.{Tvf, Web}
use pro_sa_hyper.Examples.Client.{
  request_or_error, request_to, process_srv_request, demo_client, build_transaction,
}

module _ {M : Type 0} (ms : Messages M) (ha : HttpApi) (net : Net) (tvf : Tvf M) (web : Web ha net)
    (f : Family) where
  -- The request for the root of a web server.
  pub build_transaction-request :
      (url : net.Url)
      → web.IsWeb url
      → (req : ha.Request) × ((demo_client ms ha net tvf web f).process_srv_request
            (build_transaction ms ha net tvf web f)
            url
          ≡ ok req)
        × (web.path req ≡ "/")
        × (web.method req ≡ "GET")
  unfolding demo_client process_srv_request build_transaction request_to request_or_error
  build_transaction-request url h =
      let (req, e, p, q) = web.request f url "/" ha.empty h web.IsPlain-root in
      (req, rw (tvf.get_string-put_string 1 "/" tvf.default, e) refl, p, q)
