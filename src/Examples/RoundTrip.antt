-- ===== src/Examples/RoundTrip.antt =====
-- A transaction of examples/client.rs through a socket to a server of examples/server.rs and back.
use pro_sa_hyper.Common.{ℕ, ◌≡◌, ◌≢◌, ◌∙◌, sym, ap, refl, String, some, [], ◌∷◌, ok, arith}
use text.Mathlib.TextEquality.{eq_iff}
use pro_sa_hyper.Prosa.{Messages}
use pro_sa_hyper.Http.{Family, HttpApi}
use pro_sa_hyper.Net.{Net}
use pro_sa_hyper.Server.Service.{Call, process_call}
use pro_sa_hyper.Client.Socket.{Setup, returned}
use pro_sa_hyper.Client.Socket.Exchange.{
  answers, exchange1, exchange2, exchange_same, exchange_answer,
}
use pro_sa_hyper.Examples.Crates.{Tvf, Web}
use pro_sa_hyper.Examples.Server.{demo_adaptor}
use pro_sa_hyper.Examples.Server.Pages.{page_answer, page_code}
use pro_sa_hyper.Examples.Client.{process_http_response, demo_client, build_transaction}
use pro_sa_hyper.Examples.Client.Transaction.{build_transaction-request}

module _ {M : Type 0} (ms : Messages M) (ha : HttpApi) (net : Net) (tvf : Tvf M) (web : Web ha net)
    (f g : Family) (name : String) where
  -- The payload for a response with the given code.
  abbrev pub status_message : ℕ → M
  status_message code = tvf.put_string 1 (web.status_text code) tvf.default

  -- The injected transaction, given to a socket of the client for a web server, becomes a GET of "/";
  -- the server's answer to that, whatever its processor does, comes back over HTTP/1.1 and over
  -- HTTP/2 as the one answer to the request: a payload with the text of the status 200 in field 1.
  pub home_round_trip :
      (su : Setup ms ha net (demo_client ms ha net tvf web f)) (m : ms.RequestMsg)
      (c : Call ms ha (demo_adaptor ms ha net tvf web g name))
      → web.IsWeb su.socket.target.url
      → (ms.take_data m).0 ≡ some (build_transaction ms ha net tvf web f)
      → (req : ha.Request) × (r : ha.Response) × ((demo_client ms ha net tvf web
              f).process_srv_request
            (build_transaction ms ha net tvf web f)
            su.socket.target.url
          ≡ ok req)
        × (web.method req ≡ "GET")
        × ((process_call ms ha (demo_adaptor ms ha net tvf web g name) c req).0 ≡ ok r)
        × (answers (exchange1 ms ha net (demo_client ms ha net tvf web f) su m (some (ok r)))
            ≡ returned (ms.take_data m).1 (status_message 200) ∷ [])
        × (answers (exchange2 ms ha net (demo_client ms ha net tvf web f) su m (some (ok r)))
            ≡ returned (ms.take_data m).1 (status_message 200) ∷ [])
        × (tvf.get_string 1 (status_message 200) ≡ ok (web.status_text 200))
  unfolding demo_client process_http_response
  home_round_trip su m c h taken =
      let ad = demo_client ms ha net tvf web f in
      let (req, asked, at_root, get) =
        build_transaction-request ms ha net tvf web f su.socket.target.url h in
      let (r, served, a, b) = page_answer ms ha net tvf web g name c req (at_root_ne req at_root) in
      let back =
        exchange_answer ms ha net ad su m (build_transaction ms ha net tvf web f)
          (status_message 200) req r taken asked
          (ap (λ n. ok (status_message n)) (a.status ∙ root_code req at_root)) in
      (
        req,
        r,
        asked,
        get,
        ap (λ x. x.0) served,
        back,
        sym (exchange_same ms ha net ad su m (some (ok r))).0 ∙ back,
        tvf.get_string-put_string 1 (web.status_text 200) tvf.default,
      )
    where
      at_root_ne : (req : ha.Request) → web.path req ≡ "/" → web.path req ≢ "/test"
      at_root_ne req p q = ground (arith, (eq_iff "/" "/test").1 (sym p ∙ q))

      root_code :
          (req : ha.Request) → web.path req ≡ "/" → page_code ms ha net tvf web g name req ≡ 200
      root_code req p = rw p refl
