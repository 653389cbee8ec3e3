-- ===== src/Examples/Server/Pages.antt =====
-- What a server with the adaptor of examples/server.rs answers.
use Prim.Native.String.{◌++◌}
use text.Mathlib.Text.{◌==◌}
use text.Mathlib.TextEquality.{eq_iff}
use pro_sa_hyper.Common.{
  ℕ, suc, ◌≤◌, ◌<◌, ◌≡◌, ◌≢◌, ◌∙◌, String, some, List, [], ◌∷◌, true, false, Result, ok, arith,
  refl, inl, inr, Bool-cases, if◌then◌else◌,
}
use pro_sa_hyper.Prosa.{Messages}
use pro_sa_hyper.Prosa.Pending.{PendingMsgs}
use pro_sa_hyper.Http.{Family, product_version_header, HttpApi, HttpError, srv_req, from_result}
use pro_sa_hyper.Net.{Net}
use pro_sa_hyper.Server.Adaptor.{response_builder}
use pro_sa_hyper.Server.Adaptor.Answers.{IsAnswer, response_builder-IsAnswer}
use pro_sa_hyper.Server.Service.{Metric, counted, Call, count_ok, process_call}
use pro_sa_hyper.Server.Service.Counted.{process_call-from_result, process_call-IsAnswer}
use pro_sa_hyper.Server.Proc.{Event, Setup, State, on_response, on_http, run}
use pro_sa_hyper.Server.Proc.Identifiers.{Ascending}
use pro_sa_hyper.Server.Proc.Correlation.{IsQuiet}
use pro_sa_hyper.Server.EndToEnd.{call_through, response_answer, IsAnswer-Serves}
use pro_sa_hyper.Examples.Crates.{Tvf, Web}
use pro_sa_hyper.Examples.Server.{
  Demo, demo_new, protocol_name, home, not_found, test_message, test_text, test_handler,
  demo_process, demo_adaptor,
}

module _ {M : Type 0} (ms : Messages M) (ha : HttpApi) (net : Net) (tvf : Tvf M) (web : Web ha net)
    (f : Family) (name : String) where
  -- The call ends in a response of the product, which is counted under its code.
  abbrev pub IsServed : ℕ → ha.Body → Result ha.Response (HttpError ha) × List Metric → Type 0
  IsServed code b x =
      (r : ha.Response) × (x ≡ (ok r, counted code (some "HTTP/1.1") ∷ []))
      × IsAnswer ha f code r
      × (ha.body_of r ≡ b)

  page_IsServed :
      (c : Call ms ha (demo_adaptor ms ha net tvf web f name)) (req : ha.Request) (code : ℕ)
      (b : ha.Body)
      → 100 ≤ code
      → code < 1000
      → demo_process ms ha net tvf web f (demo_new name) req
        ≡ from_result ms ha Demo (
            ha.body b (
              ha.header
                (ha.header_name "Server")
                (product_version_header f)
                (ha.status code ha.builder)))
      → IsServed code b (process_call ms ha (demo_adaptor ms ha net tvf web f name) c req)
  unfolding demo_adaptor response_builder
  page_IsServed c req code b l h p =
      let (r, e, a, d) = response_builder-IsAnswer ms ha f code b l h in
      let ad = demo_adaptor ms ha net tvf web f name in
      let built =
        process_call-from_result ms ha ad c req (ok r) (p ∙ rw (ha.header_name-server, e)) in
      (r, process_call-IsAnswer ms ha ad c req f r code built a, a, d)

  demo_process-home :
      (req : ha.Request)
      → (web.path req == "/") ≡ true
      → demo_process ms ha net tvf web f (demo_new name) req
        ≡ from_result ms ha Demo (
            ha.body (ha.full (protocol_name (web.version req) ++ (" - Home of " ++ name))) (
              ha.header
                (ha.header_name "Server")
                (product_version_header f)
                (ha.status 200 ha.builder)))
  unfolding demo_process home demo_new
  demo_process-home req e = rw (e, web.status-builder) refl

  demo_process-not_found :
      (req : ha.Request)
      → (web.path req == "/") ≡ false
      → web.path req ≢ "/test"
      → demo_process ms ha net tvf web f (demo_new name) req
        ≡ from_result ms ha Demo (
            ha.body (ha.full "Not Found") (
              ha.header
                (ha.header_name "Server")
                (product_version_header f)
                (ha.status 404 ha.builder)))
  unfolding demo_process not_found
  demo_process-not_found req e other = ground (arith, eq_iff (web.path req) "/test")

  abbrev pub page_code : ha.Request → ℕ
  page_code req = if web.path req == "/" then 200 else 404

  abbrev pub page_body : ha.Request → ha.Body
  page_body req =
      if web.path req == "/"
      then ha.full (protocol_name (web.version req) ++ (" - Home of " ++ name))
      else ha.full "Not Found"

  -- Every request for another path than "/test" is answered at once, whatever the processor does: "/"
  -- with 200 and the protocol and name of the processor, and every other path with 404, "Not Found".
  pub page_answer :
      (c : Call ms ha (demo_adaptor ms ha net tvf web f name)) (req : ha.Request)
      → web.path req ≢ "/test"
      → IsServed
          (page_code req)
          (page_body req)
          (process_call ms ha (demo_adaptor ms ha net tvf web f name) c req)
  page_answer c req other = elim (Bool-cases (web.path req == "/")) [
    | inl root ↦
        rw root (page_IsServed c req 200 _ (omega arith) (omega arith) (demo_process-home req root))
    | inr not_root ↦ rw not_root (
        page_IsServed c req 404 _ (omega arith) (omega arith)
          (demo_process-not_found req not_root other))
  ]

  module _ (pm : PendingMsgs ms.RequestMsg) (su : Setup ms pm) (st : State ms pm) (id : ℕ)
      (tx : ms.Sender) where
    test_asks :
        (req : ha.Request)
        → web.path req ≡ "/test"
        → demo_process ms ha net tvf web f (demo_new name) req
          ≡ srv_req "SRV_TEST"
              (test_message ms ha net tvf web f req)
              (test_handler ms ha net tvf web f)
    unfolding demo_process
    test_asks req e = rw e refl

    -- The handler makes a page of any payload.
    handler_IsServed :
        (x : M)
        → IsServed 200 (ha.full (test_text ms ha net tvf web f x)) (
          test_handler ms ha net tvf web f (demo_new name) (ok x),
          count_ok ms ha
              (demo_adaptor ms ha net tvf web f name)
              (test_handler ms ha net tvf web f (demo_new name) (ok x)),
        )
    handler_IsServed x =
        let (r, e, a, d) =
          response_builder-IsAnswer ms ha f 200 (ha.full (test_text ms ha net tvf web f x))
            (omega arith) (omega arith) in
        IsAnswer-Serves ms pm ha f (demo_adaptor ms ha net tvf web f name) su st id tx 200 r _ _
          (rw e refl) a d

    -- A request for "/test" is sent to the service "SRV_TEST" with its method in field 1 and its path in
    -- field 2. Where the processor forwards it and the service answers a payload, after events in
    -- between that are no answer under its identifier, let nothing expire and leave the loop running,
    -- the call is answered 200 with field 10 of that payload, or "empty body" if it has no such text,
    -- and the payload.
    pub test_answer :
        (req : ha.Request) (svc : ms.ProcService) (i : ℕ) (es : List (Event ms))
        (msg : ms.ResponseMsg) (x : M)
        → web.path req ≡ "/test"
        → ms.get_proc_service st.service "SRV_TEST" ≡ some svc
        → Ascending (suc i) es
        → IsQuiet ms pm su i
            (on_http ms pm su st
              (ms.new_request id "SRV_TEST" (test_message ms ha net tvf web f req) tx)
              i
              true).state
            es
        → ms.response_id msg ≡ i
        → ms.response_data msg ≡ some x
        → IsServed 200 (ha.full (test_text ms ha net tvf web f x)) (
            process_call ms ha
              (demo_adaptor ms ha net tvf web f name)
              (call_through ms pm ha f (demo_adaptor ms ha net tvf web f name) su st id tx (λ r.
                (on_response ms pm
                  (run ms pm su (on_http ms pm su st r i true).state es).state
                  msg).effects))
              req)
          × (tvf.get_string 1 (test_message ms ha net tvf web f req) ≡ ok (web.method req))
          × (tvf.get_string 2 (test_message ms ha net tvf web f req) ≡ ok "/test")
    unfolding demo_adaptor
    test_answer req svc i es msg x at_test known a q same p = (
      rw
          (response_answer ms pm ha f (demo_adaptor ms ha net tvf web f name) su st id tx req
            "SRV_TEST" (test_message ms ha net tvf web f req) (test_handler ms ha net tvf web f)
            (test_asks req at_test) svc i es msg x known a q same p)
          (handler_IsServed x),
      tvf.get_string-put_string_ne 1 2 "/test" _ (λ e. omega (arith, e))
          ∙ tvf.get_string-put_string 1 (web.method req) tvf.default,
      tvf.get_string-put_string 2 "/test" _,
    )
