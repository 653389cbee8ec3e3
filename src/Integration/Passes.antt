-- ===== src/Integration/Passes.antt =====
-- A whole exchange of the tests of src/tests.rs, from the injector through the client and the server
-- to the stub and back.
use pro_sa_hyper.Common.{
  ℕ, ◌≡◌, ◌∙◌, sym, refl, some, List, [], ◌∷◌, true, Result, ok, err, arith, suc,
}
use pro_sa_hyper.Prosa.{Messages, ServiceError, protocol_error}
use pro_sa_hyper.Prosa.Pending.{PendingMsgs}
use pro_sa_hyper.Http.{Family, HttpApi}
use pro_sa_hyper.Net.{Net, TargetSetting}
use pro_sa_hyper.Server.Service.{counted, process_call}
use pro_sa_hyper.Server.Proc as Server
use pro_sa_hyper.Server.Proc.{State, on_http, on_error, run}
use pro_sa_hyper.Server.Proc.Identifiers.{Ascending}
use pro_sa_hyper.Server.Proc.Correlation.{IsQuiet}
use pro_sa_hyper.Server.Adaptor.{ServerAdaptor}
use pro_sa_hyper.Server.EndToEnd.{call_through, error_answer}
use pro_sa_hyper.Client.Socket as Client
use pro_sa_hyper.Client.Socket.{returned}
use pro_sa_hyper.Client.Socket.Exchange.{
  answers, exchange1, exchange2, exchange_same, exchange_answer,
}
use pro_sa_hyper.Examples.Crates.{Tvf, Web}
use pro_sa_hyper.Integration.{
  TestAdaptor, Counters, client_type, count, process_request, server_adaptor, stub_handler,
  process_response, client_new, process_http_response, client_adaptor,
}
use pro_sa_hyper.Integration.Crates.{Numbers, Posts}
use pro_sa_hyper.Integration.Refused.{client, injected, sent_message, process_request-injected}

module _ {M : Type 0} (ms : Messages M) (ha : HttpApi) (net : Net) (tvf : Tvf M) (web : Web ha net)
    (numbers : Numbers tvf) (posts : Posts ha net web) (f : Family) where
  -- The payload that the client makes of an empty response.
  abbrev pub empty_answer : TestAdaptor → M
  empty_answer a = numbers.put_unsigned 10 a.test_type (tvf.put_string 1 "" tvf.default)

  err_same : (x y : ServiceError) → ◌≡◌ {A = Result M ServiceError} (err x) (err y) → x ≡ y
  err_same x y h = ground arith

  counted_as :
      (a : TestAdaptor) (c : Counters)
      → process_response ms ha net tvf web numbers posts f (empty_answer a) c
        ≡ count ms ha net tvf web numbers posts f a.test_type c
  unfolding process_response
  counted_as a c =
      rw (numbers.get_unsigned-put_unsigned 10 a.test_type (tvf.put_string 1 "" tvf.default)) refl

  -- The adaptor of a client that starts has the number of one of the three tests.
  counts :
      (ts : List (TargetSetting net)) (a : TestAdaptor) (c : Counters)
      → client_new ms ha net tvf web numbers posts f ts ≡ ok a
      → (count ms ha net tvf web numbers posts f a.test_type c).0 ≡ ok tt
  unfolding client_new count client_type
  counts [] a c h = ground arith
  counts (t ∷ ts) a c h = ground arith

  read_empty :
      (a : TestAdaptor) (r : ha.Response)
      → ha.body_of r ≡ ha.empty
      → process_http_response ms ha net tvf web numbers posts f a (ok r) ≡ ok (empty_answer a)
  unfolding process_http_response
  read_empty a r h = rw (posts.response_text-empty r h) refl

  abbrev pub server : TestAdaptor → ServerAdaptor ha ms TestAdaptor
  server = server_adaptor ms ha net tvf web numbers posts f

  module _ (pm : PendingMsgs ms.RequestMsg) (su : Server.Setup ms pm) (st : State ms pm) (id : ℕ)
      (tx : ms.Sender) (a b : TestAdaptor)
      (k : Client.Setup ms ha net (client ms ha net tvf web numbers posts f a)) (m : ms.RequestMsg)
      (req : ha.Request) where
    -- Let a client of the tests start, and the server that it posts the injected message to know the
    -- service of the stub; and let the stub give back an error that its adaptor makes of the message
    -- that it gets, under that message's identifier, after any events in between that are no answer
    -- under it, let nothing expire and leave the loop running, the identifiers given in between being
    -- greater. Then that error refuses the content, and the server answers 502; the client makes a payload of that answer,
    -- over HTTP/1.1 and over HTTP/2, and the injector counts it, without an error, for the test.
    pub refusal_counts :
        (ts : List (TargetSetting net)) (c : Counters) (svc : ms.ProcService) (i : ℕ)
        (es : List (Server.Event ms)) (msg : ms.ErrorMsg)
        → client_new ms ha net tvf web numbers posts f (k.socket.target ∷ ts) ≡ ok a
        → web.IsWeb k.socket.target.url
        → (ms.take_data m).0 ≡ some (injected ms ha net tvf web numbers posts f)
        → (client ms ha net tvf web numbers posts f a).process_srv_request
            (injected ms ha net tvf web numbers posts f)
            k.socket.target.url
          ≡ ok req
        → ms.get_proc_service st.service "STUB_HTTP_SRV" ≡ some svc
        → Ascending (suc i) es
        → IsQuiet ms pm su i
            (on_http ms pm su st
              (ms.new_request id "STUB_HTTP_SRV"
                (sent_message ms ha net tvf web numbers posts f req)
                tx)
              i
              true).state
            es
        → ms.error_id msg ≡ i
        → process_request ms ha net tvf web numbers posts f
            (sent_message ms ha net tvf web numbers posts f req)
          ≡ err (ms.into_err msg)
        → (ms.into_err msg ≡ protocol_error "Invalid request content")
          × (r : ha.Response) × (process_call ms ha
                (server b)
                (call_through ms pm ha f (server b) su st id tx (λ q.
                  (on_error ms pm
                    (run ms pm su (on_http ms pm su st q i true).state es).state
                    msg).effects))
                req
              ≡ (ok r, counted 502 (some "HTTP/1.1") ∷ []))
          × (answers
                (exchange1 ms ha net (client ms ha net tvf web numbers posts f a) k m (some (ok r)))
              ≡ returned (ms.take_data m).1 (empty_answer a) ∷ [])
          × (answers
                (exchange2 ms ha net (client ms ha net tvf web numbers posts f a) k m (some (ok r)))
              ≡ returned (ms.take_data m).1 (empty_answer a) ∷ [])
          × (process_response ms ha net tvf web numbers posts f (empty_answer a) c
              ≡ count ms ha net tvf web numbers posts f a.test_type c)
          × ((count ms ha net tvf web numbers posts f a.test_type c).0 ≡ ok tt)
    unfolding client_adaptor server_adaptor stub_handler
    refusal_counts ts c svc i es msg starts w taken asked known asc quiet same stub =
        let refused =
          process_request-injected ms ha net tvf web numbers posts f a k.socket.target.url req w
            asked in
        let (r, served, x, body) =
          error_answer ms pm ha f (server b) su st id tx req "STUB_HTTP_SRV"
            (sent_message ms ha net tvf web numbers posts f req)
            (stub_handler ms ha net tvf web numbers posts f) refl svc i es msg (λ e. refl) known asc
            quiet same in
        let why = err_same _ _ (sym stub ∙ refused) in
        let back =
          exchange_answer ms ha net (client ms ha net tvf web numbers posts f a) k m
            (injected ms ha net tvf web numbers posts f) (empty_answer a) req r taken asked
            (read_empty a r (rw why at body)) in
        (
          why,
          r,
          rw why at served,
          back,
          sym
                (exchange_same ms ha net (client ms ha net tvf web numbers posts f a) k m
                  (some (ok r))).0
              ∙ back,
          counted_as a c,
          counts (k.socket.target ∷ ts) a c starts,
        )
