-- ===== src/Server/Service/Hello.antt =====
-- The HTTP service with the hello adaptor of src/server/adaptor.rs.
use Prim.Native.String.{◌++◌}
use pro_sa_hyper.Common.{◌≡◌, String, some, [], ◌∷◌, ok, arith}
use pro_sa_hyper.Prosa.{Messages}
use pro_sa_hyper.Http.{Family, HttpApi}
use pro_sa_hyper.Server.Adaptor.{hello_adaptor, response_builder}
use pro_sa_hyper.Server.Adaptor.Answers.{IsAnswer, response_builder-IsAnswer}
use pro_sa_hyper.Server.Service.{counted, Call, process_call}
use pro_sa_hyper.Server.Service.Counted.{process_call-from_result, process_call-IsAnswer}

module _ {M : Type 0} (ms : Messages M) (ha : HttpApi) (f : Family) (name : String)
    (c : Call ms ha (hello_adaptor ha ms f name)) (req : ha.Request) where
  hello_built :
      (r : ha.Response)
      → ha.body (ha.full ("Hello from " ++ name)) (response_builder ha f 200) ≡ ok r
      → (process_call ms ha (hello_adaptor ha ms f name) c req).0 ≡ ok r
  unfolding hello_adaptor response_builder
  hello_built r e =
      process_call-from_result ms ha (hello_adaptor ha ms f name) c req (ok r)
        (rw (ha.header_name-server, e))

  -- A server with the hello adaptor answers every request 200 with the processor's name, counts it,
  -- and takes no notice of what comes back from the processor.
  hello_answer :
      (r : ha.Response) × (process_call ms ha (hello_adaptor ha ms f name) c req
        ≡ (ok r, counted 200 (some "HTTP/1.1") ∷ []))
      × IsAnswer ha f 200 r
      × (ha.body_of r ≡ ha.full ("Hello from " ++ name))
  hello_answer =
      let (r, e, a, b) =
        response_builder-IsAnswer ms ha f 200 (ha.full ("Hello from " ++ name)) (omega arith)
          (omega arith) in
      let built = hello_built r e in
      (r, process_call-IsAnswer ms ha (hello_adaptor ha ms f name) c req f r 200 built a, a, b)
