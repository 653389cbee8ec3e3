-- ===== src/Server/TestServer/Asserts.antt =====
-- The assertions of the tests in src/server.rs hold of every response.
use Prim.Native.String.{◌++◌}
use pro_sa_hyper.Common.{◌≡◌, ◌∙◌, refl, ap, String, some, [], ◌∷◌, ok, arith}
use pro_sa_hyper.Prosa.{Messages}
use pro_sa_hyper.Http.{
  Family, unix, windows, other_family, product_version_header, HttpApi, Version,
}
use pro_sa_hyper.Server.Adaptor.Answers.{IsAnswer, response_builder-IsAnswer}
use pro_sa_hyper.Server.Service.{counted, Call, process_call}
use pro_sa_hyper.Server.Service.Counted.{process_call-from_result, process_call-IsAnswer}
use pro_sa_hyper.Server.TestServer.{resp_msg, test_process, test_adaptor, IsExpected}

-- The header without the name and version of the package.
abbrev system : Family → String
system unix = " (Unix)"
system windows = " (Windows)"
system other_family = ""

product_version_header-system :
    (f : Family) → product_version_header f ≡ "prosa-hyper/0.3.1" ++ system f
product_version_header-system unix = refl
product_version_header-system windows = refl
product_version_header-system other_family = refl

IsAnswer-IsExpected :
    (ha : HttpApi) (f : Family) (r : ha.Response) → IsAnswer ha f 200 r → IsExpected ha r
IsAnswer-IsExpected ha f r a = record {
  status = a.status;
  rest = system f;
  server = a.server ∙ ap some (product_version_header-system f);
}

module _ {M : Type 0} (ms : Messages M) (ha : HttpApi) (version : ha.Request → Version)
    (f : Family) where
  -- The server of the tests answers every request, at once and whatever the processor does, with a
  -- response of which the assertions of the tests hold, and which is counted under 200; its body is
  -- the greeting for the version of the request.
  answer-IsExpected :
      (c : Call ms ha (test_adaptor ms ha version f)) (req : ha.Request)
      → (r : ha.Response) × (process_call ms ha (test_adaptor ms ha version f) c req
          ≡ (ok r, counted 200 (some "HTTP/1.1") ∷ []))
        × IsExpected ha r
        × (ha.body_of r ≡ ha.full (resp_msg (version req)))
  unfolding test_adaptor test_process
  answer-IsExpected c req =
      let (r, e, a, b) =
        response_builder-IsAnswer ms ha f 200 (ha.full (resp_msg (version req))) (omega arith)
          (omega arith) in
      let ad = test_adaptor ms ha version f in
      let built = process_call-from_result ms ha ad c req (ok r) (rw e refl) in
      (r, process_call-IsAnswer ms ha ad c req f r 200 built a, IsAnswer-IsExpected ha f r a, b)
