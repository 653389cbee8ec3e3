-- ===== src/Server/TestServer.antt =====
-- The server of the tests in src/server.rs: its adaptor, and what they assert of each response.
pub mod Asserts
pub mod Run
use Prim.Native.String.{◌++◌}
use text.Mathlib.Text.{starts_with}
use pro_sa_hyper.Common.{
  ℕ, zero, suc, ◌≡◌, String, Option, none, some, Bool, true, false, ◌&&◌, ◌==◌,
}
use pro_sa_hyper.Prosa.{Messages}
use pro_sa_hyper.Http.{
  Family, HttpApi, Version, http_11, http_2, http_3, other_version, HyperResp, from_result,
}
use pro_sa_hyper.Server.Adaptor.{ServerAdaptor, response_builder}

-- `ServerTestAdaptor`.
pub data ServerTestAdaptor : Type 0 where
  server_test_adaptor : ServerTestAdaptor

abbrev pub resp_msg : Version → String
resp_msg http_2 = "Hello, H2 world"
resp_msg http_11 = "Hello, world"
resp_msg http_3 = "Hello, world"
resp_msg other_version = "Hello, world"

-- `version` is `Request::version`.
module _ {M : Type 0} (ms : Messages M) (ha : HttpApi) (version : ha.Request → Version)
    (f : Family) where
  test_process : ha.Request → HyperResp ms ha ServerTestAdaptor
  test_process req =
      from_result ms ha ServerTestAdaptor
        (ha.body (ha.full (resp_msg (version req))) (response_builder ha f 200))

  unfoldable pub test_adaptor : ServerAdaptor ha ms ServerTestAdaptor
  unfolding test_process
  test_adaptor = record {
    self = server_test_adaptor;
    build = response_builder ha f;
    process_http_request = test_process;
  }

-- What `run_test` asserts of a response: its status is 200, and its `Server` header starts with the
-- name and version of the package.
pub record IsExpected (ha : HttpApi) (r : ha.Response) : Type 0 where
  pub status : ha.status_of r ≡ 200
  pub rest : String
  pub server : ha.get_header ha.server r ≡ some ("prosa-hyper/0.3.1" ++ rest)

-- The assertions, as `run_test` evaluates them; a header that is there is a text.
abbrev pub is_ours : Option String → Bool
is_ours none = false
is_ours (some s) = starts_with s "prosa-hyper/0.3.1"

module _ (ha : HttpApi) where
  unfoldable pub asserts : ha.Response → Bool
  asserts r = ha.status_of r == 200 && is_ours (ha.get_header ha.server r)

  -- The next requests of the loop, by their number, up to a panic (`none`). The response to each is
  -- given by its place, with none where it cannot be sent.
  unfoldable pub requests : (ℕ → Option ha.Response) → ℕ → ℕ → Option (Unit {0})
  unfolding asserts
  requests get zero i = some tt
  requests get (suc n) i =
      let rest = requests get n (suc i) in
      elim (get i) [ none ↦ none | some r ↦ elim (asserts r) [ true ↦ rest | false ↦ none ] ]

  -- `for _i in 0..20`.
  unfoldable pub run_test : (ℕ → Option ha.Response) → Option (Unit {0})
  unfolding requests
  run_test get = requests get 20 0
