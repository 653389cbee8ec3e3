-- ===== src/Server/Adaptor.antt =====
-- The server's adaptors: the trait `HyperServerAdaptor`, the default answer to a service error and
-- the hello adaptor, of src/server/adaptor.rs.
pub mod Answers
use Prim.Native.String.{◌++◌}
use pro_sa_hyper.Common.{ℕ, String, Result, ok, err, map_err}
use pro_sa_hyper.Prosa.{
  Messages, ServiceError, no_error, unable_to_reach_service, timeout, protocol_error,
}
use pro_sa_hyper.Http.{
  Family, product_version_header, HttpApi, HttpError, http, HyperResp, from_result,
}

module _ (ha : HttpApi) where
  open ha use {
    Request, Response, Builder, builder, status, header, body, full, empty, server, header_name,
  }

  -- The default method `response_builder` of the trait.
  unfoldable pub response_builder : Family → ℕ → Builder
  response_builder f code = header server (product_version_header f) (status code builder)

  -- A value of type `A` that implements the trait, with its methods.
  pub record ServerAdaptor {M : Type 0} (ms : Messages M) (A : Type 0) : Type 0 where
    pub self : A
    pub build : ℕ → Builder
    pub process_http_request : Request → HyperResp ms ha A

  default_error_answer : ServiceError → (ℕ → Builder) → Result Response ha.HttpCrateError
  default_error_answer (no_error s) build = body empty (build 202)
  default_error_answer (unable_to_reach_service s) build =
      body (full "Can't reach service") (build 503)
  default_error_answer (timeout s t) build = body empty (build 504)
  default_error_answer (protocol_error s) build = body empty (build 502)

  unfoldable pub default_srv_error_response :
      {M : Type 0} (ms : Messages M) → ms.ErrorMsg → (ℕ → Builder) → Result Response (HttpError ha)
  unfolding default_error_answer
  default_srv_error_response ms e build =
      map_err (λ x. http x) (default_error_answer (ms.get_err e) build)

  -- `HelloHyperServerAdaptor`.
  pub record Hello : Type 0 where
    pub hello_msg : String

  hello_new : String → Hello
  hello_new name = record { hello_msg = "Hello from " ++ name }

  hello_process : {M : Type 0} (ms : Messages M) → Family → Hello → Request → HyperResp ms ha Hello
  hello_process ms f h req = from_result ms ha Hello (
      body (full h.hello_msg)
        (header (header_name "Server") (product_version_header f) (status 200 builder)))

  -- The hello adaptor of a processor with the given name.
  unfoldable pub hello_adaptor :
      {M : Type 0} (ms : Messages M) → Family → String → ServerAdaptor ms Hello
  unfolding hello_new hello_process
  hello_adaptor ms f name = record {
    self = hello_new name;
    build = response_builder f;
    process_http_request = hello_process ms f (hello_new name);
  }
