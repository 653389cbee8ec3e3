-- ===== src/Server/Service.antt =====
-- The service that hyper calls for each HTTP request: `HyperService` of src/server/service.rs.
pub mod Counted
pub mod Hello
use pro_sa_hyper.Common.{ℕ, String, Option, none, some, List, [], ◌∷◌, Result, ok, err, map_err}
use pro_sa_hyper.Prosa.{
  Messages, InternalMsg, request, response, error, command, config, service, shutdown,
}
use pro_sa_hyper.Http.{
  Version, hyper_version_str, HttpApi, HttpError, http, SrvRespHandler, HyperResp, srv_req,
  http_resp, http_err,
}
use pro_sa_hyper.Server.Adaptor.{ServerAdaptor}

-- One addition to the counter `prosa_hyper_srv_count`, with its attributes `code` and `version`.
pub data Metric : Type 0 where
  counted : ℕ → Option String → Metric

module _ {M : Type 0} (ms : Messages M) (ha : HttpApi) {A : Type 0}
    (ad : ServerAdaptor ha ms A) where
  open ms use {RequestMsg, Sender, new_request, response_data}
  open ha use {Response, body, full, empty, status_of, version_of}

  -- What the service needs for a call: the number of the next request, the sending end of the
  -- channel made for its answer, and what the channel gives for the request sent to the processor's
  -- queue (`none` if its sender is dropped, or the processor is gone).
  pub record Call : Type 0 where
    pub id : ℕ
    pub resp_tx : Sender
    pub answer : RequestMsg → Option (InternalMsg ms)

  internal_error : Result Response (HttpError ha)
  internal_error = map_err (λ x. http x) (body empty (ad.build 500))

  answered : SrvRespHandler ms ha A → Option M → Result Response (HttpError ha)
  unfolding internal_error
  answered handler none = internal_error
  answered handler (some d) = handler ad.self (ok d)

  on_answer : SrvRespHandler ms ha A → Option (InternalMsg ms) → Result Response (HttpError ha)
  unfolding answered internal_error
  on_answer handler none =
      map_err (λ x. http x) (body (full "Can't handle your request for now") (ad.build 503))
  on_answer handler (some (response m)) = answered handler (response_data m)
  on_answer handler (some (error e)) = handler ad.self (err e)
  on_answer handler (some (request m)) = internal_error
  on_answer handler (some command) = internal_error
  on_answer handler (some config) = internal_error
  on_answer handler (some (service table)) = internal_error
  on_answer handler (some shutdown) = internal_error

  unfoldable pub wait_intern_resp :
      Call → String → M → SrvRespHandler ms ha A → Result Response (HttpError ha)
  unfolding on_answer
  wait_intern_resp c name req handler =
      on_answer handler (c.answer (new_request c.id name req c.resp_tx))

  abbrev pub metric_of : Response → Metric
  metric_of r = counted (status_of r) (some (hyper_version_str (version_of r)))

  abbrev pub count_ok : Result Response (HttpError ha) → List Metric
  count_ok (ok r) = metric_of r ∷ []
  count_ok (err e) = []

  -- The result of a call, and what it adds to the counter.
  unfoldable pub process : Call → HyperResp ms ha A → Result Response (HttpError ha) × List Metric
  unfolding wait_intern_resp
  process c (srv_req name req handler) =
      let resp = wait_intern_resp c name req handler in (resp, count_ok resp)
  process c (http_resp r) = (ok r, metric_of r ∷ [])
  process c (http_err e) = (err e, counted 503 none ∷ [])

  unfoldable pub process_call : Call → ha.Request → Result Response (HttpError ha) × List Metric
  unfolding process
  process_call c req = process c (ad.process_http_request req)
