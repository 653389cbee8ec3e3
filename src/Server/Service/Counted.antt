-- ===== src/Server/Service/Counted.antt =====
-- The outcome of a call of the HTTP service by what comes back for it, and what it counts.
use pro_sa_hyper.Common.{
  ℕ, List, ◌≡◌, ◌⊎◌, inl, String, none, some, [], ◌∷◌, Result, ok, err, map_err, arith,
}
use pro_sa_hyper.Prosa.{Messages, response, error}
use pro_sa_hyper.Http.{
  Family, hyper_version_str, HttpApi, HttpError, http, HyperResp, SrvRespHandler, srv_req,
  http_resp, http_err, from_result,
}
use pro_sa_hyper.Server.Adaptor.{ServerAdaptor}
use pro_sa_hyper.Server.Adaptor.Answers.{IsAnswer}
use pro_sa_hyper.Server.Service.{
  Metric, counted, Call, wait_intern_resp, on_answer, answered, metric_of, count_ok, process,
  process_call,
}

module _ {M : Type 0} (ms : Messages M) (ha : HttpApi) {A : Type 0} (ad : ServerAdaptor ha ms A)
    (c : Call ms ha ad) (req : ha.Request) where
  process-counts :
      (x : HyperResp ms ha A) (r : ha.Response)
      → (process ms ha ad c x).0 ≡ ok r
      → (process ms ha ad c x).1 ≡ metric_of ms ha ad r ∷ []
  unfolding process
  process-counts (srv_req name d h) r e = rw e
  process-counts (http_resp s) r e = ground arith
  process-counts (http_err s) r e = cc

  -- A call that ends in a response is counted once, under the code and version of that response.
  process_call_counts_response :
      (r : ha.Response)
      → (process_call ms ha ad c req).0 ≡ ok r
      → (process_call ms ha ad c req).1 ≡ metric_of ms ha ad r ∷ []
  unfolding process_call
  process_call_counts_response r e = process-counts (ad.process_http_request req) r e

  counts_answer :
      (f : Family) (r : ha.Response) (code : ℕ)
      (x : Result ha.Response (HttpError ha) × List Metric)
      → x.0 ≡ ok r
      → x.1 ≡ metric_of ms ha ad r ∷ []
      → IsAnswer ha f code r
      → x ≡ (ok r, counted code (some "HTTP/1.1") ∷ [])
  unfolding hyper_version_str
  counts_answer f r code x p q a = ground arith

  -- A call that ends in a response of the product counts its code, of HTTP/1.1.
  pub process_call-IsAnswer :
      (f : Family) (r : ha.Response) (code : ℕ)
      → (process_call ms ha ad c req).0 ≡ ok r
      → IsAnswer ha f code r
      → process_call ms ha ad c req ≡ (ok r, counted code (some "HTTP/1.1") ∷ [])
  process_call-IsAnswer f r code e a =
      counts_answer f r code _ e (process_call_counts_response r e) a

  process-counts_error :
      (x : HyperResp ms ha A) (e : HttpError ha)
      → (process ms ha ad c x).0 ≡ err e
      → ((process ms ha ad c x).1 ≡ [])
        ⊎ ((x ≡ http_err e) × ((process ms ha ad c x).1 ≡ counted 503 none ∷ []))
  unfolding process
  process-counts_error (srv_req name d h) e q = inl (rw q)
  process-counts_error (http_resp s) e q = cc
  process-counts_error (http_err s) e q = ground arith

  -- A call that ends in an error is counted only where the adaptor itself gave that error, as 503.
  process_call_counts_error :
      (e : HttpError ha)
      → (process_call ms ha ad c req).0 ≡ err e
      → ((process_call ms ha ad c req).1 ≡ [])
        ⊎ ((ad.process_http_request req ≡ http_err e)
            × ((process_call ms ha ad c req).1 ≡ counted 503 none ∷ []))
  unfolding process_call
  process_call_counts_error e q = process-counts_error (ad.process_http_request req) e q

  -- An adaptor that turns a built response or error into its answer has that as the call's result.
  pub process_call-from_result :
      (x : Result ha.Response ha.HttpCrateError)
      → ad.process_http_request req ≡ from_result ms ha A x
      → (process_call ms ha ad c req).0 ≡ map_err (λ e. http e) x
  unfolding process_call process from_result
  process_call-from_result (ok r) e = rw e
  process_call-from_result (err x) e = rw e

  module _ (name : String) (d : M) (h : SrvRespHandler ms ha A)
      (asked : ad.process_http_request req ≡ srv_req name d h) where
    pub process_call-error :
        (e : ms.ErrorMsg)
        → c.answer (ms.new_request c.id name d c.resp_tx) ≡ some (error e)
        → process_call ms ha ad c req ≡ (h ad.self (err e), count_ok ms ha ad (h ad.self (err e)))
    unfolding process_call process wait_intern_resp on_answer
    process_call-error e p = rw (asked, process) (rw p)

    pub process_call-response :
        (m : ms.ResponseMsg) (x : M)
        → c.answer (ms.new_request c.id name d c.resp_tx) ≡ some (response m)
        → ms.response_data m ≡ some x
        → process_call ms ha ad c req ≡ (h ad.self (ok x), count_ok ms ha ad (h ad.self (ok x)))
    unfolding process_call process wait_intern_resp on_answer answered
    process_call-response m x p q = rw (asked, process) (rw (p, q))

    pub process_call-dropped :
        c.answer (ms.new_request c.id name d c.resp_tx) ≡ none
        → let r =
            map_err {F = HttpError ha}
              (λ e. http e)
              (ha.body (ha.full "Can't handle your request for now") (ad.build 503)) in
          process_call ms ha ad c req ≡ (r, count_ok ms ha ad r)
    unfolding process_call process wait_intern_resp on_answer
    process_call-dropped p = rw (asked, process) (rw p)
