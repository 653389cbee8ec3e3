-- ===== src/Server/Adaptor/Answers.antt =====
-- What the server's default answers are.
use pro_sa_hyper.Common.{ℕ, ◌≤◌, ◌<◌, ◌≡◌, some, Result, ok, map_err, arith}
use pro_sa_hyper.Prosa.{
  Messages, ServiceError, no_error, unable_to_reach_service, timeout, protocol_error,
}
use pro_sa_hyper.Http.{Family, product_version_header, HttpApi, http_11, HttpError, http}
use pro_sa_hyper.Server.Adaptor.{response_builder, default_error_answer, default_srv_error_response}

-- The table in the documentation of `default_srv_error_response`.
abbrev pub documented_code : ServiceError → ℕ
documented_code (no_error s) = 202
documented_code (unable_to_reach_service s) = 503
documented_code (timeout s t) = 504
documented_code (protocol_error s) = 502

-- A response of the product: it has the code, and the product's `Server` header.
pub record IsAnswer (ha : HttpApi) (f : Family) (code : ℕ) (r : ha.Response) : Type 0 where
  pub status : ha.status_of r ≡ code
  pub version : ha.version_of r ≡ http_11
  pub server : ha.get_header ha.server r ≡ some (product_version_header f)

module _ {M : Type 0} (ms : Messages M) (ha : HttpApi) (f : Family) where
  -- The default builder makes a response at every code of three digits, with the body that is asked.
  pub response_builder-IsAnswer :
      (code : ℕ) (b : ha.Body)
      → 100 ≤ code
      → code < 1000
      → (r : ha.Response) × (ha.body b (response_builder ha f code) ≡ ok r)
        × IsAnswer ha f code r
        × (ha.body_of r ≡ b)
  unfolding response_builder
  response_builder-IsAnswer code b l h =
      let (r, e, s, v, n, d) = ha.build f code b l h in
      (r, e, record { status = s; version = v; server = n }, d)

  abbrev pub documented_body : ServiceError → ha.Body
  documented_body (unable_to_reach_service s) = ha.full "Can't reach service"
  documented_body (no_error s) = ha.empty
  documented_body (timeout s t) = ha.empty
  documented_body (protocol_error s) = ha.empty

  abbrev pub AnswersError : ServiceError → Result ha.Response (HttpError ha) → Type 0
  AnswersError e x =
      (r : ha.Response) × (x ≡ ok r)
      × IsAnswer ha f (documented_code e) r
      × (ha.body_of r ≡ documented_body e)

  answer :
      (code : ℕ) (b : ha.Body)
      → 100 ≤ code
      → code < 1000
      → (r : ha.Response) × (map_err {F = HttpError ha}
            (λ x. http x)
            (ha.body b (response_builder ha f code))
          ≡ ok r)
        × IsAnswer ha f code r
        × (ha.body_of r ≡ b)
  answer code b l h = let (r, e, a, d) = response_builder-IsAnswer code b l h in (r, rw e, a, d)

  default_error_answer-AnswersError :
      (e : ServiceError)
      → AnswersError e (map_err (λ x. http x) (default_error_answer ha e (response_builder ha f)))
  unfolding default_error_answer
  default_error_answer-AnswersError (no_error s) = answer 202 ha.empty (omega arith) (omega arith)
  default_error_answer-AnswersError (unable_to_reach_service s) =
      answer 503 _ (omega arith) (omega arith)
  default_error_answer-AnswersError (timeout s t) = answer 504 _ (omega arith) (omega arith)
  default_error_answer-AnswersError (protocol_error s) = answer 502 _ (omega arith) (omega arith)

  -- With the default builder, every service error gets a response, with the documented status code,
  -- the product's `Server` header, and a body for an unreachable service only.
  pub default_srv_error_response-AnswersError :
      (e : ms.ErrorMsg)
      → AnswersError (ms.get_err e) (default_srv_error_response ha ms e (response_builder ha f))
  unfolding default_srv_error_response
  default_srv_error_response-AnswersError e = default_error_answer-AnswersError (ms.get_err e)
