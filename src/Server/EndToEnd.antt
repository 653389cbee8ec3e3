-- ===== src/Server/EndToEnd.antt =====
-- A call of the HTTP service together with what the processor does with the request that it sends:
-- src/server/service.rs over src/server/proc.rs.
pub mod Ended
use pro_sa_hyper.Common.{
  ℕ, ◌≡◌, ◌∙◌, ap, String, Option, none, some, List, [], ◌∷◌, Bool, true, false, Result, ok, err,
  suc, millis_u64, arith,
}
use pro_sa_hyper.Prosa.{
  Messages, InternalMsg, response, error, unable_to_reach_service, timeout, ServiceError,
}
use pro_sa_hyper.Prosa.Pending.{PendingMsgs}
use pro_sa_hyper.Http.{Family, HttpApi, HttpError, srv_req, SrvRespHandler, hyper_version_str}
use pro_sa_hyper.Server.Adaptor.{ServerAdaptor, response_builder, default_srv_error_response}
use pro_sa_hyper.Server.Adaptor.Answers.{
  IsAnswer, response_builder-IsAnswer, default_srv_error_response-AnswersError, documented_code,
  documented_body,
}
use pro_sa_hyper.Server.Service.{Metric, counted, Call, process_call, count_ok}
use pro_sa_hyper.Server.Service.Counted.{
  process_call-error, process_call-response, process_call-dropped,
}
use pro_sa_hyper.Server.Proc.{
  Effect, returned, returned_error, sent, dropped, spawned, terminated, removed, failed, Event,
  Setup, State, on_response, on_error, on_http, on_expire, run,
}
use pro_sa_hyper.Server.Proc.Branches.{on_http_unknown, on_http_closed, on_expire_due}
use pro_sa_hyper.Server.Proc.Identifiers.{Ascending}
use pro_sa_hyper.Server.Proc.Correlation.{IsQuiet, response_finds_request, error_finds_request}

-- What the channel of the only request that the effects settle gives: the message that answers it,
-- or nothing, for a request that is dropped.
abbrev pub delivered : {M : Type 0} (ms : Messages M) → List (Effect ms) → Option (InternalMsg ms)
delivered ms [] = none
delivered ms (returned m d ∷ es) = some (response (ms.to_response m d))
delivered ms (returned_error m d e ∷ es) = some (error (ms.to_error m d e))
delivered ms (dropped m ∷ es) = none
delivered ms (sent svc r ∷ es) = delivered ms es
delivered ms (spawned ∷ es) = delivered ms es
delivered ms (terminated ∷ es) = delivered ms es
delivered ms (removed ∷ es) = delivered ms es

module _ {M : Type 0} (ms : Messages M) (pm : PendingMsgs ms.RequestMsg) (ha : HttpApi) (f : Family)
    {A : Type 0} (ad : ServerAdaptor ha ms A) (su : Setup ms pm) (st : State ms pm) (id : ℕ)
    (tx : ms.Sender) where
  -- A call whose request the processor handles by the given effects.
  abbrev pub call_through : (ms.RequestMsg → List (Effect ms)) → Call ms ha ad
  call_through effects = record { id = id; resp_tx = tx; answer = λ r. delivered ms (effects r) }

  -- The handler leaves every error to the default answer, with the default builder.
  abbrev pub UsesDefault : SrvRespHandler ms ha A → Type 0
  UsesDefault h =
      (e : ms.ErrorMsg)
      → h ad.self (err e) ≡ default_srv_error_response ha ms e (response_builder ha f)

  -- The call ends in a response of the product, which is counted under its code.
  abbrev pub Serves : ℕ → ha.Body → Result ha.Response (HttpError ha) × List Metric → Type 0
  Serves code b x =
      (r : ha.Response) × (x ≡ (ok r, counted code (some "HTTP/1.1") ∷ []))
      × IsAnswer ha f code r
      × (ha.body_of r ≡ b)

  pub IsAnswer-Serves :
      (code : ℕ) (r : ha.Response) (x : Result ha.Response (HttpError ha)) (b : ha.Body)
      → x ≡ ok r
      → IsAnswer ha f code r
      → ha.body_of r ≡ b
      → Serves code b (x, count_ok ms ha ad x)
  unfolding hyper_version_str
  IsAnswer-Serves code r x b e a d = (r, ground arith, a, d)

  error_Serves :
      (effects : ms.RequestMsg → List (Effect ms)) (req : ha.Request) (name : String) (d : M)
      (h : SrvRespHandler ms ha A) (m : ms.RequestMsg) (x : Option M) (e : ServiceError)
      → ad.process_http_request req ≡ srv_req name d h
      → UsesDefault h
      → effects (ms.new_request id name d tx) ≡ returned_error m x e ∷ []
      → Serves
          (documented_code e)
          (documented_body ms ha f e)
          (process_call ms ha ad (call_through effects) req)
  error_Serves effects req name d h m x e p u q =
      let given = ap (delivered ms) q in
      let (r, a, s, b) = default_srv_error_response-AnswersError ms ha f (ms.to_error m x e) in
      let same = ms.get_err-to_error m x e in
      rw
        (process_call-error ms ha ad (call_through effects) req name d h p (ms.to_error m x e)
          given)
        (IsAnswer-Serves (documented_code e) r _ _ (u (ms.to_error m x e) ∙ a) (rw same at s)
          (rw same at b))

  module _ (req : ha.Request) (name : String) (d : M) (h : SrvRespHandler ms ha A)
      (asked : ad.process_http_request req ≡ srv_req name d h) where
    -- A request for a service that the table does not have is answered 503, "Can't reach service",
    -- by a handler that leaves errors to the default answer.
    pub unknown_service_answer :
        (i : ℕ) (ok? : Bool)
        → UsesDefault h
        → ms.get_proc_service st.service name ≡ none
        → Serves 503
            (ha.full "Can't reach service")
            (process_call ms ha ad (call_through (λ r. (on_http ms pm su st r i ok?).effects)) req)
    unknown_service_answer i ok? u no_service =
        let r = ms.new_request id name d tx in
        error_Serves (λ r. (on_http ms pm su st r i ok?).effects) req name d h (ms.take_data r).1
          (ms.take_data r).0 (unable_to_reach_service (ms.get_service (ms.take_data r).1)) asked u
          (on_http_unknown ms pm su st r i ok? (
            ap (ms.get_proc_service st.service) (ms.get_service-new_request id name d tx)
            ∙ no_service))

    -- A request whose service's queue is closed ends the processor, and is answered 503, "Can't
    -- handle your request for now", whatever the handler, by an adaptor with the default builder.
    pub closed_service_answer :
        (svc : ms.ProcService) (i : ℕ)
        → ad.build ≡ response_builder ha f
        → ms.get_proc_service st.service name ≡ some svc
        → ((on_http ms pm su st (ms.new_request id name d tx) i false).status ≡ failed)
          × Serves 503 (ha.full "Can't handle your request for now") (
              process_call ms ha ad
                (call_through (λ r. (on_http ms pm su st r i false).effects))
                req)
    closed_service_answer svc i default_builder known =
        let r = ms.new_request id name d tx in
        let lost =
          on_http_closed ms pm su st r svc d i
            (ap (ms.get_proc_service st.service) (ms.get_service-new_request id name d tx) ∙ known)
            (ms.take_data-new_request id name d tx) in
        let (x, e, a, b) =
          response_builder-IsAnswer ms ha f 503 (ha.full "Can't handle your request for now")
            (omega arith) (omega arith) in
        (
          ap (λ t. t.status) lost,
          rw
              (process_call-dropped ms ha ad
                (call_through (λ r. (on_http ms pm su st r i false).effects)) req name d h asked
                (ap (λ t. delivered ms t.effects) lost))
              (IsAnswer-Serves 503 x _ _ (rw (default_builder, e)) a b),
        )

    -- A request that the collection of pending ones gives as expired, after the processor has taken
    -- it up, is answered 504 with no body, by a handler that leaves errors to the default answer.
    pub expired_answer :
        (i now : ℕ)
        → UsesDefault h
        → (pm.pull now (on_http ms pm su st (ms.new_request id name d tx) i true).state.pending).0
          ≡ some (ms.take_data (ms.new_request id name d tx)).1
        → pm.is_empty (on_http ms pm su st (ms.new_request id name d tx) i true).state.pending
          ≡ false
        → Serves 504 ha.empty (
            process_call ms ha ad
              (call_through
                (λ r. (on_expire ms pm su (on_http ms pm su st r i true).state now).effects))
              req)
    expired_answer i now u due held =
        let r = ms.new_request id name d tx in
        let m = (ms.take_data r).1 in
        error_Serves (λ q. (on_expire ms pm su (on_http ms pm su st q i true).state now).effects)
          req name d h (ms.take_data m).1 (ms.take_data m).0
          (timeout (ms.get_service (ms.take_data m).1) (millis_u64 su.service_timeout)) asked u
          (on_expire_due ms pm su (on_http ms pm su st r i true).state now m held due)

    -- A request that is forwarded gets what its handler makes of the payload that the service
    -- answers under its identifier, after any events in between that are no answer under that
    -- identifier, let nothing expire and leave the loop running, provided that the identifiers given
    -- in between are greater.
    pub response_answer :
        (svc : ms.ProcService) (i : ℕ) (es : List (Event ms)) (msg : ms.ResponseMsg) (x : M)
        → ms.get_proc_service st.service name ≡ some svc
        → Ascending (suc i) es
        → IsQuiet ms pm su i (on_http ms pm su st (ms.new_request id name d tx) i true).state es
        → ms.response_id msg ≡ i
        → ms.response_data msg ≡ some x
        → process_call ms ha ad
            (call_through (λ r.
              (on_response ms pm
                (run ms pm su (on_http ms pm su st r i true).state es).state
                msg).effects))
            req
          ≡ (h ad.self (ok x), count_ok ms ha ad (h ad.self (ok x)))
    response_answer svc i es msg x known a q same p =
        let r = ms.new_request id name d tx in
        let back =
          response_finds_request ms pm su i st r svc d es
            (ap (ms.get_proc_service st.service) (ms.get_service-new_request id name d tx) ∙ known)
            (ms.take_data-new_request id name d tx) a q msg x same p in
        process_call-response ms ha ad
          (call_through (λ r.
            (on_response ms pm (run ms pm su (on_http ms pm su st r i true).state es).state
              msg).effects))
          req name d h asked (ms.to_response (ms.take_data r).1 x) x (ap (delivered ms) back)
          (ms.response_data-to_response _ x)

    -- A request that is forwarded is answered with the documented code of the error that the service
    -- gives back under its identifier, after any events in between that are no answer under that
    -- identifier, let nothing expire and leave the loop running, by a handler that leaves errors to
    -- the default answer, provided that the identifiers given in between are greater.
    pub error_answer :
        (svc : ms.ProcService) (i : ℕ) (es : List (Event ms)) (msg : ms.ErrorMsg)
        → UsesDefault h
        → ms.get_proc_service st.service name ≡ some svc
        → Ascending (suc i) es
        → IsQuiet ms pm su i (on_http ms pm su st (ms.new_request id name d tx) i true).state es
        → ms.error_id msg ≡ i
        → Serves (documented_code (ms.into_err msg)) (documented_body ms ha f (ms.into_err msg)) (
            process_call ms ha ad
              (call_through (λ r.
                (on_error ms pm
                  (run ms pm su (on_http ms pm su st r i true).state es).state
                  msg).effects))
              req)
    error_answer svc i es msg u known a q same =
        let r = ms.new_request id name d tx in
        error_Serves
          (λ r.
            (on_error ms pm (run ms pm su (on_http ms pm su st r i true).state es).state
              msg).effects)
          req name d h (ms.take_data r).1 (ms.error_data msg) (ms.into_err msg) asked u
          (error_finds_request ms pm su i st r svc d es
            (ap (ms.get_proc_service st.service) (ms.get_service-new_request id name d tx) ∙ known)
            (ms.take_data-new_request id name d tx) a q msg same)
