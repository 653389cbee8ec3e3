-- ===== src/Server/EndToEnd/Ended.antt =====
-- A call of the HTTP service whose processor ends before the answer: src/server/service.rs over
-- src/server/proc.rs.
use pro_sa_hyper.Common.{
  ℕ, suc, ◌≤◌, ◌≡◌, ◌∙◌, ap, refl, String, none, some, List, [], ◌∷◌, true, All, arith, weight,
}
use pro_sa_hyper.Prosa.{Messages}
use pro_sa_hyper.Prosa.Pending.{PendingMsgs}
use pro_sa_hyper.Http.{Family, HttpApi, srv_req, SrvRespHandler}
use pro_sa_hyper.Server.Adaptor.{ServerAdaptor, response_builder}
use pro_sa_hyper.Server.Adaptor.Answers.{response_builder-IsAnswer}
use pro_sa_hyper.Server.Service.{process_call}
use pro_sa_hyper.Server.Service.Counted.{process_call-dropped}
use pro_sa_hyper.Server.Proc.{
  Effect, returned, returned_error, sent, dropped, spawned, terminated, removed, Event, Setup,
  State, on_http, turn, run,
}
use pro_sa_hyper.Server.Proc.Identifiers.{Ascending}
use pro_sa_hyper.Server.Proc.Correlation.{IsQuiet, found_late}
use pro_sa_hyper.Server.Proc.Ledger.{settled}
use pro_sa_hyper.Server.System.{after_turn}
use pro_sa_hyper.Server.System.Ends.{IsEnd, IsSilent, end_drops}
use pro_sa_hyper.Server.EndToEnd.{delivered, call_through, Serves, IsAnswer-Serves}

module _ {M : Type 0} (ms : Messages M) (pm : PendingMsgs ms.RequestMsg) where
  delivered-silent : (es : List (Effect ms)) → All (IsSilent ms pm) es → delivered ms es ≡ none
  delivered-silent [] a = refl
  delivered-silent (returned m d ∷ es) a = absurd a.0
  delivered-silent (returned_error m d e ∷ es) a = absurd a.0
  delivered-silent (dropped m ∷ es) a = refl
  delivered-silent (sent svc r ∷ es) a = delivered-silent es a.1
  delivered-silent (spawned ∷ es) a = delivered-silent es a.1
  delivered-silent (terminated ∷ es) a = delivered-silent es a.1
  delivered-silent (removed ∷ es) a = delivered-silent es a.1

module _ {M : Type 0} (ms : Messages M) (pm : PendingMsgs ms.RequestMsg) (ha : HttpApi) (f : Family)
    {A : Type 0} (ad : ServerAdaptor ha ms A) (su : Setup ms pm) (st : State ms pm) (id : ℕ)
    (tx : ms.Sender) (sending queue : List ms.RequestMsg) where
  -- What the end of the loop by the event `e` does, after the given events.
  abbrev pub ending : ℕ → List (Event ms) → Event ms → ms.RequestMsg → List (Effect ms)
  ending i es e r =
      (after_turn ms pm sending queue
        (turn ms pm su (run ms pm su (on_http ms pm su st r i true).state es).state e)).effects

  -- A request that is forwarded and whose loop then ends before the service answers it, by a shutdown,
  -- a message that the processor does not support or a connection that cannot be accepted, and
  -- after any events in between that are no answer under its identifier, let nothing expire and leave
  -- the loop running, the identifiers given in between being greater, is dropped at that end, nothing
  -- is answered there, and the call is answered 503, "Can't handle your request for now", whatever
  -- the handler, by an adaptor with the default builder. That it is dropped is said by the weight of
  -- its sender, which the effects of the end settle, for every weight of senders.
  pub ended_answer :
      (req : ha.Request) (name : String) (d : M) (h : SrvRespHandler ms ha A) (svc : ms.ProcService)
      (i : ℕ) (es : List (Event ms)) (e : Event ms)
      → ad.process_http_request req ≡ srv_req name d h
      → ad.build ≡ response_builder ha f
      → ms.get_proc_service st.service name ≡ some svc
      → Ascending (suc i) es
      → IsQuiet ms pm su i (on_http ms pm su st (ms.new_request id name d tx) i true).state es
      → IsEnd ms pm e
      → ((w : ms.Sender → ℕ)
          → w tx ≤ weight (settled ms w) (ending i es e (ms.new_request id name d tx)))
        × All (IsSilent ms pm) (ending i es e (ms.new_request id name d tx))
        × Serves ms pm ha f ad su st id tx 503 (ha.full "Can't handle your request for now") (
            process_call ms ha ad
              (call_through ms pm ha f ad su st id tx (λ r. ending i es e r))
              req)
  ended_answer req name d h svc i es e asked default_builder known a q k =
      let r = ms.new_request id name d tx in
      let late =
        found_late ms pm su i st r svc d es
          (ap (ms.get_proc_service st.service) (ms.get_service-new_request id name d tx) ∙ known)
          (ms.take_data-new_request id name d tx) a q in
      let (x, made, s, b) =
        response_builder-IsAnswer ms ha f 503 (ha.full "Can't handle your request for now")
          (omega arith) (omega arith) in
      let (silent, drops) = end_drops ms pm sending queue su i (ms.take_data r).1 _ e k late in
      let same = ms.sender-take_data r ∙ ms.sender-new_request id name d tx in
      (
        λ w. rw same at (drops w),
        silent,
        rw
            (process_call-dropped ms ha ad
              (call_through ms pm ha f ad su st id tx (λ r. ending i es e r)) req name d h asked
              (delivered-silent ms pm (ending i es e r) silent))
            (IsAnswer-Serves ms pm ha f ad su st id tx 503 x _ _ (rw (default_builder, made)) s b),
      )
