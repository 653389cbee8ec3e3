-- ===== src/Server/Proc/Correlation.antt =====
-- Which HTTP request an answer from a service goes to.
use pro_sa_hyper.Common.{
  ℕ, suc, ◌≤◌, ◌<◌, ◌≡◌, ◌≢◌, ◌∙◌, refl, Option, none, some, List, [], ◌∷◌, Bool, true, false,
  arith, Bool-cases, inl, inr,
}
use pro_sa_hyper.Prosa.{
  Messages, InternalMsg, request, response, error, command, config, service, shutdown,
}
use pro_sa_hyper.Prosa.Pending.{PendingMsgs}
use pro_sa_hyper.Server.Proc.{
  returned, returned_error, running, Event, internal, http, accept, expire, Setup, State,
  on_internal, respond, respond_error, on_response, on_error, on_shutdown, reject, forward,
  take_or_reject, on_http, on_http_cases, on_expire, on_accept, turn, run,
}
use pro_sa_hyper.Server.Proc.Identifiers.{Ascending, next_id, Ascending-head, Ascending-tail}

module _ {M : Type 0} (ms : Messages M) (pm : PendingMsgs ms.RequestMsg) (su : Setup ms pm)
    (i : ℕ) where
  -- The request that waits under the identifier `i`.
  abbrev pub found : State ms pm → Option ms.RequestMsg
  found st = (pm.pull_msg i st.pending).0

  abbrev IsQuietMsg : InternalMsg ms → Type 0
  IsQuietMsg (response m) = i ≢ ms.response_id m
  IsQuietMsg (error m) = i ≢ ms.error_id m
  IsQuietMsg (request m) = Unit {0}
  IsQuietMsg command = Unit {0}
  IsQuietMsg config = Unit {0}
  IsQuietMsg (service table) = Unit {0}
  IsQuietMsg shutdown = Unit {0}

  -- The event is no answer under `i` and lets no request expire.
  abbrev pub IsQuietEvent : State ms pm → Event ms → Type 0
  IsQuietEvent st (internal m ok?) = IsQuietMsg m
  IsQuietEvent st (http m j ok?) = Unit {0}
  IsQuietEvent st (accept ok?) = Unit {0}
  IsQuietEvent st (expire now) = (pm.pull now st.pending).0 ≡ none

  -- Each of the events is quiet, and the loop goes on after it.
  unfoldable pub IsQuiet : State ms pm → List (Event ms) → Type 0
  IsQuiet st [] = Unit {0}
  IsQuiet st (e ∷ es) =
      IsQuietEvent st e
      × ((turn ms pm su st e).status ≡ running)
      × IsQuiet (turn ms pm su st e).state es

  found-on_internal :
      (st : State ms pm) (m : InternalMsg ms) (ok? : Bool)
      → IsQuietMsg m
      → found (on_internal ms pm st m ok?).state ≡ found st
  unfolding on_internal on_response on_error on_shutdown
  found-on_internal st (response m) ok? q = pm.pull_msg_ne i (ms.response_id m) st.pending q
  found-on_internal st (error m) ok? q = pm.pull_msg_ne i (ms.error_id m) st.pending q
  found-on_internal st shutdown true q = refl
  found-on_internal st shutdown false q = refl
  found-on_internal st (request m) ok? q = refl
  found-on_internal st command ok? q = refl
  found-on_internal st config ok? q = refl
  found-on_internal st (service table) ok? q = refl

  found-forward :
      (st : State ms pm) (svc : ms.ProcService) (m : ms.RequestMsg) (d : M) (j : ℕ) (ok? : Bool)
      → i ≢ j
      → found (forward ms pm su st svc m d j ok?).state ≡ found st
  unfolding forward
  found-forward st svc m d j true h =
      rw (ms.get_id-new_request) (pm.pull_msg-push_with_id_ne i j m su.service_timeout st.pending h)
  found-forward st svc m d j false h = refl

  found-reject : (st : State ms pm) (m : ms.RequestMsg) → found (reject ms pm st m).state ≡ found st
  unfolding reject
  found-reject st m = refl

  found-on_expire :
      (st : State ms pm) (now : ℕ)
      → (pm.pull now st.pending).0 ≡ none
      → found (on_expire ms pm su st now).state ≡ found st
  unfolding on_expire
  found-on_expire st now h = elim (Bool-cases (pm.is_empty st.pending)) [
    | inl e ↦ rw e
    | inr e ↦ rw e (pm.pull_msg_pull_none i now st.pending h)
  ]

  found-on_accept :
      (st : State ms pm) (ok? : Bool) → found (on_accept ms pm st ok?).state ≡ found st
  unfolding on_accept
  found-on_accept st true = refl
  found-on_accept st false = refl

  found-turn :
      (st : State ms pm) (n : ℕ) (e : Event ms)
      → i < n
      → Ascending n (e ∷ [])
      → IsQuietEvent st e
      → found (turn ms pm su st e).state ≡ found st
  unfolding turn
  found-turn st n (internal m ok?) l a q = found-on_internal st m ok? q
  found-turn st n (http m j ok?) l a q =
      on_http_cases ms pm (λ t. found t.state ≡ found st) su st m j ok? (λ m' _. found-reject st m')
        (λ svc d _ _. found-forward st svc _ d j ok? (omega arith))
  found-turn st n (accept ok?) l a q = found-on_accept st ok?
  found-turn st n (expire now) l a q = found-on_expire st now q

  next_id-le : (n : ℕ) (e : Event ms) → Ascending n (e ∷ []) → n ≤ next_id n e
  next_id-le n (internal m ok?) a = omega arith
  next_id-le n (http m j ok?) a = omega arith
  next_id-le n (accept ok?) a = omega arith
  next_id-le n (expire now) a = omega arith

  pub found-run :
      (st : State ms pm) (n : ℕ) (es : List (Event ms))
      → i < n
      → Ascending n es
      → IsQuiet st es
      → (found (run ms pm su st es).state ≡ found st) × ((run ms pm su st es).status ≡ running)
  unfolding run IsQuiet
  found-run st n [] l a q = (refl, refl)
  found-run st n (e ∷ es) l a q =
      let first = Ascending-head ms pm n e es a in
      let step = found-turn st n e l first q.0 in
      let rest =
        found-run (turn ms pm su st e).state (next_id n e) es (omega (arith, next_id-le n e first))
          (Ascending-tail ms pm n e es a) q.2 in
      rw (run, q.1) (rest.0 ∙ step, rest.1)

  pub found-on_http :
      (st : State ms pm) (m : ms.RequestMsg) (svc : ms.ProcService) (d : M)
      → ms.get_proc_service st.service (ms.get_service m) ≡ some svc
      → (ms.take_data m).0 ≡ some d
      → found (on_http ms pm su st m i true).state ≡ some (ms.take_data m).1
  unfolding on_http take_or_reject forward
  found-on_http st m svc d e f =
      rw (e, on_http)
        (rw (f, take_or_reject)
          (rw (ms.get_id-new_request) (pm.pull_msg-push_with_id i _ su.service_timeout st.pending)))

module _ {M : Type 0} (ms : Messages M) (pm : PendingMsgs ms.RequestMsg) (su : Setup ms pm) (i : ℕ)
    (st : State ms pm) (m : ms.RequestMsg) (svc : ms.ProcService) (d : M) (es : List (Event ms))
    (known : ms.get_proc_service st.service (ms.get_service m) ≡ some svc)
    (payload : (ms.take_data m).0 ≡ some d) (ascending : Ascending (suc i) es)
    (quiet : IsQuiet ms pm su i (on_http ms pm su st m i true).state es) where
  pub found_late :
      found ms pm su i (run ms pm su (on_http ms pm su st m i true).state es).state
      ≡ some (ms.take_data m).1
  found_late =
      (found-run ms pm su i (on_http ms pm su st m i true).state (suc i) es (omega arith) ascending
        quiet).0
      ∙ found-on_http ms pm su i st m svc d known payload

  -- An HTTP request that is forwarded under an identifier gets the payload of the response that
  -- comes back under it, after any events in between that are no answer under that identifier, let
  -- nothing expire and leave the loop running, provided that the identifiers given in between are
  -- greater.
  pub response_finds_request :
      (msg : ms.ResponseMsg) (x : M)
      → ms.response_id msg ≡ i
      → ms.response_data msg ≡ some x
      → (on_response ms pm (run ms pm su (on_http ms pm su st m i true).state es).state msg).effects
        ≡ returned (ms.take_data m).1 x ∷ []
  unfolding on_response respond
  response_finds_request msg x r p = rw (r, found_late, p)

  -- In the same situation it gets the error of the error message that comes back under the
  -- identifier, with that message's payload.
  pub error_finds_request :
      (msg : ms.ErrorMsg)
      → ms.error_id msg ≡ i
      → (on_error ms pm (run ms pm su (on_http ms pm su st m i true).state es).state msg).effects
        ≡ returned_error (ms.take_data m).1 (ms.error_data msg) (ms.into_err msg) ∷ []
  unfolding on_error respond_error
  error_finds_request msg r = rw (r, found_late)
