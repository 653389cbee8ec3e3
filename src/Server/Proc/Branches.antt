-- ===== src/Server/Proc/Branches.antt =====
-- What the server's processor does with one HTTP request, on each branch.
use pro_sa_hyper.Common.{
  ℕ, ◌≡◌, ◌≢◌, ◌↔◌, ◌∙◌, ap, refl, ◌^◌, ◌<◌, none, some, [], ◌∷◌, Bool, true, false, millis_u64,
  from_millis, millis_u64-from_millis, arith,
}
use pro_sa_hyper.Prosa.{
  Messages, request, response, error, command, config, service, shutdown, unable_to_reach_service,
  timeout,
}
use pro_sa_hyper.Prosa.Pending.{PendingMsgs}
use pro_sa_hyper.Server.Proc.{
  returned_error, sent, dropped, Event, internal, http, accept, expire, Setup, State, running,
  failed, panicked, timed_out, reject, take_or_reject, forward, on_http, on_http_cases, on_expire,
  on_internal, on_response, on_error, on_shutdown, on_accept, turn,
}

module _ {M : Type 0} (ms : Messages M) (pm : PendingMsgs ms.RequestMsg) (su : Setup ms pm)
    (st : State ms pm) where
  -- With no such service the request is answered at once, with its payload and an error that names
  -- the service; nothing is sent and the state stays.
  pub on_http_unknown :
      (m : ms.RequestMsg) (i : ℕ) (ok? : Bool)
      → ms.get_proc_service st.service (ms.get_service m) ≡ none
      → (on_http ms pm su st m i ok?).effects
        ≡ returned_error
            (ms.take_data m).1
            (ms.take_data m).0
            (unable_to_reach_service (ms.get_service (ms.take_data m).1))
          ∷ []
  unfolding on_http reject
  on_http_unknown m i ok? e = rw (e, on_http)

  pub on_http_closed :
      (m : ms.RequestMsg) (svc : ms.ProcService) (d : M) (i : ℕ)
      → ms.get_proc_service st.service (ms.get_service m) ≡ some svc
      → (ms.take_data m).0 ≡ some d
      → on_http ms pm su st m i false
        ≡ record { state = st; effects = dropped (ms.take_data m).1 ∷ []; status = failed }
  unfolding on_http take_or_reject forward
  on_http_closed m svc d i e f = rw (e, on_http) (rw (f, take_or_reject))

  on_http_forwarded :
      (m : ms.RequestMsg) (svc : ms.ProcService) (d : M) (i : ℕ)
      → ms.get_proc_service st.service (ms.get_service m) ≡ some svc
      → (ms.take_data m).0 ≡ some d
      → on_http ms pm su st m i true ≡ (
          let r = ms.new_request i (ms.get_service (ms.take_data m).1) d su.service_queue in
          record {
            state = record st {
              pending =
                  pm.push_with_id (ms.get_id r) (ms.take_data m).1 su.service_timeout st.pending;
            };
            effects = sent svc r ∷ [];
            status = running;
          })
  unfolding on_http take_or_reject forward
  on_http_forwarded m svc d i e f = rw (e, on_http) (rw (f, take_or_reject))

  pub on_expire_due :
      (now : ℕ) (m : ms.RequestMsg)
      → pm.is_empty st.pending ≡ false
      → (pm.pull now st.pending).0 ≡ some m
      → (on_expire ms pm su st now).effects
        ≡ returned_error
            (ms.take_data m).1
            (ms.take_data m).0
            (timeout (ms.get_service (ms.take_data m).1) (millis_u64 su.service_timeout))
          ∷ []
  unfolding on_expire timed_out
  on_expire_due now m e f = rw (e, f)

  -- A known service gets a new request with the same service and payload, whose answer comes to the
  -- processor's own queue, and the HTTP request waits under the identifier of that new request.
  pub on_http_forwards :
      (m : ms.RequestMsg) (svc : ms.ProcService) (d : M) (i : ℕ)
      → ms.get_proc_service st.service (ms.get_service m) ≡ some svc
      → (ms.take_data m).0 ≡ some d
      → let t = on_http ms pm su st m i true in
        (r : ms.RequestMsg) × (t.effects ≡ sent svc r ∷ [])
        × (t.status ≡ running)
        × (ms.get_service r ≡ ms.get_service m)
        × ((ms.take_data r).0 ≡ some d)
        × (ms.sender r ≡ su.service_queue)
        × ((pm.pull_msg (ms.get_id r) t.state.pending).0 ≡ some (ms.take_data m).1)
        × (t.state.service ≡ st.service)
  unfolding on_http take_or_reject forward
  on_http_forwards m svc d i e f =
      let q = su.service_queue in
      let s = ms.get_service (ms.take_data m).1 in
      let r = ms.new_request i s d q in
      let step = on_http_forwarded m svc d i e f in
      (
        r,
        ap (λ t. t.effects) step,
        ap (λ t. t.status) step,
        ms.get_service-new_request i s d q ∙ ms.get_service-take_data m,
        ms.take_data-new_request i s d q,
        ms.sender-new_request i s d q,
        rw step (pm.pull_msg-push_with_id _ _ su.service_timeout st.pending),
        ap (λ t. t.state.service) step,
      )

  -- With no such service, the request is answered at once with its own payload and an error that
  -- names the service; nothing is sent, the state stays and the loop goes on.
  pub on_http_rejects :
      (m : ms.RequestMsg) (i : ℕ) (ok? : Bool)
      → ms.get_proc_service st.service (ms.get_service m) ≡ none
      → on_http ms pm su st m i ok? ≡ record {
        state = st;
        effects =
            returned_error
              (ms.take_data m).1
              (ms.take_data m).0
              (unable_to_reach_service (ms.get_service m))
            ∷ [];
        status = running;
      }
  unfolding on_http reject
  on_http_rejects m i ok? e = rw (e, on_http) (rw (ms.get_service-take_data m))

  -- A request that waits because it was forwarded, and expires, gets no payload back, and an error
  -- with its service and the configured number of milliseconds.
  on_expire_forwarded :
      (now t : ℕ) (m : ms.RequestMsg)
      → su.service_timeout ≡ from_millis t
      → t < 2 ^ 64
      → pm.is_empty st.pending ≡ false
      → (pm.pull now st.pending).0 ≡ some (ms.take_data m).1
      → (r : ms.RequestMsg) × ((on_expire ms pm su st now).effects
          ≡ returned_error r none (timeout (ms.get_service m) t) ∷ [])
        × (ms.sender r ≡ ms.sender m)
  on_expire_forwarded now t m set small e f =
      let m' = (ms.take_data m).1 in
      (
        (ms.take_data m').1,
        on_expire_due now m' e f
            ∙ rw (
              ms.take_data_twice m,
              ms.get_service-take_data m',
              ms.get_service-take_data m,
              set,
              millis_u64-from_millis t small,
            ),
        ms.sender-take_data m' ∙ ms.sender-take_data m,
      )

module _ {M : Type 0} (ms : Messages M) (pm : PendingMsgs ms.RequestMsg) (su : Setup ms pm) where
  -- The messages that the processor does not support.
  abbrev pub IsUnsupported : Event ms → Type 0
  IsUnsupported (internal (request m) ok?) = Unit {0}
  IsUnsupported (internal command ok?) = Unit {0}
  IsUnsupported (internal config ok?) = Unit {0}
  IsUnsupported (internal (response m) ok?) = ⊥
  IsUnsupported (internal (error m) ok?) = ⊥
  IsUnsupported (internal (service table) ok?) = ⊥
  IsUnsupported (internal shutdown ok?) = ⊥
  IsUnsupported (http m i ok?) = ⊥
  IsUnsupported (accept ok?) = ⊥
  IsUnsupported (expire now) = ⊥

  on_http-status :
      (st : State ms pm) (m : ms.RequestMsg) (i : ℕ) (ok? : Bool)
      → (on_http ms pm su st m i ok?).status ≢ panicked
  unfolding reject forward
  on_http-status st m i ok? =
      on_http_cases ms pm (λ t. t.status ≢ panicked) su st m i ok? (λ m' _ e. cc)
        (λ svc d _ _. forward-status svc d ok?)
    where
      forward-status :
          (svc : ms.ProcService) (d : M) (b : Bool)
          → (forward ms pm su st svc (ms.take_data m).1 d i b).status ≢ panicked
      forward-status svc d true e = cc
      forward-status svc d false e = cc

  -- A turn panics exactly at a request, a command or a configuration message from the bus.
  pub turn-panicked_iff :
      (st : State ms pm) (e : Event ms) → ((turn ms pm su st e).status ≡ panicked) ↔ IsUnsupported e
  unfolding turn on_internal on_response on_error on_shutdown on_accept on_expire
  turn-panicked_iff st (internal (request m) ok?) = (λ _. tt, λ _. refl)
  turn-panicked_iff st (internal command ok?) = (λ _. tt, λ _. refl)
  turn-panicked_iff st (internal config ok?) = (λ _. tt, λ _. refl)
  turn-panicked_iff st (internal (response m) ok?) = (λ e. cc, λ e. absurd e)
  turn-panicked_iff st (internal (error m) ok?) = (λ e. cc, λ e. absurd e)
  turn-panicked_iff st (internal (service table) ok?) = (λ e. cc, λ e. absurd e)
  turn-panicked_iff st (internal shutdown true) = (λ e. cc, λ e. absurd e)
  turn-panicked_iff st (internal shutdown false) = (λ e. cc, λ e. absurd e)
  turn-panicked_iff st (http m i ok?) = (λ e. absurd (on_http-status st m i ok? e), λ e. absurd e)
  turn-panicked_iff st (accept true) = (λ e. cc, λ e. absurd e)
  turn-panicked_iff st (accept false) = (λ e. cc, λ e. absurd e)
  turn-panicked_iff st (expire now) = (λ e. ground arith, λ e. absurd e)
