-- ===== src/Server/Proc/Ledger.antt =====
-- The account of the HTTP requests that the server's processor receives: each is answered once,
-- dropped, or still waits.
use pro_sa_hyper.Common.{
  ℕ, ◌+◌, ◌≡◌, ap, ◌⊎◌, inl, inr, none, List, [], ◌∷◌, Bool, true, false, arith, Option-cases,
  weight, weight-append,
}
use pro_sa_hyper.Prosa.{
  Messages, InternalMsg, request, response, error, command, config, service, shutdown,
}
use pro_sa_hyper.Prosa.Pending.{PendingMsgs}
use pro_sa_hyper.Prosa.Pending.Held.{weight-push_with_id, weight-pull_msg, weight-pull}
use pro_sa_hyper.Server.Proc.{
  Effect, returned, returned_error, sent, dropped, spawned, terminated, removed, running, Event,
  internal, http, accept, expire, Setup, State, Turn, on_internal, respond, respond_error,
  timed_out, on_response, on_error, on_shutdown, reject, forward, on_http, on_http_cases, on_expire,
  on_accept, turn, run,
}
use pro_sa_hyper.Server.Proc.Identifiers.{
  next_id, Ascending, IsBelow, IsBelow-fresh, turn-IsBelow, Ascending-head, Ascending-tail,
}

module _ {M : Type 0} (ms : Messages M) (w : ms.Sender → ℕ) where
  -- The weight of the HTTP request that an event brings.
  abbrev pub arrived : Event ms → ℕ
  arrived (http m i ok?) = w (ms.sender m)
  arrived (internal m ok?) = 0
  arrived (accept ok?) = 0
  arrived (expire now) = 0

  -- The weight of the HTTP request that an effect answers or drops.
  abbrev pub settled : Effect ms → ℕ
  settled (returned m d) = w (ms.sender m)
  settled (returned_error m d e) = w (ms.sender m)
  settled (dropped m) = w (ms.sender m)
  settled (sent svc r) = 0
  settled spawned = 0
  settled terminated = 0
  settled removed = 0

module _ {M : Type 0} (ms : Messages M) (pm : PendingMsgs ms.RequestMsg) where
  -- The events that a run reads before it ends.
  pub consumed : Setup ms pm → State ms pm → List (Event ms) → List (Event ms)
  consumed su st [] = []
  consumed su st (e ∷ es) =
      let t = turn ms pm su st e in
      let rest = consumed su t.state es in e ∷ elim t.status [ running ↦ rest | _ ↦ [] ]

  module _ (w : ms.Sender → ℕ) where
    -- The weight of the requests that wait.
    abbrev pub waiting : State ms pm → ℕ
    waiting st = weight (λ e. w (ms.sender e.1)) (pm.entries st.pending)

    abbrev pub Balanced : State ms pm → ℕ → Turn ms pm → Type 0
    Balanced st came t = waiting st + came ≡ weight (settled ms w) t.effects + waiting t.state

    on_response-Balanced :
        (st : State ms pm) (m : ms.ResponseMsg) → Balanced st 0 (on_response ms pm st m)
    unfolding on_response respond
    on_response-Balanced st m =
        ground (arith, weight-pull_msg pm (λ e. w (ms.sender e.1)) (ms.response_id m) st.pending)

    on_error-Balanced : (st : State ms pm) (m : ms.ErrorMsg) → Balanced st 0 (on_error ms pm st m)
    unfolding on_error respond_error
    on_error-Balanced st m =
        ground (arith, weight-pull_msg pm (λ e. w (ms.sender e.1)) (ms.error_id m) st.pending)

    pub on_expire-Balanced :
        (su : Setup ms pm) (st : State ms pm) (now : ℕ) → Balanced st 0 (on_expire ms pm su st now)
    unfolding on_expire timed_out
    on_expire-Balanced su st now = elim (Option-cases (pm.pull now st.pending).0) [
      | inl e ↦ ground (arith, weight-pull pm (λ m. w (ms.sender m)) now st.pending)
      | inr (m, e) ↦
          ground
            (arith, weight-pull pm (λ m. w (ms.sender m)) now st.pending, ms.sender-take_data m)
    ]

    sender_of_taken :
        (m m' : ms.RequestMsg)
        → (m' ≡ m) ⊎ (m' ≡ (ms.take_data m).1)
        → w (ms.sender m') ≡ w (ms.sender m)
    sender_of_taken m m' (inl e) = rw e
    sender_of_taken m m' (inr e) = rw (e, ms.sender-take_data m)

    reject-Balanced :
        (st : State ms pm) (m : ms.RequestMsg) → Balanced st (w (ms.sender m)) (reject ms pm st m)
    unfolding reject
    reject-Balanced st m = ground (arith, ms.sender-take_data m)

    forward-Balanced :
        (su : Setup ms pm) (st : State ms pm) (svc : ms.ProcService) (m : ms.RequestMsg) (d : M)
        (i : ℕ) (ok? : Bool)
        → (pm.pull_msg i st.pending).0 ≡ none
        → Balanced st (w (ms.sender m)) (forward ms pm su st svc m d i ok?)
    unfolding forward
    forward-Balanced su st svc m d i true h = rw (ms.get_id-new_request) (
        omega (
          arith,
          weight-push_with_id pm (λ e. w (ms.sender e.1)) i m su.service_timeout st.pending h,
        ))
    forward-Balanced su st svc m d i false h = omega arith

    on_http-Balanced :
        (su : Setup ms pm) (st : State ms pm) (m : ms.RequestMsg) (i : ℕ) (ok? : Bool)
        → (pm.pull_msg i st.pending).0 ≡ none
        → Balanced st (w (ms.sender m)) (on_http ms pm su st m i ok?)
    on_http-Balanced su st m i ok? h =
        on_http_cases ms pm (Balanced st (w (ms.sender m))) su st m i ok?
          (λ m' e. rw (← sender_of_taken m m' e) (reject-Balanced st m'))
          (λ svc d _ _.
            rw (← ap w (ms.sender-take_data m))
              (forward-Balanced su st svc (ms.take_data m).1 d i ok? h))

    on_internal-Balanced :
        (st : State ms pm) (m : InternalMsg ms) (ok? : Bool)
        → Balanced st 0 (on_internal ms pm st m ok?)
    unfolding on_internal on_shutdown
    on_internal-Balanced st (response m) ok? = on_response-Balanced st m
    on_internal-Balanced st (error m) ok? = on_error-Balanced st m
    on_internal-Balanced st shutdown true = omega arith
    on_internal-Balanced st shutdown false = omega arith
    on_internal-Balanced st (request m) ok? = omega arith
    on_internal-Balanced st command ok? = omega arith
    on_internal-Balanced st config ok? = omega arith
    on_internal-Balanced st (service table) ok? = omega arith

    on_accept-Balanced : (st : State ms pm) (ok? : Bool) → Balanced st 0 (on_accept ms pm st ok?)
    unfolding on_accept
    on_accept-Balanced st true = omega arith
    on_accept-Balanced st false = omega arith

    pub turn-Balanced :
        (su : Setup ms pm) (st : State ms pm) (n : ℕ) (e : Event ms)
        → IsBelow ms pm n st.pending
        → Ascending n (e ∷ [])
        → Balanced st (arrived ms w e) (turn ms pm su st e)
    unfolding turn
    turn-Balanced su st n (internal m ok?) b a = on_internal-Balanced st m ok?
    turn-Balanced su st n (http m i ok?) b a =
        on_http-Balanced su st m i ok? (IsBelow-fresh ms pm n i st.pending b a.0)
    turn-Balanced su st n (accept ok?) b a = on_accept-Balanced st ok?
    turn-Balanced su st n (expire now) b a = on_expire-Balanced su st now

    -- Over any run, the requests that waited and those that came are together those answered or
    -- dropped and those that wait at the end, each as often: the equation holds for every weight of
    -- their senders. It supposes that identifiers in use are below `n` and that new ones ascend.
    pub run_balanced :
        (su : Setup ms pm) (st : State ms pm) (n : ℕ) (es : List (Event ms))
        → IsBelow ms pm n st.pending
        → Ascending n es
        → waiting st + weight (arrived ms w) (consumed su st es)
          ≡ weight (settled ms w) (run ms pm su st es).effects + waiting (run ms pm su st es).state
    unfolding run consumed
    run_balanced su st n [] b a = omega arith
    run_balanced su st n (e ∷ es) b a =
        let first = Ascending-head ms pm n e es a in
        let next = turn ms pm su st e in
        let ih =
          run_balanced su next.state (next_id n e) es (turn-IsBelow ms pm su st n b e first)
            (Ascending-tail ms pm n e es a) in
        ground (
          arith,
          turn-Balanced su st n e b first,
          ih,
          weight-append (settled ms w) next.effects (run ms pm su next.state es).effects,
        )
