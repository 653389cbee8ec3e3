-- ===== src/Server/Proc/Refinement.antt =====
-- The server's processor does what Server/Proc/Spec promises.
use mathlib.Core.Path.{fun_ext}
use pro_sa_hyper.Common.{
  ℕ, ◌≡◌, ◌≢◌, ◌==◌, ◌++◌, ◌⊎◌, refl, sym, subst, inl, inr, none, some, List, [], ◌∷◌, Bool, true,
  false, millis_u64, Option-cases, Bool-cases, arith,
}
use pro_sa_hyper.Prosa.{
  Messages, InternalMsg, request, response, error, command, config, service, shutdown,
}
use pro_sa_hyper.Prosa.Pending.{PendingMsgs}
use pro_sa_hyper.Prosa.Pending.Held.{pull_msg_twice, pull_msg_expired}
use pro_sa_hyper.Server.Proc.{
  Event, internal, http, accept, expire, Setup, State, Turn, Status, running, on_internal, respond,
  respond_error, timed_out, on_response, on_error, on_shutdown, reject, forward, take_or_reject,
  on_http, on_expire, on_accept, turn, run,
}
use pro_sa_hyper.Server.Proc.Identifiers.{
  IsBelow, Ascending, next_id, turn-IsBelow, Ascending-head, Ascending-tail,
}
use pro_sa_hyper.Server.Proc.Spec.{Waits, without, holding, Step, Steps}

module _ {M : Type 0} (ms : Messages M) (pm : PendingMsgs ms.RequestMsg) (su : Setup ms pm) where
  -- The waiting requests of a collection, as a map.
  abbrev pub waits : pm.Pending → Waits ms
  waits p i = (pm.pull_msg i p).0

  -- A turn is a step of the specification.
  abbrev pub Refines : State ms pm → Event ms → Turn ms pm → Type 0
  Refines st e t =
      Step ms (millis_u64 su.service_timeout) su.service_queue st.service (waits st.pending) e
        t.state.service (waits t.state.pending) t.effects t.status

  waits-pull_msg :
      (i n : ℕ) (p : pm.Pending)
      → IsBelow ms pm n p
      → without ms i (waits p) ≡ waits (pm.pull_msg i p).1
  waits-pull_msg i n p b =
      fun_ext λ j. ground (arith, pull_msg_twice pm i p (b.once i), pm.pull_msg_ne j i p)

  waits-missed :
      (i n : ℕ) (p : pm.Pending)
      → IsBelow ms pm n p
      → waits p i ≡ none
      → waits p ≡ waits (pm.pull_msg i p).1
  waits-missed i n p b e = fun_ext λ j. elim (Bool-cases (j == i)) [
    | inl same ↦ ground (arith, pull_msg_twice pm i p (b.once i))
    | inr other ↦ sym (pm.pull_msg_ne j i p (ground arith))
  ]

  module _ (st : State ms pm) (n : ℕ) (b : IsBelow ms pm n st.pending) where
    on_response-Refines :
        (m : ms.ResponseMsg) (ok? : Bool)
        → Refines st (internal (response m) ok?) (on_response ms pm st m)
    unfolding on_response respond
    on_response-Refines m ok? = elim (Option-cases (pm.pull_msg (ms.response_id m) st.pending).0) [
      | inl e ↦
          rw e (rw (sym (waits-missed (ms.response_id m) n st.pending b e)) (Step.response_late e))
      | inr (r, e) ↦ elim (Option-cases (ms.response_data m)) [
        | inl f ↦
            rw (e, f)
              (rw (sym (waits-pull_msg (ms.response_id m) n st.pending b))
                (Step.response_empty e f))
        | inr (d, f) ↦
            rw (e, f)
              (rw (sym (waits-pull_msg (ms.response_id m) n st.pending b))
                (Step.response_answers e f))
      ]
    ]

    on_error-Refines :
        (m : ms.ErrorMsg) (ok? : Bool) → Refines st (internal (error m) ok?) (on_error ms pm st m)
    unfolding on_error respond_error
    on_error-Refines m ok? = elim (Option-cases (pm.pull_msg (ms.error_id m) st.pending).0) [
      | inl e ↦ rw e (rw (sym (waits-missed (ms.error_id m) n st.pending b e)) (Step.error_late e))
      | inr (r, e) ↦
          rw e (rw (sym (waits-pull_msg (ms.error_id m) n st.pending b)) (Step.error_answers e))
    ]

    on_internal-Refines :
        (m : InternalMsg ms) (ok? : Bool) → Refines st (internal m ok?) (on_internal ms pm st m ok?)
    unfolding on_internal on_shutdown
    on_internal-Refines (request m) ok? = Step.request_panics
    on_internal-Refines (response m) ok? = on_response-Refines m ok?
    on_internal-Refines (error m) ok? = on_error-Refines m ok?
    on_internal-Refines command ok? = Step.command_panics
    on_internal-Refines config ok? = Step.config_panics
    on_internal-Refines (service table) ok? = Step.table_changes
    on_internal-Refines shutdown true = Step.stops
    on_internal-Refines shutdown false = Step.stop_fails

    waits-push :
        (i : ℕ) (m : ms.RequestMsg) (t : ℕ)
        → holding ms i m (waits st.pending) ≡ waits (pm.push_with_id i m t st.pending)
    waits-push i m t = fun_ext λ j. ground (
      arith,
      pm.pull_msg-push_with_id i m t st.pending,
      pm.pull_msg-push_with_id_ne j i m t st.pending,
    )

    forward-Refines :
        (m : ms.RequestMsg) (i : ℕ) (ok? : Bool) (svc : ms.ProcService) (d : M)
        → ms.get_proc_service st.service (ms.get_service m) ≡ some svc
        → (ms.take_data m).0 ≡ some d
        → Refines st (http m i ok?) (forward ms pm su st svc (ms.take_data m).1 d i ok?)
    unfolding forward
    forward-Refines m i true svc d e f =
        rw (ms.get_id-new_request, ms.get_service-take_data m)
          (rw (sym (waits-push i (ms.take_data m).1 su.service_timeout)) (Step.forwards e f))
    forward-Refines m i false svc d e f = Step.forward_fails e f

    on_http-Refines :
        (m : ms.RequestMsg) (i : ℕ) (ok? : Bool)
        → Refines st (http m i ok?) (on_http ms pm su st m i ok?)
    unfolding on_http take_or_reject reject
    on_http-Refines m i ok? =
        elim (Option-cases (ms.get_proc_service st.service (ms.get_service m))) [
          | inl e ↦ rw (e, on_http) (rw (ms.get_service-take_data m) (Step.rejects_unknown e))
          | inr (svc, e) ↦ elim (Option-cases (ms.take_data m).0) [
            | inl f ↦
                rw (e, on_http)
                  (rw (f, take_or_reject)
                    (rw
                      (
                        ms.take_data_twice m,
                        ms.get_service-take_data (ms.take_data m).1,
                        ms.get_service-take_data m,
                      )
                      (Step.rejects_empty e f)))
            | inr (d, f) ↦
                rw (e, on_http) (rw (f, take_or_reject) (forward-Refines m i ok? svc d e f))
          ]
        ]

    waits-expired :
        (now : ℕ) (r : ms.RequestMsg) (due : (pm.pull now st.pending).0 ≡ some r)
        → without ms (pm.pull_some now st.pending r due).0 (waits st.pending)
          ≡ waits (pm.pull now st.pending).1
    waits-expired now r due =
        let (i, perm, found, rest) = pm.pull_some now st.pending r due in
        fun_ext λ j. ground (arith, pull_msg_expired pm now st.pending r due (b.once i), rest j)

    on_expire-Refines : (now : ℕ) → Refines st (expire now) (on_expire ms pm su st now)
    unfolding on_expire timed_out
    on_expire-Refines now = elim (Bool-cases (pm.is_empty st.pending)) [
      | inl e ↦ rw e Step.nothing_expires
      | inr e ↦ elim (Option-cases (pm.pull now st.pending).0) [
        | inl f ↦
            rw (e, f)
              (rw (fun_ext λ i. pm.pull_msg_pull_none i now st.pending f) Step.nothing_expires)
        | inr (r, f) ↦
            rw (e, f)
              (rw (sym (waits-expired now r f), ms.get_service-take_data r)
                (Step.expires (pm.pull_some now st.pending r f).2))
      ]
    ]

    on_accept-Refines : (ok? : Bool) → Refines st (accept ok?) (on_accept ms pm st ok?)
    unfolding on_accept
    on_accept-Refines true = Step.accepts
    on_accept-Refines false = Step.accept_fails

    -- Where the identifiers in use are below some bound and used once, every turn of the loop is a
    -- step of the specification, with the pending requests as a map: same effects, same status.
    pub turn-Refines : (e : Event ms) → Refines st e (turn ms pm su st e)
    unfolding turn
    turn-Refines (internal m ok?) = on_internal-Refines m ok?
    turn-Refines (http m i ok?) = on_http-Refines m i ok?
    turn-Refines (accept ok?) = on_accept-Refines ok?
    turn-Refines (expire now) = on_expire-Refines now

  Status-cases : (s : Status) → (s ≡ running) ⊎ (s ≢ running)
  Status-cases Status.running = inl refl
  Status-cases Status.finished = inr (λ e. cc)
  Status-cases Status.failed = inr (λ e. cc)
  Status-cases Status.panicked = inr (λ e. cc)

  abbrev Follows : State ms pm → List (Event ms) → Turn ms pm → Type 0
  Follows st es t =
      Steps ms (millis_u64 su.service_timeout) su.service_queue st.service (waits st.pending) es
        t.state.service (waits t.state.pending) t.effects t.status

  run_ends :
      (st : State ms pm) (e : Event ms) (es : List (Event ms))
      → (turn ms pm su st e).status ≢ running
      → run ms pm su st (e ∷ es) ≡ turn ms pm su st e
  unfolding run
  run_ends st e es h = ground arith

  run_goes_on :
      (st : State ms pm) (e : Event ms) (es : List (Event ms))
      → (turn ms pm su st e).status ≡ running
      → run ms pm su st (e ∷ es) ≡ (
          let rest = run ms pm su (turn ms pm su st e).state es in
          record rest { effects = (turn ms pm su st e).effects ++ rest.effects })
  unfolding run
  run_goes_on st e es h = ground arith

  -- Every run of the loop is a sequence of steps of the specification, with the pending requests as
  -- a map, in which any request that waits may expire: same effects in the same order, same end.
  -- It supposes that identifiers in use are below `n` and used once, and that new ones ascend.
  pub run-Follows :
      (st : State ms pm) (n : ℕ) (es : List (Event ms))
      → IsBelow ms pm n st.pending
      → Ascending n es
      → Steps ms
          (millis_u64 su.service_timeout)
          su.service_queue
          st.service
          (waits st.pending)
          es
          (run ms pm su st es).state.service
          (waits (run ms pm su st es).state.pending)
          (run ms pm su st es).effects
          (run ms pm su st es).status
  unfolding run
  run-Follows st n [] b a = Steps.done
  run-Follows st n (e ∷ es) b a =
      let first = Ascending-head ms pm n e es a in
      let next = turn-IsBelow ms pm su st n b e first in
      let step = turn-Refines st n b e in
      let rest =
        run-Follows (turn ms pm su st e).state (next_id n e) es next
          (Ascending-tail ms pm n e es a) in
      elim (Status-cases (turn ms pm su st e).status) [
        | inl h ↦
            subst (λ t. Follows st (e ∷ es) t) (sym (run_goes_on st e es h))
              (Steps.goes_on (rw h at step) rest)
        | inr h ↦ subst (λ t. Follows st (e ∷ es) t) (sym (run_ends st e es h)) (Steps.ends step h)
      ]
