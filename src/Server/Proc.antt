-- ===== src/Server/Proc.antt =====
-- The main loop of the server's processor, `HyperServerProc::internal_run` of src/server/proc.rs:
-- one turn of its `select!` for each event, and a run over a list of events.
pub mod Identifiers
pub mod Ledger
pub mod Branches
pub mod Correlation
pub mod Spec
pub mod Refinement
pub mod Drain
use pro_sa_hyper.Common.{
  ℕ, ◌≡◌, refl, ◌⊎◌, inl, inr, Option-cases, Option, none, some, List, [], ◌∷◌, ◌++◌, Bool, true,
  false, if◌then◌else◌, millis_u64,
}
use pro_sa_hyper.Prosa.{
  Messages, InternalMsg, request, response, error, command, config, service, shutdown, ServiceError,
  unable_to_reach_service, timeout,
}
use pro_sa_hyper.Prosa.Pending.{PendingMsgs}

-- What a turn does besides changing the state, in order. A request that goes out of scope with no
-- answer is `dropped`; its sender's channel closes.
pub data Effect {M : Type 0} (ms : Messages M) : Type 0 where
  returned : ms.RequestMsg → M → Effect ms
  returned_error : ms.RequestMsg → Option M → ServiceError → Effect ms
  sent : ms.ProcService → ms.RequestMsg → Effect ms
  dropped : ms.RequestMsg → Effect ms
  spawned : Effect ms
  terminated : Effect ms
  removed : Effect ms

-- `finished` is `return Ok(())`, `failed` a return of an error by `?`.
pub data Status : Type 0 where
  running finished failed panicked : Status

-- What a turn of `select!` reacts to. `internal` says also whether `remove_proc` succeeds, `http`
-- the identifier that a new request gets and whether the service's queue accepts it, `accept`
-- whether a connection comes in, and `expire` at what time the pending requests are asked.
pub data Event {M : Type 0} (ms : Messages M) : Type 0 where
  internal : InternalMsg ms → Bool → Event ms
  http : ms.RequestMsg → ℕ → Bool → Event ms
  accept : Bool → Event ms
  expire : ℕ → Event ms

module _ {M : Type 0} (ms : Messages M) (pm : PendingMsgs ms.RequestMsg) where
  open ms use {
    RequestMsg, ResponseMsg, ErrorMsg, Sender, ServiceTable, ProcService, new_request, get_id,
    get_service, take_data, response_id, response_data, error_id, error_data, into_err,
    get_proc_service,
  }
  open pm use {Pending, push_with_id, pull_msg, pull, is_empty}

  -- `service_timeout` is in nanoseconds; `service_queue` is `self.proc.get_service_queue()`.
  pub record Setup : Type 0 where
    pub service_timeout : ℕ
    pub service_queue : Sender

  pub record State : Type 0 where
    pub service : ServiceTable
    pub pending : Pending

  pub record Turn : Type 0 where
    pub state : State
    pub effects : List (Effect ms)
    pub status : Status

  abbrev continue : State → List (Effect ms) → Turn
  continue st es = record { state = st; effects = es; status = running }

  abbrev halt : State → List (Effect ms) → Status → Turn
  halt st es s = record { state = st; effects = es; status = s }

  respond : Option RequestMsg → Option M → List (Effect ms)
  respond none d = []
  respond (some m) none = dropped m ∷ []
  respond (some m) (some d) = returned m d ∷ []

  unfoldable pub on_response : State → ResponseMsg → Turn
  unfolding respond
  on_response st msg =
      let (found, rest) = pull_msg (response_id msg) st.pending in
      continue (record st { pending = rest }) (respond found (response_data msg))

  respond_error : Option RequestMsg → Option M → ServiceError → List (Effect ms)
  respond_error none d e = []
  respond_error (some m) d e = returned_error m d e ∷ []

  unfoldable pub on_error : State → ErrorMsg → Turn
  unfolding respond_error
  on_error st msg =
      let (found, rest) = pull_msg (error_id msg) st.pending in
      continue (record st { pending = rest }) (respond_error found (error_data msg) (into_err msg))

  unfoldable pub on_shutdown : State → Bool → Turn
  on_shutdown st true = halt st (terminated ∷ removed ∷ []) finished
  on_shutdown st false = halt st (terminated ∷ []) failed

  unfoldable pub on_internal : State → InternalMsg ms → Bool → Turn
  unfolding on_response on_error on_shutdown
  on_internal st (request m) ok? = halt st [] panicked
  on_internal st (response m) ok? = on_response st m
  on_internal st (error m) ok? = on_error st m
  on_internal st command ok? = halt st [] panicked
  on_internal st config ok? = halt st [] panicked
  on_internal st (service table) ok? = continue (record st { service = table }) []
  on_internal st shutdown ok? = on_shutdown st ok?

  unfoldable pub reject : State → RequestMsg → Turn
  reject st m =
      let (d, m') = take_data m in
      continue st (returned_error m' d (unable_to_reach_service (get_service m')) ∷ [])

  unfoldable pub forward : Setup → State → ProcService → RequestMsg → M → ℕ → Bool → Turn
  forward su st svc m d i true =
      let r = new_request i (get_service m) d su.service_queue in
      continue (record st { pending = push_with_id (get_id r) m su.service_timeout st.pending })
        (sent svc r ∷ [])
  forward su st svc m d i false = halt st (dropped m ∷ []) failed

  take_or_reject : Setup → State → ProcService → Option M → RequestMsg → ℕ → Bool → Turn
  unfolding reject forward
  take_or_reject su st svc none m' i ok? = reject st m'
  take_or_reject su st svc (some d) m' i ok? = forward su st svc m' d i ok?

  unfoldable pub on_http : Setup → State → RequestMsg → ℕ → Bool → Turn
  unfolding take_or_reject reject
  on_http su st m i ok? = elim (get_proc_service st.service (get_service m)) [
    | none ↦ reject st m
    | some svc ↦ take_or_reject su st svc (take_data m).0 (take_data m).1 i ok?
  ]

  -- A request from HTTP is answered at once, or forwarded with its payload taken.
  pub on_http_cases {ℓ} :
      (P : Turn → Type ℓ) (su : Setup) (st : State) (m : RequestMsg) (i : ℕ) (ok? : Bool)
      → ((m' : RequestMsg) → (m' ≡ m) ⊎ (m' ≡ (take_data m).1) → P (reject st m'))
      → ((svc : ProcService) (d : M)
          → get_proc_service st.service (get_service m) ≡ some svc
          → (take_data m).0 ≡ some d
          → P (forward su st svc (take_data m).1 d i ok?))
      → P (on_http su st m i ok?)
  unfolding on_http take_or_reject
  on_http_cases P su st m i ok? rejected forwarded =
      elim (Option-cases (get_proc_service st.service (get_service m))) [
        | inl e ↦ rw (e, on_http) (rejected m (inl refl))
        | inr (svc, e) ↦ elim (Option-cases (take_data m).0) [
          | inl f ↦ rw (e, on_http) (rw (f, take_or_reject) (rejected (take_data m).1 (inr refl)))
          | inr (d, f) ↦ rw (e, on_http) (rw (f, take_or_reject) (forwarded svc d e f))
        ]
      ]

  timed_out : Setup → Option RequestMsg → List (Effect ms)
  timed_out su none = []
  timed_out su (some m) =
      let (d, m') = take_data m in
      returned_error m' d (timeout (get_service m') (millis_u64 su.service_timeout)) ∷ []

  unfoldable pub on_expire : Setup → State → ℕ → Turn
  unfolding timed_out
  on_expire su st now =
      let (found, rest) = pull now st.pending in
      if is_empty st.pending
      then continue st []
      else continue (record st { pending = rest }) (timed_out su found)

  unfoldable pub on_accept : State → Bool → Turn
  on_accept st true = continue st (spawned ∷ [])
  on_accept st false = halt st [] failed

  -- One turn of the loop.
  unfoldable pub turn : Setup → State → Event ms → Turn
  unfolding on_internal on_http on_expire on_accept
  turn su st (internal m ok?) = on_internal st m ok?
  turn su st (http m i ok?) = on_http su st m i ok?
  turn su st (accept ok?) = on_accept st ok?
  turn su st (expire now) = on_expire su st now

  abbrev after : List (Effect ms) → Turn → Turn
  after es t = record t { effects = es ++ t.effects }

  -- The loop over a list of events, until it ends or the events do.
  unfoldable pub run : Setup → State → List (Event ms) → Turn
  run su st [] = continue st []
  run su st (e ∷ es) =
      let t = turn su st e in
      let rest = run su t.state es in elim t.status [ running ↦ after t.effects rest | _ ↦ t ]
