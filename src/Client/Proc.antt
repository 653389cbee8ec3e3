-- ===== src/Client/Proc.antt =====
-- The client's processor: its settings and the main loop `HyperClientProc::internal_run`, of
-- src/client/proc.rs.
pub mod Sockets
pub mod Targets
use pro_sa_hyper.Common.{
  ℕ, zero, suc, ◌-◌, ◌==◌, String, Option, none, some, List, [], ◌∷◌, ◌++◌, Bool, true, false,
  Result, ok, err, if◌then◌else◌, length,
}
use pro_sa_hyper.Prosa.{
  Messages, InternalMsg, request, response, error, command, config, service, shutdown,
}
use pro_sa_hyper.Net.{Net, TargetSetting}
use pro_sa_hyper.Client.Socket.{Socket, new}

module _ (net : Net) where
  -- `http_timeout` is in milliseconds.
  pub record Settings : Type 0 where
    pub service_name : String
    pub backends : List (TargetSetting net)
    pub min_socket : ℕ
    pub max_socket : ℕ
    pub http_timeout : ℕ

  unfoldable pub default_settings : Settings
  default_settings = record {
    service_name = "hyper";
    backends = [];
    min_socket = 1;
    max_socket = 20;
    http_timeout = 5000;
  }

  unfoldable pub new_settings : String → Settings
  unfolding default_settings
  new_settings name = record default_settings { service_name = name }

  unfoldable pub add_backend : Settings → TargetSetting net → Settings
  add_backend s t = record s { backends = s.backends ++ t ∷ [] }

  -- The inner loop of the creation of sockets.
  unfoldable pub backend_sockets : TargetSetting net → ℕ → ℕ → List (Socket net)
  backend_sockets t timeout zero = []
  backend_sockets t timeout (suc n) = new net t timeout ∷ backend_sockets t timeout n

  unfoldable pub create_sockets : List (TargetSetting net) → ℕ → ℕ → List (Socket net)
  unfolding backend_sockets
  create_sockets [] n timeout = []
  create_sockets (t ∷ ts) n timeout = backend_sockets t timeout n ++ create_sockets ts n timeout

-- What the processor does besides changing its state, in order. `gauge` is an entry of
-- `prosa_hyper_cli_socket`.
pub data Effect (net : Net) : Type 0 where
  spawned : Socket net → Effect net
  gauge : ℕ → Effect net
  terminated : Effect net
  removed : Effect net

pub data Status : Type 0 where
  running finished failed panicked : Status

module _ {M : Type 0} (ms : Messages M) (net : Net) (E J : Type 0) where
  -- `internal` says also whether `remove_proc` succeeds. `joined` is the end of a socket's task: a
  -- failure of the task itself, or the socket's result.
  pub data Event : Type 0 where
    internal : InternalMsg ms → Bool → Event
    joined : Result (Result (Socket net) E) J → Event

  -- `live` is `client_sockets.len()`.
  pub record State : Type 0 where
    pub service : ms.ServiceTable
    pub live : ℕ

  pub record Turn : Type 0 where
    pub state : State
    pub effects : List (Effect net)
    pub status : Status

  abbrev pub continue : State → List (Effect net) → Turn
  continue st es = record { state = st; effects = es; status = running }

  abbrev pub halt : State → List (Effect net) → Status → Turn
  halt st es s = record { state = st; effects = es; status = s }

  unfoldable pub spawn_all : List (Socket net) → List (Effect net)
  spawn_all [] = []
  spawn_all (s ∷ ss) = spawned s ∷ spawn_all ss

  -- The part before the loop, with whether the adaptor is made and the processor added.
  unfoldable pub start : Settings net → Bool → Bool → State → Turn
  unfolding create_sockets spawn_all
  start s false added st = halt st [] failed
  start s true false st = halt st [] failed
  start s true true st = elim s.backends [
    | [] ↦ halt st [] failed
    | t ∷ ts ↦
        let sockets = create_sockets net s.backends s.min_socket s.http_timeout in
        continue (record st { live = length sockets })
          (spawn_all sockets ++ gauge (length sockets) ∷ [])
  ]

  on_shutdown : State → Bool → Turn
  on_shutdown st true = halt st (terminated ∷ removed ∷ []) finished
  on_shutdown st false = halt st (terminated ∷ []) failed

  on_internal : State → InternalMsg ms → Bool → Turn
  unfolding on_shutdown
  on_internal st (request m) ok? = halt st [] panicked
  on_internal st (response m) ok? = halt st [] panicked
  on_internal st (error m) ok? = halt st [] panicked
  on_internal st command ok? = halt st [] panicked
  on_internal st config ok? = halt st [] panicked
  on_internal st (service table) ok? = continue (record st { service = table }) []
  on_internal st shutdown ok? = on_shutdown st ok?

  -- The task is taken out of the set; a socket that ended is spawned again.
  on_joined : State → Result (Result (Socket net) E) J → Turn
  on_joined st (err j) = halt (record st { live = st.live - 1 }) [] failed
  on_joined st (ok (ok s)) =
      let n = suc (st.live - 1) in continue (record st { live = n }) (spawned s ∷ gauge n ∷ [])
  on_joined st (ok (err e)) =
      let n = st.live - 1 in continue (record st { live = n }) (gauge n ∷ [])

  -- One turn of the loop. The set is asked only while it is not empty; `none` is no turn.
  unfoldable pub turn : State → Event → Option Turn
  unfolding on_internal on_joined
  turn st (internal m ok?) = some (on_internal st m ok?)
  turn st (joined r) = if st.live == 0 then none else some (on_joined st r)

  abbrev after : List (Effect net) → Turn → Turn
  after es t = record t { effects = es ++ t.effects }

  -- The loop over a list of events, until it ends or the events do.
  unfoldable pub run : State → List Event → Option Turn
  run st [] = some (continue st [])
  run st (e ∷ es) = elim (turn st e) [
    | none ↦ none
    | some t ↦ elim t.status [
      | running ↦ elim (run t.state es) [ none ↦ none | some u ↦ some (after t.effects u) ]
      | other ↦ some t
    ]
  ]
