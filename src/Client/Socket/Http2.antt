-- ===== src/Client/Socket/Http2.antt =====
-- The loop of a socket that speaks HTTP/2: `spawn_h2` of src/client/socket.rs after the handshake.
-- Each request runs in a task of its own, which outlives the loop.
pub mod Ledger
pub mod Drops
pub mod Closing
pub mod Kept
use pro_sa_hyper.Common.{
  pick, ℕ, zero, suc, String, Option, none, some, List, [], ◌∷◌, ◌++◌, Bool, true, Result, ok, err,
}
use pro_sa_hyper.Prosa.{
  Messages, InternalMsg, request, response, error, command, config, service, shutdown,
  unable_to_reach_service,
}
use pro_sa_hyper.Http.{HttpApi}
use pro_sa_hyper.Net.{Net}
use pro_sa_hyper.Client.Socket.{
  Socket, ClientAdaptor, Effect, returned_error, Status, running, panicked, Setup, close_socket,
  drop_queue, settle,
}

module _ {M : Type 0} (ms : Messages M) (ha : HttpApi) (net : Net)
    (ad : ClientAdaptor ms ha net) where
  -- What the loop or one of its tasks reacts to. `finished` is the end of a task, by its number, with
  -- the result of `send_request` or, for its timeout, with none.
  pub data Event : Type 0 where
    lost : List (InternalMsg ms) → Bool → Event
    received : InternalMsg ms → List (InternalMsg ms) → Bool → Event
    finished : ℕ → Option (Result ha.Response ha.HyperCrateError) → Event

  -- The requests of the tasks that run, without their payloads, and these payloads.
  abbrev pub State : Type 0
  State = List (ms.RequestMsg × M)

  pub record Turn : Type 0 where
    pub state : State
    pub effects : List (Effect ms)
    pub status : Status net

  abbrev continue : State → List (Effect ms) → Turn
  continue st es = record { state = st; effects = es; status = running }

  abbrev close : Setup ms ha net ad → State → List (InternalMsg ms) → Bool → Turn
  close su st q ok? =
      let (es, status) =
        close_socket ms ha net ad su (record su.socket { is_http2 = true }) q ok? in
      record { state = st; effects = es; status = status }

  -- What a task does in all.
  unfoldable pub run_task :
      Setup ms ha net ad
      → ms.RequestMsg
      → M
      → Option (Result ha.Response ha.HyperCrateError)
      → List (Effect ms)
  unfolding settle
  run_task su m d outcome = elim (ad.process_srv_request d su.socket.target.url) [
    | ok r ↦ settle ms ha net ad su "HTTP/2" m outcome
    | err e ↦ returned_error m none e ∷ []
  ]

  start_task : Setup ms ha net ad → State → Option M → ms.RequestMsg → Turn
  start_task su st none m =
      continue st (returned_error m none (unable_to_reach_service su.service_name) ∷ [])
  start_task su st (some d) m = continue ((m, d) ∷ st) []

  -- A panic unwinds the loop's task, and its queue with what it holds; the tasks of requests go on.
  abbrev panic : State → List (InternalMsg ms) → Turn
  panic st q = record { state = st; effects = drop_queue ms ha net ad q; status = panicked }

  on_message : Setup ms ha net ad → State → InternalMsg ms → List (InternalMsg ms) → Bool → Turn
  unfolding start_task close_socket drop_queue
  on_message su st (request m) q ok? = start_task su st (ms.take_data m).0 (ms.take_data m).1
  on_message su st (response m) q ok? = panic st q
  on_message su st (error m) q ok? = panic st q
  on_message su st command q ok? = continue st []
  on_message su st config q ok? = continue st []
  on_message su st (service table) q ok? = continue st []
  on_message su st shutdown q ok? = close su st q ok?

  -- One turn of the loop, or the end of a task; `none` where there is no task of that number.
  unfoldable pub turn : Setup ms ha net ad → State → Event → Option Turn
  unfolding on_message close_socket run_task pick
  turn su st (lost q ok?) = some (close su st q ok?)
  turn su st (received x q ok?) = some (on_message su st x q ok?)
  turn su st (finished n outcome) = elim (pick n st) [
    | none ↦ none
    | some ((m, d), rest) ↦ some (continue rest (run_task su m d outcome))
  ]

  abbrev after : List (Effect ms) → Turn → Turn
  after es t = record t { effects = es ++ t.effects }

  -- The loop over a list of events, until it ends or the events do.
  unfoldable pub run : Setup ms ha net ad → State → List Event → Option Turn
  run su st [] = some (continue st [])
  run su st (e ∷ es) = elim (turn su st e) [
    | none ↦ none
    | some t ↦ elim t.status [
      | running ↦ elim (run su t.state es) [ none ↦ none | some u ↦ some (after t.effects u) ]
      | other ↦ some t
    ]
  ]
