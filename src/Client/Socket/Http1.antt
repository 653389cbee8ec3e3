-- ===== src/Client/Socket/Http1.antt =====
-- The loop of a socket that speaks HTTP/1.1: `spawn_http1` of src/client/socket.rs after the
-- handshake.
pub mod Ledger
pub mod Drops
pub mod Closing
pub mod Kept
use pro_sa_hyper.Common.{ℕ, String, Option, none, some, List, [], ◌∷◌, ◌++◌, Bool, Result, ok, err}
use pro_sa_hyper.Prosa.{
  Messages, InternalMsg, request, response, error, command, config, service, shutdown,
}
use pro_sa_hyper.Http.{HttpApi}
use pro_sa_hyper.Net.{Net}
use pro_sa_hyper.Client.Socket.{
  Socket, ClientAdaptor, Effect, dropped, Status, running, panicked, Setup, close_socket,
  drop_queue, process_request, settle,
}

module _ {M : Type 0} (ms : Messages M) (ha : HttpApi) (net : Net)
    (ad : ClientAdaptor ms ha net) where
  -- What a `select!` of the loop reacts to. `lost` is an error of the connection, `answered` the
  -- result of `send_request`, `elapsed` its timeout and `received` a message of the queue. Where the
  -- loop ends, the list is what its queue then holds and the flag whether it can be removed.
  pub data Event : Type 0 where
    lost : List (InternalMsg ms) → Bool → Event
    answered : Result ha.Response ha.HyperCrateError → Event
    elapsed : List (InternalMsg ms) → Bool → Event
    received : InternalMsg ms → List (InternalMsg ms) → Bool → Event

  -- `msg_to_send`: the request in flight, and what is sent for it.
  abbrev pub State : Type 0
  State = Option (ms.RequestMsg × ha.Request)

  pub record Turn : Type 0 where
    pub state : State
    pub effects : List (Effect ms)
    pub status : Status net

  abbrev continue : State → List (Effect ms) → Turn
  continue st es = record { state = st; effects = es; status = running }

  abbrev close :
      Setup ms ha net ad → List (Effect ms) → List (InternalMsg ms) → Bool → List (Effect ms) → Turn
  close su before q ok? later =
      let (es, status) = close_socket ms ha net ad su su.socket q ok? in
      record { state = none; effects = before ++ (es ++ later); status = status }

  -- The `select!` while a request is in flight; it reads no message.
  pub sending : Setup ms ha net ad → ms.RequestMsg → Event → Option Turn
  unfolding settle close_socket
  sending su m (lost q ok?) = some (close su [] q ok? (dropped m ∷ []))
  sending su m (answered r) = some (continue none (settle ms ha net ad su "HTTP/1" m (some r)))
  sending su m (elapsed q ok?) = some (close su (settle ms ha net ad su "HTTP/1" m none) q ok? [])
  sending su m (received x q ok?) = none

  -- A panic unwinds the task, and its queue with what it holds.
  abbrev panic : List (InternalMsg ms) → Turn
  panic q = record { state = none; effects = drop_queue ms ha net ad q; status = panicked }

  on_message : Setup ms ha net ad → InternalMsg ms → List (InternalMsg ms) → Bool → Turn
  unfolding process_request close_socket drop_queue
  on_message su (request m) q ok? =
      let (next, es) = process_request ms ha net ad m su.socket.target.url su.service_name in
      continue next es
  on_message su (response m) q ok? = panic q
  on_message su (error m) q ok? = panic q
  on_message su command q ok? = continue none []
  on_message su config q ok? = continue none []
  on_message su (service table) q ok? = continue none []
  on_message su shutdown q ok? = close su [] q ok? []

  -- The `select!` with no request in flight.
  pub idle : Setup ms ha net ad → Event → Option Turn
  unfolding on_message close_socket
  idle su (lost q ok?) = some (close su [] q ok? [])
  idle su (received x q ok?) = some (on_message su x q ok?)
  idle su (answered r) = none
  idle su (elapsed q ok?) = none

  -- One turn of the loop; `none` where its `select!` has no branch for the event.
  unfoldable pub turn : Setup ms ha net ad → State → Event → Option Turn
  unfolding sending idle
  turn su none e = idle su e
  turn su (some (m, r)) e = sending su m e

  abbrev after : List (Effect ms) → Turn → Turn
  after es t = record t { effects = es ++ t.effects }

  -- The loop over a list of events, until it ends or the events do.
  unfoldable pub run : Setup ms ha net ad → State → List Event → Option Turn
  run su st [] = some (continue st [])
  run su st (e ∷ es) = elim (turn su st e) [
    | none ↦ none
    | some t ↦ elim t.status [
      | running ↦ elim (run su t.state es) [ none ↦ none | some u ↦ some (after t.effects u) ]
      | other ↦ some t
    ]
  ]
