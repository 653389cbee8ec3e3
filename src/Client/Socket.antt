-- ===== src/Client/Socket.antt =====
-- A socket of the client, `HyperClientSocket` of src/client/socket.rs: its creation, and what its
-- two loops (in the child modules) share.
pub mod Weights
pub mod Unanswered
pub mod Http1
pub mod Http2
pub mod Open
pub mod Lives
pub mod Exchange
pub mod Offers
use pro_sa_hyper.Common.{
  ℕ, String, Option, none, some, List, [], ◌∷◌, ◌++◌, Bool, true, false, if◌then◌else◌, Result, ok,
  err, from_millis, millis_u64, ◌%◌, ◌^◌,
}
use pro_sa_hyper.Prosa.{
  Messages, InternalMsg, request, response, error, command, config, service, shutdown, ServiceError,
  unable_to_reach_service, timeout,
}
use pro_sa_hyper.Http.{HttpApi, hyper_version_str}
use pro_sa_hyper.Net.{Net, TargetSetting, protocols}

-- `http_timeout` is in nanoseconds.
pub record Socket (net : Net) : Type 0 where
  pub target : TargetSetting net
  pub is_http2 : Bool
  pub http_timeout : ℕ

module _ (net : Net) where
  -- The protocols are set where there is a TLS configuration; a target whose URL asks for TLS gets
  -- one.
  choose_ssl : net.Url → Option net.SslConfig → Option net.SslConfig
  choose_ssl url (some ssl) = some (net.set_alpn protocols ssl)
  choose_ssl url none =
      if net.url_is_ssl url then some (net.set_alpn protocols net.default_ssl) else none

  -- The timeout is given in milliseconds.
  unfoldable pub new : TargetSetting net → ℕ → Socket net
  unfolding choose_ssl
  new target http_timeout = record {
    target = record target { ssl = choose_ssl target.url target.ssl };
    is_http2 = false;
    http_timeout = from_millis http_timeout;
  }

-- `HyperClientAdaptor`. The types of the client's requests and responses differ from the server's in
-- their bodies, which the sockets pass on.
pub record ClientAdaptor {M : Type 0} (ms : Messages M) (ha : HttpApi) (net : Net) : Type 0 where
  pub process_srv_request : M → net.Url → Result ha.Request ServiceError
  pub process_http_response : Result ha.Response ha.HyperCrateError → Result M ServiceError

-- What a socket does besides changing its state, in order. `dropped` is a request that goes out of
-- scope with no answer. `recorded` is an entry of the histogram, with its code and version.
pub data Effect {M : Type 0} (ms : Messages M) : Type 0 where
  returned : ms.RequestMsg → M → Effect ms
  returned_error : ms.RequestMsg → Option M → ServiceError → Effect ms
  dropped : ms.RequestMsg → Effect ms
  recorded : ℕ → String → Effect ms
  queue_added : ℕ → Effect ms
  service_added : String → ℕ → Effect ms
  queue_removed : ℕ → Effect ms

-- `closed` is a return of the socket, `failed` a return of an error of the bus.
pub data Status (net : Net) : Type 0 where
  running : Status net
  closed : Socket net → Status net
  failed : Status net
  panicked : Status net

-- `socket_id as u32`, of a file descriptor that is not negative.
abbrev pub as_u32 : ℕ → ℕ
as_u32 fd = fd % 2 ^ 32

module _ {M : Type 0} (ms : Messages M) (ha : HttpApi) (net : Net)
    (ad : ClientAdaptor ms ha net) where
  -- The socket (`self`), its file descriptor and the name of the service that it serves.
  pub record Setup : Type 0 where
    pub socket : Socket net
    pub fd : ℕ
    pub service_name : String

  -- What is left of the messages in a queue that is dropped.
  pub drop_queue : List (InternalMsg ms) → List (Effect ms)
  drop_queue [] = []
  drop_queue (request m ∷ q) = dropped m ∷ drop_queue q
  drop_queue (_ ∷ q) = drop_queue q

  -- The loop of `close_socket!`, over the messages that `try_recv` gives.
  pub refuse_queue : String → List (InternalMsg ms) → List (Effect ms)
  refuse_queue s [] = []
  refuse_queue s (request m ∷ q) =
      returned_error m none (unable_to_reach_service s) ∷ refuse_queue s q
  refuse_queue s (_ ∷ q) = refuse_queue s q

  -- `close_socket!`, with what is in the queue and whether `remove_proc_queue` succeeds.
  unfoldable pub close_socket :
      Setup → Socket net → List (InternalMsg ms) → Bool → List (Effect ms) × Status net
  unfolding drop_queue refuse_queue
  close_socket su self q true =
      (queue_removed (as_u32 su.fd) ∷ refuse_queue su.service_name q, closed self)
  close_socket su self q false = (drop_queue q, failed)

  -- `process_request`, with the effects of the failing branches. The payload is taken already.
  build_request :
      String
      → net.Url
      → Option M
      → ms.RequestMsg
      → Option (ms.RequestMsg × ha.Request) × List (Effect ms)
  build_request s url none m = (none, returned_error m none (unable_to_reach_service s) ∷ [])
  build_request s url (some d) m = elim (ad.process_srv_request d url) [
    | ok r ↦ (some (m, r), [])
    | err e ↦ (none, returned_error m none e ∷ [])
  ]

  unfoldable pub process_request :
      ms.RequestMsg → net.Url → String → Option (ms.RequestMsg × ha.Request) × List (Effect ms)
  unfolding build_request
  process_request m url s = build_request s url (ms.take_data m).0 (ms.take_data m).1

  -- The entry of the histogram, with the version written for a failed exchange.
  record_exchange : String → Result ha.Response ha.HyperCrateError → Effect ms
  record_exchange version (ok r) = recorded (ha.status_of r) (hyper_version_str (ha.version_of r))
  record_exchange version (err e) = recorded 500 version

  send_back : ms.RequestMsg → Result M ServiceError → Effect ms
  send_back m (ok d) = returned m d
  send_back m (err e) = returned_error m none e

  -- What happens when an exchange ends: with its result, or (`none`) by the timeout.
  pub settle :
      Setup
      → String
      → ms.RequestMsg
      → Option (Result ha.Response ha.HyperCrateError)
      → List (Effect ms)
  unfolding record_exchange send_back
  settle su version m (some r) =
      record_exchange version r ∷ send_back m (ad.process_http_response r) ∷ []
  settle su version m none =
      returned_error m none (timeout su.service_name (millis_u64 su.socket.http_timeout)) ∷ []
