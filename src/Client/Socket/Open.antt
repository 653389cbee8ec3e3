-- ===== src/Client/Socket/Open.antt =====
-- The start of a client's socket: `spawn`, the handshakes of `spawn_http1` and `spawn_h2`, their
-- error helpers and `setup_socket_queue`, of src/client/socket.rs.
pub mod Laws
use text.Mathlib.Text.{◌==◌ as str_eq}
use pro_sa_hyper.Common.{
  ℕ, String, Option, none, some, List, [], ◌∷◌, Bool, true, false, Result, ok, err, if◌then◌else◌,
}
use pro_sa_hyper.Prosa.{Messages}
use pro_sa_hyper.Http.{HttpApi, HyperProcError, io, hyper, internal_bus}
use pro_sa_hyper.Net.{Net, TargetSetting, h2}
use pro_sa_hyper.Client.Socket.{
  Socket, ClientAdaptor, Effect, queue_added, service_added, Setup, as_u32,
}

-- The `io::Error` of a connection, or the one made for a handshake that times out, with the protocol
-- and the milliseconds of its text.
pub data IoError (Io : Type 0) : Type 0 where
  connecting : Io → IoError Io
  timed_out : String → ℕ → IoError Io

pub data Protocol : Type 0 where
  http1 http2 : Protocol

abbrev pub protocol_name : Protocol → String
protocol_name http1 = "HTTP1"
protocol_name http2 = "HTTP2"

module _ {M : Type 0} (ms : Messages M) (ha : HttpApi) (net : Net) (ad : ClientAdaptor ms ha net)
    (Io Bus : Type 0) where
  -- What the outside gives: the connection, the handshake (`none` if it times out), and the
  -- registrations of the queue and of the service.
  pub record Attempt : Type 0 where
    pub connect : Result net.Stream Io
    pub handshake : Option (Result (Unit {0}) ha.HyperCrateError)
    pub add_queue : Result (Unit {0}) Bus
    pub add_service : Result (Unit {0}) Bus

  pub record Opened : Type 0 where
    pub protocol : Protocol
    pub setup : Setup ms ha net ad

  abbrev pub Failure : Type 0
  Failure = HyperProcError (IoError Io) ha.HyperCrateError Bus

  handle_handshake_timeout : ℕ → Protocol → Failure
  handle_handshake_timeout timeout_ms p = io (timed_out (protocol_name p) timeout_ms)

  handle_handshake_error : String → ha.HyperCrateError → Failure
  handle_handshake_error addr e = hyper e addr

  register_service :
      String → ℕ → Result (Unit {0}) Bus → Result (Unit {0}) Failure × List (Effect ms)
  register_service name id (ok u) = (ok tt, queue_added id ∷ service_added name id ∷ [])
  register_service name id (err e) = (err (internal_bus e), queue_added id ∷ [])

  setup_socket_queue :
      String
      → ℕ
      → Result (Unit {0}) Bus
      → Result (Unit {0}) Bus
      → Result (Unit {0}) Failure × List (Effect ms)
  unfolding register_service
  setup_socket_queue name id (ok u) added = register_service name id added
  setup_socket_queue name id (err e) added = (err (internal_bus e), [])

  after_setup :
      Opened
      → Result (Unit {0}) Failure × List (Effect ms)
      → Result Opened Failure × List (Effect ms)
  after_setup o (ok u, es) = (ok o, es)
  after_setup o (err e, es) = (err e, es)

  -- The handshake of `spawn_http1` or `spawn_h2`, up to their loops. `addr` is the target's text.
  unfoldable pub shake :
      Socket net
      → String
      → String
      → Protocol
      → net.Stream
      → Attempt
      → Option (Result (Unit {0}) ha.HyperCrateError)
      → Result Opened Failure × List (Effect ms)
  unfolding setup_socket_queue handle_handshake_timeout handle_handshake_error after_setup
  shake self name addr p stream at none =
      (err (handle_handshake_timeout self.target.connect_timeout p), [])
  shake self name addr p stream at (some (err e)) = (err (handle_handshake_error addr e), [])
  shake self name addr p stream at (some (ok u)) =
      let fd = net.as_raw_fd stream in
      after_setup
        (record { protocol = p; setup = record { socket = self; fd = fd; service_name = name } })
        (setup_socket_queue name (as_u32 fd) at.add_queue at.add_service)

  unfoldable pub on_connect :
      Socket net
      → String
      → String
      → Attempt
      → Result net.Stream Io
      → Result Opened Failure × List (Effect ms)
  unfolding shake
  on_connect self name addr at (err e) = (err (io (connecting e)), [])
  on_connect self name addr at (ok stream) =
      if net.selected_alpn_check (λ p. str_eq p h2) stream
      then shake (record self { is_http2 = true }) name addr http2 stream at at.handshake
      else shake self name addr http1 stream at at.handshake

  -- The task that `spawn` starts, up to the loop of its protocol.
  unfoldable pub spawn :
      Socket net → String → String → Attempt → Result Opened Failure × List (Effect ms)
  unfolding on_connect
  spawn self name addr at = on_connect self name addr at at.connect
