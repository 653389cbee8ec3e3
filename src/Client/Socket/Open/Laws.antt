-- ===== src/Client/Socket/Open/Laws.antt =====
-- What a client's socket is after its start.
use text.Mathlib.Text.{◌==◌ as str_eq}
use pro_sa_hyper.Common.{
  ℕ, ◌≡◌, ◌↔◌, ◌⊎◌, ◌∙◌, refl, inl, inr, String, Option, none, some, List, [], ◌∷◌, true, Result,
  ok, err, arith, Bool-cases,
}
use pro_sa_hyper.Prosa.{Messages}
use pro_sa_hyper.Http.{HttpApi, internal_bus}
use pro_sa_hyper.Net.{Net, h2}
use pro_sa_hyper.Net.Alpn.{alpn_iff}
use pro_sa_hyper.Client.Socket.{Socket, ClientAdaptor, Effect, queue_added, service_added, as_u32}
use pro_sa_hyper.Client.Socket.Open.{
  Protocol, http1, http2, Attempt, Opened, Failure, shake, on_connect, spawn, after_setup,
  setup_socket_queue,
}

module _ {M : Type 0} (ms : Messages M) (ha : HttpApi) (net : Net) (ad : ClientAdaptor ms ha net)
    (Io Bus : Type 0) (self : Socket net) (name addr : String)
    (at : Attempt ms ha net ad Io Bus) where
  -- The socket speaks the protocol for which the connection was made, keeps its target and timeout,
  -- and is registered, with its service, under its file descriptor cut to 32 bits. Its mark
  -- `is_http2` is set by HTTP/2 and never cleared.
  pub record IsOpened (o : Opened ms ha net ad Io Bus) (es : List (Effect ms)) : Type 0 where
    pub stream : net.Stream
    pub connected : at.connect ≡ ok stream
    pub http2_iff : (o.protocol ≡ http2) ↔ (net.selected_alpn stream ≡ some h2)
    pub marked_iff :
        (o.setup.socket.is_http2 ≡ true) ↔ ((self.is_http2 ≡ true) ⊎ (o.protocol ≡ http2))
    pub target : o.setup.socket.target ≡ self.target
    pub http_timeout : o.setup.socket.http_timeout ≡ self.http_timeout
    pub service_name : o.setup.service_name ≡ name
    pub registered :
        es ≡ queue_added (as_u32 o.setup.fd) ∷ service_added name (as_u32 o.setup.fd) ∷ []

  pub shake_ok :
      (s : Socket net) (p : Protocol) (stream : net.Stream)
      (hs : Option (Result (Unit {0}) ha.HyperCrateError)) (o : Opened ms ha net ad Io Bus)
      → (shake ms ha net ad Io Bus s name addr p stream at hs).0 ≡ ok o
      → (o ≡ record {
        protocol = p;
        setup = record { socket = s; fd = net.as_raw_fd stream; service_name = name };
      })
        × ((shake ms ha net ad Io Bus s name addr p stream at hs).1
            ≡ queue_added (as_u32 (net.as_raw_fd stream))
              ∷ service_added name (as_u32 (net.as_raw_fd stream))
              ∷ [])
  unfolding shake
  shake_ok s p stream none o h = cc
  shake_ok s p stream (some (err e)) o h = cc
  shake_ok s p stream (some (ok u)) o h = ground arith

  on_connect-IsOpened :
      (c : Result net.Stream Io) (o : Opened ms ha net ad Io Bus)
      → at.connect ≡ c
      → (on_connect ms ha net ad Io Bus self name addr at c).0 ≡ ok o
      → IsOpened o (on_connect ms ha net ad Io Bus self name addr at c).1
  unfolding on_connect
  on_connect-IsOpened (err e) o q h = cc
  on_connect-IsOpened (ok stream) o q h =
      elim (Bool-cases (net.selected_alpn_check (λ p. str_eq p h2) stream)) [
        | inl yes? ↦
            let (same, es) =
              shake_ok (record self { is_http2 = true }) http2 stream at.handshake o
                (rw (yes?, on_connect) at h) in
            rw (yes?, on_connect)
              (record {
                stream = stream;
                connected = q;
                http2_iff = (λ _. (alpn_iff net stream).0 yes?, λ _. rw same);
                marked_iff = (λ _. inr (rw same), λ _. rw same);
                target = rw same;
                http_timeout = rw same;
                service_name = rw same;
                registered = es ∙ rw same;
              })
        | inr no? ↦
            let (same, es) =
              shake_ok self http1 stream at.handshake o (rw (no?, on_connect) at h) in
            rw (no?, on_connect)
              (record {
                stream = stream;
                connected = q;
                http2_iff = (
                  λ e. absurd (ground arith),
                  λ e. absurd (ground (arith, (alpn_iff net stream).1 e)),
                );
                marked_iff = (λ e. inl (ground arith), λ e. ground arith);
                target = rw same;
                http_timeout = rw same;
                service_name = rw same;
                registered = es ∙ rw same;
              })
      ]

  -- Whenever a socket starts, it is opened as `IsOpened` says.
  pub spawn-IsOpened :
      (o : Opened ms ha net ad Io Bus)
      → (spawn ms ha net ad Io Bus self name addr at).0 ≡ ok o
      → IsOpened o (spawn ms ha net ad Io Bus self name addr at).1
  unfolding spawn
  spawn-IsOpened o h = on_connect-IsOpened at.connect o refl h

  -- Nothing is registered, or only the queue, for the bus's error on the service.
  abbrev Leaves : Result (Unit {0}) Bus → Failure ms ha net ad Io Bus → List (Effect ms) → Type 0
  Leaves added e es =
      (es ≡ [])
      ⊎ ((fd : ℕ) × (b : Bus) × (added ≡ err b)
          × (e ≡ internal_bus b)
          × (es ≡ queue_added (as_u32 fd) ∷ []))

  setup-Leaves :
      (fd : ℕ) (a b : Result (Unit {0}) Bus) (e : Failure ms ha net ad Io Bus)
      → (setup_socket_queue ms ha net ad Io Bus name (as_u32 fd) a b).0 ≡ err e
      → Leaves b e (setup_socket_queue ms ha net ad Io Bus name (as_u32 fd) a b).1
  unfolding setup_socket_queue
  setup-Leaves fd (err x) b e h = inl refl
  setup-Leaves fd (ok u) (ok v) e h = cc
  setup-Leaves fd (ok u) (err x) e h = inr (fd, x, refl, ground arith, refl)

  after_setup-Leaves :
      (o : Opened ms ha net ad Io Bus) (b : Result (Unit {0}) Bus)
      (r : Result (Unit {0}) (Failure ms ha net ad Io Bus) × List (Effect ms))
      (e : Failure ms ha net ad Io Bus)
      → ((x : Failure ms ha net ad Io Bus) → r.0 ≡ err x → Leaves b x r.1)
      → (after_setup ms ha net ad Io Bus o r).0 ≡ err e
      → Leaves b e (after_setup ms ha net ad Io Bus o r).1
  unfolding after_setup
  after_setup-Leaves o b (ok u, es) e k h = cc
  after_setup-Leaves o b (err x, es) e k h = k e (ground arith)

  shake-Leaves :
      (s : Socket net) (p : Protocol) (stream : net.Stream)
      (hs : Option (Result (Unit {0}) ha.HyperCrateError)) (e : Failure ms ha net ad Io Bus)
      → (shake ms ha net ad Io Bus s name addr p stream at hs).0 ≡ err e
      → Leaves at.add_service e (shake ms ha net ad Io Bus s name addr p stream at hs).1
  unfolding shake
  shake-Leaves s p stream none e h = inl refl
  shake-Leaves s p stream (some (err x)) e h = inl refl
  shake-Leaves s p stream (some (ok u)) e h =
      after_setup-Leaves _ at.add_service _ e
        (λ x. setup-Leaves (net.as_raw_fd stream) at.add_queue at.add_service x) h

  on_connect-Leaves :
      (c : Result net.Stream Io) (e : Failure ms ha net ad Io Bus)
      → (on_connect ms ha net ad Io Bus self name addr at c).0 ≡ err e
      → Leaves at.add_service e (on_connect ms ha net ad Io Bus self name addr at c).1
  unfolding on_connect
  on_connect-Leaves (err x) e h = inl refl
  on_connect-Leaves (ok stream) e h =
      elim (Bool-cases (net.selected_alpn_check (λ p. str_eq p h2) stream)) [
        | inl yes? ↦
            rw (yes?, on_connect)
              (shake-Leaves _ http2 stream at.handshake e (rw (yes?, on_connect) at h))
        | inr no? ↦
            rw (no?, on_connect)
              (shake-Leaves _ http1 stream at.handshake e (rw (no?, on_connect) at h))
      ]

  -- A socket that fails to start has registered nothing, unless the registration of its service
  -- failed: then its queue stays registered.
  pub spawn_failure :
      (e : Failure ms ha net ad Io Bus)
      → (spawn ms ha net ad Io Bus self name addr at).0 ≡ err e
      → ((spawn ms ha net ad Io Bus self name addr at).1 ≡ [])
        ⊎ ((fd : ℕ) × (b : Bus) × (at.add_service ≡ err b)
            × (e ≡ internal_bus b)
            × ((spawn ms ha net ad Io Bus self name addr at).1 ≡ queue_added (as_u32 fd) ∷ []))
  unfolding spawn
  spawn_failure e h = on_connect-Leaves at.connect e h
