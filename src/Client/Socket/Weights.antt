-- ===== src/Client/Socket/Weights.antt =====
-- The weight of the requests that a client's socket settles, and of those in its queue.
use pro_sa_hyper.Common.{
  ℕ, ◌≡◌, refl, String, Option, none, some, List, [], ◌∷◌, Bool, true, false, Result, ok, err,
  arith, weight,
}
use pro_sa_hyper.Prosa.{
  Messages, InternalMsg, request, response, error, command, config, service, shutdown,
}
use pro_sa_hyper.Http.{HttpApi}
use pro_sa_hyper.Net.{Net}
use pro_sa_hyper.Client.Socket.{
  Status, running, closed, failed, panicked, Socket, ClientAdaptor, Effect, returned,
  returned_error, dropped, recorded, queue_added, service_added, queue_removed, Setup, drop_queue,
  refuse_queue, close_socket, settle, record_exchange, send_back,
}

-- The weight of what a turn leaves in the queue, where that has the given weight.
abbrev pub kept : {net : Net} → Status net → ℕ → ℕ
kept running n = n
kept (closed s) n = 0
kept failed n = 0
kept panicked n = 0

module _ {M : Type 0} (ms : Messages M) (w : ms.Sender → ℕ) where
  -- The weight of the request that an effect answers or drops.
  abbrev pub settled : Effect ms → ℕ
  settled (returned m d) = w (ms.sender m)
  settled (returned_error m d e) = w (ms.sender m)
  settled (dropped m) = w (ms.sender m)
  settled (recorded c v) = 0
  settled (queue_added fd) = 0
  settled (service_added s fd) = 0
  settled (queue_removed fd) = 0

  -- The weight of a message of the queue, if it is a request.
  abbrev pub asked : InternalMsg ms → ℕ
  asked (request m) = w (ms.sender m)
  asked (response m) = 0
  asked (error m) = 0
  asked command = 0
  asked config = 0
  asked (service t) = 0
  asked shutdown = 0

module _ {M : Type 0} (ms : Messages M) (ha : HttpApi) (net : Net) (ad : ClientAdaptor ms ha net)
    (w : ms.Sender → ℕ) where
  pub settled-drop_queue :
      (q : List (InternalMsg ms))
      → weight (settled ms w) (drop_queue ms ha net ad q) ≡ weight (asked ms w) q
  unfolding drop_queue
  settled-drop_queue [] = refl
  settled-drop_queue (request m ∷ q) = omega (arith, settled-drop_queue q)
  settled-drop_queue (_ ∷ q) = omega (arith, settled-drop_queue q)

  settled-refuse_queue :
      (s : String) (q : List (InternalMsg ms))
      → weight (settled ms w) (refuse_queue ms ha net ad s q) ≡ weight (asked ms w) q
  unfolding refuse_queue
  settled-refuse_queue s [] = refl
  settled-refuse_queue s (request m ∷ q) = omega (arith, settled-refuse_queue s q)
  settled-refuse_queue s (_ ∷ q) = omega (arith, settled-refuse_queue s q)

  -- Closing settles every request that is left in the queue, once.
  pub settled-close_socket :
      (su : Setup ms ha net ad) (self : Socket net) (q : List (InternalMsg ms)) (ok? : Bool)
      → weight (settled ms w) (close_socket ms ha net ad su self q ok?).0 ≡ weight (asked ms w) q
  unfolding close_socket
  settled-close_socket su self q true = omega (arith, settled-refuse_queue su.service_name q)
  settled-close_socket su self q false = settled-drop_queue q

  settled-send_back :
      (m : ms.RequestMsg) (r : Result M _)
      → settled ms w (send_back ms ha net ad m r) ≡ w (ms.sender m)
  unfolding send_back
  settled-send_back m (ok d) = refl
  settled-send_back m (err e) = refl

  settled-record_exchange :
      (v : String) (r : Result ha.Response ha.HyperCrateError)
      → settled ms w (record_exchange ms ha net ad v r) ≡ 0
  unfolding record_exchange
  settled-record_exchange v (ok r) = refl
  settled-record_exchange v (err e) = refl

  -- The end of an exchange settles its request, once.
  pub settled-settle :
      (su : Setup ms ha net ad) (v : String) (m : ms.RequestMsg)
      (r : Option (Result ha.Response ha.HyperCrateError))
      → weight (settled ms w) (settle ms ha net ad su v m r) ≡ w (ms.sender m)
  unfolding settle
  settled-settle su v m none = omega arith
  settled-settle su v m (some r) =
      omega (arith, settled-record_exchange v r, settled-send_back m (ad.process_http_response r))
