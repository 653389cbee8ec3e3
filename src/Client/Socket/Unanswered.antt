-- ===== src/Client/Socket/Unanswered.antt =====
-- The weight of the requests that a socket's effects leave without an answer.
use pro_sa_hyper.Common.{
  ℕ, ◌≡◌, refl, String, Option, none, some, List, [], ◌∷◌, Bool, true, false, Result, arith, weight,
  if◌then◌else◌,
}
use pro_sa_hyper.Prosa.{Messages, InternalMsg, request}
use pro_sa_hyper.Http.{HttpApi}
use pro_sa_hyper.Net.{Net}
use pro_sa_hyper.Client.Socket.{
  Socket, ClientAdaptor, Effect, returned, returned_error, dropped, recorded, queue_added,
  service_added, queue_removed, Setup, drop_queue, refuse_queue, close_socket, settle,
  record_exchange, send_back,
}
use pro_sa_hyper.Client.Socket.Weights.{asked}

module _ {M : Type 0} (ms : Messages M) (w : ms.Sender → ℕ) where
  -- The weight of the request that an effect drops.
  abbrev pub unanswered : Effect ms → ℕ
  unanswered (dropped m) = w (ms.sender m)
  unanswered (returned m d) = 0
  unanswered (returned_error m d e) = 0
  unanswered (recorded c v) = 0
  unanswered (queue_added fd) = 0
  unanswered (service_added s fd) = 0
  unanswered (queue_removed fd) = 0

module _ {M : Type 0} (ms : Messages M) (ha : HttpApi) (net : Net) (ad : ClientAdaptor ms ha net)
    (w : ms.Sender → ℕ) (su : Setup ms ha net ad) where
  pub unanswered-drop_queue :
      (q : List (InternalMsg ms))
      → weight (unanswered ms w) (drop_queue ms ha net ad q) ≡ weight (asked ms w) q
  unfolding drop_queue
  unanswered-drop_queue [] = refl
  unanswered-drop_queue (request m ∷ q) = omega (arith, unanswered-drop_queue q)
  unanswered-drop_queue (_ ∷ q) = omega (arith, unanswered-drop_queue q)

  unanswered-refuse_queue :
      (s : String) (q : List (InternalMsg ms))
      → weight (unanswered ms w) (refuse_queue ms ha net ad s q) ≡ 0
  unfolding refuse_queue
  unanswered-refuse_queue s [] = refl
  unanswered-refuse_queue s (request m ∷ q) = omega (arith, unanswered-refuse_queue s q)
  unanswered-refuse_queue s (_ ∷ q) = unanswered-refuse_queue s q

  -- The requests in a queue that cannot be removed.
  abbrev pub stuck : Bool → List (InternalMsg ms) → ℕ
  stuck ok? q = if ok? then 0 else weight (asked ms w) q

  pub unanswered-close_socket :
      (self : Socket net) (q : List (InternalMsg ms)) (ok? : Bool)
      → weight (unanswered ms w) (close_socket ms ha net ad su self q ok?).0 ≡ stuck ok? q
  unfolding close_socket
  unanswered-close_socket self q true = omega (arith, unanswered-refuse_queue su.service_name q)
  unanswered-close_socket self q false = unanswered-drop_queue q

  pub unanswered-settle :
      (v : String) (m : ms.RequestMsg) (r : Option (Result ha.Response ha.HyperCrateError))
      → weight (unanswered ms w) (settle ms ha net ad su v m r) ≡ 0
  unfolding settle record_exchange send_back
  unanswered-settle v m none = refl
  unanswered-settle v m (some r) = ground arith
