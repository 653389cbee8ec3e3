-- ===== src/Client/Socket/Http2/Kept.antt =====
-- What a turn of an HTTP/2 socket leaves in its queue.
use pro_sa_hyper.Common.{ℕ, ◌+◌, ◌≡◌, some, List, Bool, true, false, arith, weight}
use pro_sa_hyper.Prosa.{
  Messages, InternalMsg, request, response, error, command, config, service, shutdown,
}
use pro_sa_hyper.Http.{HttpApi}
use pro_sa_hyper.Net.{Net}
use pro_sa_hyper.Client.Socket.{ClientAdaptor, Setup, close_socket}
use pro_sa_hyper.Client.Socket.Weights.{asked, kept}
use pro_sa_hyper.Client.Socket.Http2.{lost, received, State, Turn, turn, on_message, start_task}
use pro_sa_hyper.Client.Socket.Http2.Ledger.{taken}

module _ {M : Type 0} (ms : Messages M) (ha : HttpApi) (net : Net) (ad : ClientAdaptor ms ha net)
    (w : ms.Sender → ℕ) (su : Setup ms ha net ad) where
  -- Nothing, where the connection is lost.
  pub lost_kept :
      (st : State ms ha net ad) (q : List (InternalMsg ms)) (ok? : Bool) (t : Turn ms ha net ad)
      (n : ℕ)
      → turn ms ha net ad su st (lost q ok?) ≡ some t
      → kept t.status n ≡ 0
  unfolding turn close_socket
  lost_kept st q true t n h = ground arith
  lost_kept st q false t n h = ground arith

  -- A message leaves what it does not take.
  pub received-kept :
      (st : State ms ha net ad) (x : InternalMsg ms) (q : List (InternalMsg ms)) (ok? : Bool)
      (t : Turn ms ha net ad)
      → turn ms ha net ad su st (received x q ok?) ≡ some t
      → taken ms ha net ad w su (received x q ok?) + kept t.status (weight (asked ms w) q)
        ≡ asked ms w x + weight (asked ms w) q
  unfolding turn on_message start_task close_socket
  received-kept st (request m) q ok? t h = ground arith
  received-kept st (response m) q ok? t h = ground arith
  received-kept st (error m) q ok? t h = ground arith
  received-kept st command q ok? t h = ground arith
  received-kept st config q ok? t h = ground arith
  received-kept st (service table) q ok? t h = ground arith
  received-kept st shutdown q true t h = ground arith
  received-kept st shutdown q false t h = ground arith
