-- ===== src/Client/Socket/Http1/Kept.antt =====
-- What a turn of an HTTP/1.1 socket leaves in its queue.
use pro_sa_hyper.Common.{ℕ, ◌+◌, ◌≡◌, none, some, List, Bool, true, false, Result, arith, weight}
use pro_sa_hyper.Prosa.{
  Messages, InternalMsg, request, response, error, command, config, service, shutdown,
}
use pro_sa_hyper.Http.{HttpApi}
use pro_sa_hyper.Net.{Net}
use pro_sa_hyper.Client.Socket.{ClientAdaptor, Setup, close_socket}
use pro_sa_hyper.Client.Socket.Weights.{asked, kept}
use pro_sa_hyper.Client.Socket.Http1.{
  lost, answered, elapsed, received, State, Turn, turn, sending, idle, on_message,
}
use pro_sa_hyper.Client.Socket.Http1.Ledger.{taken}

module _ {M : Type 0} (ms : Messages M) (ha : HttpApi) (net : Net) (ad : ClientAdaptor ms ha net)
    (w : ms.Sender → ℕ) (su : Setup ms ha net ad) where
  -- Nothing, where the connection is lost or the time of an exchange is over.
  pub lost_kept :
      (st : State ms ha net ad) (q : List (InternalMsg ms)) (ok? : Bool) (t : Turn ms ha net ad)
      (n : ℕ)
      → turn ms ha net ad su st (lost q ok?) ≡ some t
      → kept t.status n ≡ 0
  unfolding turn sending idle close_socket
  lost_kept none q true t n h = ground arith
  lost_kept none q false t n h = ground arith
  lost_kept (some (m, r)) q true t n h = ground arith
  lost_kept (some (m, r)) q false t n h = ground arith

  pub elapsed_kept :
      (st : State ms ha net ad) (q : List (InternalMsg ms)) (ok? : Bool) (t : Turn ms ha net ad)
      (n : ℕ)
      → turn ms ha net ad su st (elapsed q ok?) ≡ some t
      → kept t.status n ≡ 0
  unfolding turn sending idle close_socket
  elapsed_kept none q ok? t n h = cc
  elapsed_kept (some (m, r)) q true t n h = ground arith
  elapsed_kept (some (m, r)) q false t n h = ground arith

  -- Everything, where an exchange has its result.
  pub kept-answered :
      (st : State ms ha net ad) (r : Result ha.Response ha.HyperCrateError) (t : Turn ms ha net ad)
      (n : ℕ)
      → turn ms ha net ad su st (answered r) ≡ some t
      → kept t.status n ≡ n
  unfolding turn sending idle
  kept-answered none r t n h = cc
  kept-answered (some m) r t n h = ground arith

  -- A message leaves what it does not take.
  pub received-kept :
      (st : State ms ha net ad) (x : InternalMsg ms) (q : List (InternalMsg ms)) (ok? : Bool)
      (t : Turn ms ha net ad)
      → turn ms ha net ad su st (received x q ok?) ≡ some t
      → taken ms ha net ad w su (received x q ok?) + kept t.status (weight (asked ms w) q)
        ≡ asked ms w x + weight (asked ms w) q
  unfolding turn sending idle on_message close_socket
  received-kept none (request m) q ok? t h = ground arith
  received-kept none (response m) q ok? t h = ground arith
  received-kept none (error m) q ok? t h = ground arith
  received-kept none command q ok? t h = ground arith
  received-kept none config q ok? t h = ground arith
  received-kept none (service table) q ok? t h = ground arith
  received-kept none shutdown q true t h = ground arith
  received-kept none shutdown q false t h = ground arith
  received-kept (some m) x q ok? t h = cc
