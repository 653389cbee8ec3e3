-- ===== src/Client/Socket/Http2/Closing.antt =====
-- What an HTTP/2 socket is when its loop ends.
use pro_sa_hyper.Common.{◌≡◌, some, List, [], ◌∷◌, true, false, arith, Option-cases, inl, inr}
use pro_sa_hyper.Prosa.{Messages, shutdown}
use pro_sa_hyper.Http.{HttpApi}
use pro_sa_hyper.Net.{Net}
use pro_sa_hyper.Client.Socket.{Socket, ClientAdaptor, closed, Setup, close_socket}
use pro_sa_hyper.Client.Socket.Http2.{
  Event, lost, received, finished, State, Turn, turn, run, on_message, start_task,
}

module _ {M : Type 0} (ms : Messages M) (ha : HttpApi) (net : Net) (ad : ClientAdaptor ms ha net)
    (su : Setup ms ha net ad) (s : Socket net) where
  pub turn-closed :
      (st : State ms ha net ad) (e : Event ms ha net ad) (t : Turn ms ha net ad)
      → turn ms ha net ad su st e ≡ some t
      → t.status ≡ closed s
      → s ≡ record su.socket { is_http2 = true }
  unfolding turn on_message start_task close_socket
  turn-closed st (lost q true) t h c = ground arith
  turn-closed st (lost q false) t h c = ground arith
  turn-closed st (received shutdown q true) t h c = ground arith
  turn-closed st (received shutdown q false) t h c = ground arith
  turn-closed st (received _ q ok?) t h c = ground arith
  turn-closed st (finished n outcome) t h c = ground arith

  -- It closes as the socket that it was, marked as one of HTTP/2.
  pub run-closed :
      (st : State ms ha net ad) (es : List (Event ms ha net ad)) (t : Turn ms ha net ad)
      → run ms ha net ad su st es ≡ some t
      → t.status ≡ closed s
      → s ≡ record su.socket { is_http2 = true }
  unfolding run
  run-closed st [] t h c = ground arith
  run-closed st (e ∷ es) t h c = elim (Option-cases (turn ms ha net ad su st e)) [
    | inl x ↦ ground arith
    | inr (u, x) ↦ elim (Option-cases (run ms ha net ad su u.state es)) [
      | inl y ↦ ground (arith, turn-closed st e u x)
      | inr (v, y) ↦ ground (arith, turn-closed st e u x, run-closed u.state es v y)
    ]
  ]
