-- ===== src/Client/Socket/Http1/Closing.antt =====
-- What an HTTP/1.1 socket is when its loop ends.
use pro_sa_hyper.Common.{
  ◌≡◌, ◌⊎◌, refl, Option, none, some, List, [], ◌∷◌, true, false, arith, Option-cases, inl, inr,
}
use pro_sa_hyper.Prosa.{Messages, request, response, error, command, config, service, shutdown}
use pro_sa_hyper.Http.{HttpApi}
use pro_sa_hyper.Net.{Net}
use pro_sa_hyper.Client.Socket.{Socket, ClientAdaptor, running, closed, Setup, close_socket}
use pro_sa_hyper.Client.Socket.Http1.{
  Event, lost, answered, elapsed, received, State, Turn, turn, run, sending, idle, on_message,
}

module _ {M : Type 0} (ms : Messages M) (ha : HttpApi) (net : Net) (ad : ClientAdaptor ms ha net)
    (su : Setup ms ha net ad) (s : Socket net) where
  pub turn-closed :
      (st : State ms ha net ad) (e : Event ms ha net ad) (t : Turn ms ha net ad)
      → turn ms ha net ad su st e ≡ some t
      → t.status ≡ closed s
      → s ≡ su.socket
  unfolding turn sending idle on_message close_socket
  turn-closed none (lost q true) t h c = ground arith
  turn-closed none (lost q false) t h c = ground arith
  turn-closed none (answered r) t h c = cc
  turn-closed none (elapsed q ok?) t h c = cc
  turn-closed none (received shutdown q true) t h c = ground arith
  turn-closed none (received shutdown q false) t h c = ground arith
  turn-closed none (received _ q ok?) t h c = ground arith
  turn-closed (some (m, r)) (lost q true) t h c = ground arith
  turn-closed (some (m, r)) (lost q false) t h c = ground arith
  turn-closed (some (m, r)) (elapsed q true) t h c = ground arith
  turn-closed (some (m, r)) (elapsed q false) t h c = ground arith
  turn-closed (some (m, r)) (answered x) t h c = ground arith
  turn-closed (some (m, r)) (received x q ok?) t h c = cc

  -- It closes as the socket that it was.
  pub run-closed :
      (st : State ms ha net ad) (es : List (Event ms ha net ad)) (t : Turn ms ha net ad)
      → run ms ha net ad su st es ≡ some t
      → t.status ≡ closed s
      → s ≡ su.socket
  unfolding run
  run-closed st [] t h c = ground arith
  run-closed st (e ∷ es) t h c = elim (Option-cases (turn ms ha net ad su st e)) [
    | inl x ↦ ground arith
    | inr (u, x) ↦ elim (Option-cases (run ms ha net ad su u.state es)) [
      | inl y ↦ ground (arith, turn-closed st e u x)
      | inr (v, y) ↦ ground (arith, turn-closed st e u x, run-closed u.state es v y)
    ]
  ]

module _ {M : Type 0} (ms : Messages M) (ha : HttpApi) (net : Net) (ad : ClientAdaptor ms ha net)
    (su : Setup ms ha net ad) where
  abbrev pub GoesOnOrIdle : Option (Turn ms ha net ad) → Type 0
  GoesOnOrIdle none = Unit {0}
  GoesOnOrIdle (some t) = (t.status ≡ running) ⊎ (t.state ≡ none)

  -- A turn that ends the loop leaves no request in flight.
  pub turn-GoesOnOrIdle :
      (st : State ms ha net ad) (e : Event ms ha net ad) → GoesOnOrIdle (turn ms ha net ad su st e)
  unfolding turn sending idle on_message close_socket
  turn-GoesOnOrIdle none (lost q ok?) = inr refl
  turn-GoesOnOrIdle none (answered r) = tt
  turn-GoesOnOrIdle none (elapsed q ok?) = tt
  turn-GoesOnOrIdle none (received shutdown q ok?) = inr refl
  turn-GoesOnOrIdle none (received (request m) q ok?) = inl refl
  turn-GoesOnOrIdle none (received (response m) q ok?) = inr refl
  turn-GoesOnOrIdle none (received (error m) q ok?) = inr refl
  turn-GoesOnOrIdle none (received command q ok?) = inl refl
  turn-GoesOnOrIdle none (received config q ok?) = inl refl
  turn-GoesOnOrIdle none (received (service t) q ok?) = inl refl
  turn-GoesOnOrIdle (some (m, r)) (lost q ok?) = inr refl
  turn-GoesOnOrIdle (some (m, r)) (answered x) = inl refl
  turn-GoesOnOrIdle (some (m, r)) (elapsed q ok?) = inr refl
  turn-GoesOnOrIdle (some (m, r)) (received x q ok?) = tt
