-- ===== src/Client/Queue/Loops.antt =====
-- The loops of `spawn_http1` and of `spawn_h2`, as their channel sees them.
use pro_sa_hyper.Common.{
  ℕ, ◌+◌, ◌≡◌, refl, List, [], ◌∷◌, Option, none, some, Bool, Result, arith, weight, Option-cases,
  inl, inr,
}
use pro_sa_hyper.Prosa.{Messages, InternalMsg}
use pro_sa_hyper.Http.{HttpApi}
use pro_sa_hyper.Net.{Net}
use pro_sa_hyper.Client.Socket.{Effect, dropped, ClientAdaptor, Setup}
use pro_sa_hyper.Client.Socket.Weights.{settled, asked, kept}
use pro_sa_hyper.Client.Socket.Http1
use pro_sa_hyper.Client.Socket.Http2
use pro_sa_hyper.Client.Socket.Http1.Ledger.{in_flight, turn-Balanced as turn1-Balanced}
use pro_sa_hyper.Client.Socket.Http2.Ledger.{in_tasks, turn-Balanced as turn2-Balanced}
use pro_sa_hyper.Client.Socket.Http1.Kept as Kept1
use pro_sa_hyper.Client.Socket.Http2.Kept as Kept2
use pro_sa_hyper.Client.Queue.{Turned, SocketLoop}

module _ {M : Type 0} (ms : Messages M) (ha : HttpApi) (net : Net) (ad : ClientAdaptor ms ha net)
    (su : Setup ms ha net ad) where
  -- What the `select!` of the HTTP/1.1 loop waits for besides messages.
  pub data Outside1 : Type 0 where
    lost : Outside1
    answered : Result ha.Response ha.HyperCrateError → Outside1
    elapsed : Outside1

  abbrev pub event1 : Outside1 → List (InternalMsg ms) → Bool → Http1.Event ms ha net ad
  event1 lost q ok? = Http1.Event.lost q ok?
  event1 (answered r) q ok? = Http1.Event.answered r
  event1 elapsed q ok? = Http1.Event.elapsed q ok?

  abbrev pub turned1 :
      Option (Http1.Turn ms ha net ad) → Option (Turned ms net (Http1.State ms ha net ad))
  turned1 none = none
  turned1 (some t) = some (record { state = t.state; effects = t.effects; status = t.status })

  abbrev pub drop_in_flight : Http1.State ms ha net ad → Http1.State ms ha net ad × List (Effect ms)
  drop_in_flight none = (none, [])
  drop_in_flight (some (m, r)) = (none, dropped m ∷ [])

  abbrev pub turned2 :
      Option (Http2.Turn ms ha net ad) → Option (Turned ms net (Http2.State ms ha net ad))
  turned2 none = none
  turned2 (some t) = some (record { state = t.state; effects = t.effects; status = t.status })

  -- The end of a task, as a turn: it goes on.
  abbrev pub finished2 :
      Option (Http2.Turn ms ha net ad) → Option (Http2.State ms ha net ad × List (Effect ms))
  finished2 none = none
  finished2 (some t) = some (t.state, t.effects)

  module _ (w : ms.Sender → ℕ) where
    pub outside1-held :
        (st : Http1.State ms ha net ad) (o : Outside1) (q : List (InternalMsg ms)) (ok? : Bool)
        (t : Turned ms net (Http1.State ms ha net ad))
        → turned1 (Http1.turn ms ha net ad su st (event1 o q ok?)) ≡ some t
        → in_flight ms ha net ad w su st + weight (asked ms w) q
          ≡ weight (settled ms w) t.effects
            + (in_flight ms ha net ad w su t.state + kept t.status (weight (asked ms w) q))
    outside1-held st lost q ok? t h =
        elim (Option-cases (Http1.turn ms ha net ad su st (Http1.Event.lost q ok?))) [
          | inl e ↦ ground (arith)
          | inr (u, e) ↦ ground (
            arith,
            turn1-Balanced ms ha net ad w su st (Http1.Event.lost q ok?) u e,
            Kept1.lost_kept ms ha net ad w su st q ok? u (weight (asked ms w) q) e,
          )
        ]
    outside1-held st elapsed q ok? t h =
        elim (Option-cases (Http1.turn ms ha net ad su st (Http1.Event.elapsed q ok?))) [
          | inl e ↦ ground (arith)
          | inr (u, e) ↦ ground (
            arith,
            turn1-Balanced ms ha net ad w su st (Http1.Event.elapsed q ok?) u e,
            Kept1.elapsed_kept ms ha net ad w su st q ok? u (weight (asked ms w) q) e,
          )
        ]
    outside1-held st (answered r) q ok? t h =
        elim (Option-cases (Http1.turn ms ha net ad su st (Http1.Event.answered r))) [
          | inl e ↦ ground (arith)
          | inr (u, e) ↦ ground (
            arith,
            turn1-Balanced ms ha net ad w su st (Http1.Event.answered r) u e,
            Kept1.kept-answered ms ha net ad w su st r u (weight (asked ms w) q) e,
          )
        ]

    pub received1-held :
        (st : Http1.State ms ha net ad) (x : InternalMsg ms) (q : List (InternalMsg ms))
        (ok? : Bool) (t : Turned ms net (Http1.State ms ha net ad))
        → turned1 (Http1.turn ms ha net ad su st (Http1.Event.received x q ok?)) ≡ some t
        → in_flight ms ha net ad w su st + (asked ms w x + weight (asked ms w) q)
          ≡ weight (settled ms w) t.effects
            + (in_flight ms ha net ad w su t.state + kept t.status (weight (asked ms w) q))
    received1-held st x q ok? t h =
        elim (Option-cases (Http1.turn ms ha net ad su st (Http1.Event.received x q ok?))) [
          | inl e ↦ ground (arith)
          | inr (u, e) ↦ ground (
            arith,
            turn1-Balanced ms ha net ad w su st (Http1.Event.received x q ok?) u e,
            Kept1.received-kept ms ha net ad w su st x q ok? u e,
          )
        ]

    pub abort1-held :
        (st : Http1.State ms ha net ad)
        → in_flight ms ha net ad w su st
          ≡ weight (settled ms w) (drop_in_flight st).1
            + in_flight ms ha net ad w su (drop_in_flight st).0
    abort1-held none = refl
    abort1-held (some (m, r)) = omega arith

    pub outside2-held :
        (st : Http2.State ms ha net ad) (q : List (InternalMsg ms)) (ok? : Bool)
        (t : Turned ms net (Http2.State ms ha net ad))
        → turned2 (Http2.turn ms ha net ad su st (Http2.Event.lost q ok?)) ≡ some t
        → in_tasks ms ha net ad w su st + weight (asked ms w) q
          ≡ weight (settled ms w) t.effects
            + (in_tasks ms ha net ad w su t.state + kept t.status (weight (asked ms w) q))
    outside2-held st q ok? t h =
        elim (Option-cases (Http2.turn ms ha net ad su st (Http2.Event.lost q ok?))) [
          | inl e ↦ ground (arith)
          | inr (u, e) ↦ ground (
            arith,
            turn2-Balanced ms ha net ad w su st (Http2.Event.lost q ok?) u e,
            Kept2.lost_kept ms ha net ad w su st q ok? u (weight (asked ms w) q) e,
          )
        ]

    pub received2-held :
        (st : Http2.State ms ha net ad) (x : InternalMsg ms) (q : List (InternalMsg ms))
        (ok? : Bool) (t : Turned ms net (Http2.State ms ha net ad))
        → turned2 (Http2.turn ms ha net ad su st (Http2.Event.received x q ok?)) ≡ some t
        → in_tasks ms ha net ad w su st + (asked ms w x + weight (asked ms w) q)
          ≡ weight (settled ms w) t.effects
            + (in_tasks ms ha net ad w su t.state + kept t.status (weight (asked ms w) q))
    received2-held st x q ok? t h =
        elim (Option-cases (Http2.turn ms ha net ad su st (Http2.Event.received x q ok?))) [
          | inl e ↦ ground (arith)
          | inr (u, e) ↦ ground (
            arith,
            turn2-Balanced ms ha net ad w su st (Http2.Event.received x q ok?) u e,
            Kept2.received-kept ms ha net ad w su st x q ok? u e,
          )
        ]

    pub done2-held :
        (st : Http2.State ms ha net ad) (n : ℕ) (x : Option (Result ha.Response ha.HyperCrateError))
        (t : Http2.State ms ha net ad × List (Effect ms))
        → finished2 (Http2.turn ms ha net ad su st (Http2.Event.finished n x)) ≡ some t
        → in_tasks ms ha net ad w su st ≡ weight (settled ms w) t.1 + in_tasks ms ha net ad w su t.0
    done2-held st n x t h =
        elim (Option-cases (Http2.turn ms ha net ad su st (Http2.Event.finished n x))) [
          | inl e ↦ ground (arith)
          | inr (u, e) ↦
              ground (arith, turn2-Balanced ms ha net ad w su st (Http2.Event.finished n x) u e)
        ]

    pub abort2-held :
        (st : Http2.State ms ha net ad)
        → in_tasks ms ha net ad w su st
          ≡ weight {A = Effect ms} (settled ms w) [] + in_tasks ms ha net ad w su st
    abort2-held st = omega arith

    pub no_end :
        (st : Http1.State ms ha net ad) (t : Http1.State ms ha net ad × List (Effect ms))
        → ◌≡◌ {A = Option (Http1.State ms ha net ad × List (Effect ms))} none (some t)
        → in_flight ms ha net ad w su st
          ≡ weight (settled ms w) t.1 + in_flight ms ha net ad w su t.0
    no_end st t h = cc

  -- A socket over HTTP/1.1: it starts no task, and an abort drops the request in flight.
  abbrev pub loop1 : SocketLoop ms net
  loop1 = record {
    State = Http1.State ms ha net ad;
    Outside = Outside1;
    Done = Unit {0};
    on_outside = λ st o q ok?. turned1 (Http1.turn ms ha net ad su st (event1 o q ok?));
    on_received =
        λ st x q ok?. turned1 (Http1.turn ms ha net ad su st (Http1.Event.received x q ok?));
    on_done = λ st d. none;
    on_abort = drop_in_flight;
    held = λ w st. in_flight ms ha net ad w su st;
    outside-held = outside1-held;
    received-held = received1-held;
    done-held = λ w st d t h. no_end w st t h;
    abort-held = abort1-held;
  }

  -- A socket over HTTP/2, with the tasks of its requests, which an abort leaves.
  abbrev pub loop2 : SocketLoop ms net
  loop2 = record {
    State = Http2.State ms ha net ad;
    Outside = Unit {0};
    Done = ℕ × Option (Result ha.Response ha.HyperCrateError);
    on_outside = λ st o q ok?. turned2 (Http2.turn ms ha net ad su st (Http2.Event.lost q ok?));
    on_received =
        λ st x q ok?. turned2 (Http2.turn ms ha net ad su st (Http2.Event.received x q ok?));
    on_done = λ st d. finished2 (Http2.turn ms ha net ad su st (Http2.Event.finished d.0 d.1));
    on_abort = λ st. (st, []);
    held = λ w st. in_tasks ms ha net ad w su st;
    outside-held = λ w st o q ok? t h. outside2-held w st q ok? t h;
    received-held = received2-held;
    done-held = λ w st d t h. done2-held w st d.0 d.1 t h;
    abort-held = abort2-held;
  }
