-- ===== src/Client/Socket/Http2/Drops.antt =====
-- Which requests an HTTP/2 socket leaves without an answer.
use pro_sa_hyper.Common.{
  pick, ℕ, ◌≡◌, refl, Option, none, some, List, Bool, true, Result, arith, weight, Option-cases,
  inl, inr,
}
use pro_sa_hyper.Prosa.{
  Messages, InternalMsg, request, response, error, command, config, service, shutdown,
}
use pro_sa_hyper.Http.{HttpApi}
use pro_sa_hyper.Net.{Net}
use pro_sa_hyper.Client.Socket.{ClientAdaptor, Setup}
use pro_sa_hyper.Client.Socket.Weights.{asked}
use pro_sa_hyper.Client.Socket.Unanswered.{
  unanswered, stuck, unanswered-drop_queue, unanswered-close_socket, unanswered-settle,
}
use pro_sa_hyper.Client.Socket.Http2.{
  Event, lost, received, finished, State, Turn, turn, on_message, start_task, run_task,
}

module _ {M : Type 0} (ms : Messages M) (ha : HttpApi) (net : Net) (ad : ClientAdaptor ms ha net)
    (w : ms.Sender → ℕ) (su : Setup ms ha net ad) where
  unanswered-run_task :
      (m : ms.RequestMsg) (d : M) (x : Option (Result ha.Response ha.HyperCrateError))
      → weight (unanswered ms w) (run_task ms ha net ad su m d x) ≡ 0
  unfolding run_task
  unanswered-run_task m d x = ground (arith, unanswered-settle ms ha net ad w su "HTTP/2" m x)

  unanswered-start_task :
      (st : State ms ha net ad) (d : Option M) (m : ms.RequestMsg)
      → weight (unanswered ms w) (start_task ms ha net ad su st d m).effects ≡ 0
  unfolding start_task
  unanswered-start_task st none m = refl
  unanswered-start_task st (some d) m = refl

  -- The requests that go unanswered at an event: those left in the queue when the socket closes and
  -- cannot remove it, or panics.
  abbrev pub forsaken : Event ms ha net ad → ℕ
  forsaken (lost q ok?) = stuck ms ha net ad w su ok? q
  forsaken (finished n x) = 0
  forsaken (received shutdown q ok?) = stuck ms ha net ad w su ok? q
  forsaken (received (request m) q ok?) = 0
  forsaken (received (response m) q ok?) = weight (asked ms w) q
  forsaken (received (error m) q ok?) = weight (asked ms w) q
  forsaken (received command q ok?) = 0
  forsaken (received config q ok?) = 0
  forsaken (received (service t) q ok?) = 0

  on_message-forsaken :
      (st : State ms ha net ad) (x : InternalMsg ms) (q : List (InternalMsg ms)) (ok? : Bool)
      → weight (unanswered ms w) (on_message ms ha net ad su st x q ok?).effects
        ≡ forsaken (received x q ok?)
  unfolding on_message
  on_message-forsaken st (request m) q ok? =
      unanswered-start_task st (ms.take_data m).0 (ms.take_data m).1
  on_message-forsaken st shutdown q ok? = unanswered-close_socket ms ha net ad w su _ q ok?
  on_message-forsaken st (response m) q ok? = unanswered-drop_queue ms ha net ad w su q
  on_message-forsaken st (error m) q ok? = unanswered-drop_queue ms ha net ad w su q
  on_message-forsaken st command q ok? = refl
  on_message-forsaken st config q ok? = refl
  on_message-forsaken st (service t) q ok? = refl

  -- A turn of the HTTP/2 loop, or the end of one of its tasks, drops exactly the requests left in its
  -- queue when it closes and cannot remove that, or panics, each as often, for every weight of their
  -- senders: a lost connection drops no request that is in flight.
  pub turn-unanswered_http2 :
      (st : State ms ha net ad) (e : Event ms ha net ad) (t : Turn ms ha net ad)
      → turn ms ha net ad su st e ≡ some t
      → weight (unanswered ms w) t.effects ≡ forsaken e
  unfolding turn
  turn-unanswered_http2 st (lost q ok?) t h = ground (
    arith,
    unanswered-close_socket ms ha net ad w su (record su.socket { is_http2 = true }) q ok?,
  )
  turn-unanswered_http2 st (received x q ok?) t h = ground (arith, on_message-forsaken st x q ok?)
  turn-unanswered_http2 st (finished n x) t h = elim (Option-cases (pick n st)) [
    | inl e ↦ ground arith
    | inr (((m, d), rest), e) ↦ ground (arith, unanswered-run_task m d x)
  ]
