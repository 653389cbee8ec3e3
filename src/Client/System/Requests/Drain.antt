-- ===== src/Client/System/Requests/Drain.antt =====
-- What is left of the requests of the client's sockets once their processor has ended.
use pro_sa_hyper.Common.{
  pick, Bool, ◌+◌, ℕ, ◌≡◌, ◌≢◌, ◌∙◌, refl, sym, subst, String, Option, List, [], ◌∷◌, Result,
  weight, length, arith,
}
use pro_sa_hyper.Prosa.{Messages}
use pro_sa_hyper.Http.{HttpApi}
use pro_sa_hyper.Net.{Net, TargetSetting}
use pro_sa_hyper.Client.Socket.{ClientAdaptor}
use pro_sa_hyper.Client.Socket.Weights.{settled}
use pro_sa_hyper.Client.Proc
use pro_sa_hyper.Client.Proc.{Settings}
use pro_sa_hyper.Client.Task.{Task, Orphan}
use pro_sa_hyper.Client.System.{
  Event, orphaned, System, Turn, on_orphan, closed_turn, turn, run, start,
}
use pro_sa_hyper.Client.System.Weights.{unsettled, after_turn-weight}
use pro_sa_hyper.Client.System.Requests.{took, run_took, requests_balanced}
use pro_sa_hyper.Client.System.Sound.{IsSound, expected, run-IsSound}

module _ {M : Type 0} (ms : Messages M) (ha : HttpApi) (net : Net) (ad : ClientAdaptor ms ha net)
    (Io Bus : Type 0) (to_string : TargetSetting net → String) (s : Settings net) where
  -- The ends of exchanges, each of the first request that is left.
  abbrev pub ends :
      List (Option (Result ha.Response ha.HyperCrateError))
      → List (Event ms ha net ad Io Bus to_string)
  ends [] = []
  ends (x ∷ xs) = orphaned 0 x ∷ ends xs

  turn_ended :
      (sys : System ms ha net ad Io Bus to_string)
      (x : Option (Result ha.Response ha.HyperCrateError)) (u : Proc.Status)
      → sys.status ≡ u
      → sys.status ≢ Proc.Status.running
      → turn ms ha net ad Io Bus to_string s sys (orphaned 0 x)
        ≡ on_orphan ms ha net ad Io Bus to_string sys (pick 0 sys.orphans) x
  unfolding turn closed_turn
  turn_ended sys x Proc.Status.running e h = absurd (h e)
  turn_ended sys x Proc.Status.finished e h = simp (e, turn)
  turn_ended sys x Proc.Status.failed e h = simp (e, turn)
  turn_ended sys x Proc.Status.panicked e h = simp (e, turn)

  turn_drains :
      (sys : System ms ha net ad Io Bus to_string)
      (x : Option (Result ha.Response ha.HyperCrateError))
      (o : Orphan ms ha net ad Io Bus to_string) (os : List (Orphan ms ha net ad Io Bus to_string))
      → sys.orphans ≡ o ∷ os
      → sys.status ≢ Proc.Status.running
      → (turn ms ha net ad Io Bus to_string s sys (orphaned 0 x)).state
        ≡ record sys { orphans = os }
  unfolding on_orphan pick
  turn_drains sys x (su, (m, d)) os e h = rw (turn_ended sys x sys.status refl h) (rw e refl)

  module _ (w : ms.Sender → ℕ) where
    took_ended :
        (sys : System ms ha net ad Io Bus to_string) (e : Event ms ha net ad Io Bus to_string)
        (u : Proc.Status)
        → sys.status ≡ u
        → sys.status ≢ Proc.Status.running
        → took ms ha net ad Io Bus to_string s w sys e ≡ 0
    unfolding took
    took_ended sys e Proc.Status.running r h = absurd (h r)
    took_ended sys e Proc.Status.finished r h = simp (r, took)
    took_ended sys e Proc.Status.failed r h = simp (r, took)
    took_ended sys e Proc.Status.panicked r h = simp (r, took)

    abbrev IsDrained :
        System ms ha net ad Io Bus to_string
        → List (Option (Result ha.Response ha.HyperCrateError))
        → Type 0
    IsDrained sys xs =
        (unsettled ms ha net ad Io Bus to_string s w
            (run ms ha net ad Io Bus to_string s sys (ends xs)).state
          ≡ 0)
        × (run_took ms ha net ad Io Bus to_string s w sys (ends xs) ≡ 0)

    drains :
        (xs : List (Option (Result ha.Response ha.HyperCrateError)))
        (os : List (Orphan ms ha net ad Io Bus to_string))
        (sys : System ms ha net ad Io Bus to_string)
        → sys.orphans ≡ os
        → sys.tasks ≡ []
        → sys.status ≢ Proc.Status.running
        → length xs ≡ length os
        → IsDrained sys xs
    unfolding run run_took
    drains [] [] sys e t h l = (rw e (rw t refl), refl)
    drains [] (o ∷ os) sys e t h l = absurd (omega (arith, l))
    drains (x ∷ xs) [] sys e t h l = absurd (omega (arith, l))
    drains (x ∷ xs) (o ∷ os) sys e t h l =
        let rest = drains xs os (record sys { orphans = os }) refl t h (omega (arith, l)) in
        let at_next = subst (λ n. IsDrained n xs) (sym (turn_drains sys x o os e h)) rest in
        (at_next.0, omega (arith, took_ended sys (orphaned 0 x) sys.status refl h, at_next.1))

    nil_of_length : (ts : List (Task ms ha net ad Io Bus to_string)) → length ts ≡ 0 → ts ≡ []
    nil_of_length [] h = refl
    nil_of_length (t ∷ ts) h = absurd (omega (arith, h))

    none_expected :
        (u : Proc.Status) (n : ℕ)
        → u ≢ Proc.Status.running
        → expected ms ha net ad Io Bus to_string s u n ≡ 0
    none_expected Proc.Status.running n h = absurd (h refl)
    none_expected Proc.Status.finished n h = refl
    none_expected Proc.Status.failed n h = refl
    none_expected Proc.Status.panicked n h = refl

    -- Once the processor has ended, from a system as every run from the start leaves it, the tasks of
    -- the requests over HTTP/2 that go on settle everything that is left: after as many ends of their
    -- exchanges as there are such tasks, whether by a response, an error or the timeout, nothing is
    -- unsettled, and what was answered or dropped by then is what was unsettled at the end, each as
    -- often, for every weight of the senders.
    pub ended_requests_settle :
        (sys : System ms ha net ad Io Bus to_string)
        (xs : List (Option (Result ha.Response ha.HyperCrateError)))
        → IsSound ms ha net ad Io Bus to_string s sys
        → sys.status ≢ Proc.Status.running
        → length xs ≡ length sys.orphans
        → (unsettled ms ha net ad Io Bus to_string s w
              (run ms ha net ad Io Bus to_string s sys (ends xs)).state
            ≡ 0)
          × (weight (settled ms w) (run ms ha net ad Io Bus to_string s sys (ends xs)).effects
              ≡ unsettled ms ha net ad Io Bus to_string s w sys)
    ended_requests_settle sys xs i h l =
        let no_tasks =
          nil_of_length sys.tasks (i.counted ∙ none_expected sys.status sys.proc.live h) in
        let d = drains xs sys.orphans sys refl no_tasks h l in
        (
          d.0,
          omega
              (arith, d.0, d.1, requests_balanced ms ha net ad Io Bus to_string s w sys (ends xs)),
        )

    unsettled-start :
        (adapted? added? : Bool) (st : Proc.State ms net (Unit {0}) (Unit {0}))
        → unsettled ms ha net ad Io Bus to_string s w
            (start ms ha net ad Io Bus to_string s adapted? added? st).state
          ≡ 0
    unfolding start
    unsettled-start adapted? added? st = omega (
      arith,
      after_turn-weight ms ha net ad Io Bus to_string s w [] []
          (Proc.start ms net (Unit {0}) (Unit {0}) s adapted? added? st) _ refl,
    )

    module _ (adapted? added? : Bool) (st : Proc.State ms net (Unit {0}) (Unit {0}))
        (es : List (Event ms ha net ad Io Bus to_string)) where
      -- The system at the start, and what the events make of it.
      abbrev pub begun : System ms ha net ad Io Bus to_string
      begun = (start ms ha net ad Io Bus to_string s adapted? added? st).state

      abbrev pub done : Turn ms ha net ad Io Bus to_string
      done = run ms ha net ad Io Bus to_string s begun es

      -- From the start of the client's processor to its end, and then until the exchanges over HTTP/2 that
      -- outlive it have ended, each by a response, an error or the timeout, every request that a socket
      -- takes from its queue, or finds there when it closes, is answered or dropped, each as often: the
      -- equation holds for every weight of their senders. At the end nothing is left.
      pub whole_run_settles :
          (xs : List (Option (Result ha.Response ha.HyperCrateError)))
          → done.state.status ≢ Proc.Status.running
          → length xs ≡ length done.state.orphans
          → (weight (settled ms w) done.effects
                + weight
                    (settled ms w)
                    (run ms ha net ad Io Bus to_string s done.state (ends xs)).effects
              ≡ run_took ms ha net ad Io Bus to_string s w begun es)
            × (unsettled ms ha net ad Io Bus to_string s w
                  (run ms ha net ad Io Bus to_string s done.state (ends xs)).state
                ≡ 0)
      whole_run_settles xs h l =
          let sound = run-IsSound ms ha net ad Io Bus to_string s adapted? added? st es in
          let (left, drained) = ended_requests_settle done.state xs sound h l in
          (
            omega (
              arith,
              drained,
              unsettled-start adapted? added? st,
              requests_balanced ms ha net ad Io Bus to_string s w begun es,
            ),
            left,
          )
