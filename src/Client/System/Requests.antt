-- ===== src/Client/System/Requests.antt =====
-- The requests of the client's sockets, over runs of the system.
pub mod Drain
use pro_sa_hyper.Common.{
  weight-pick, pick, ℕ, ◌+◌, ◌≡◌, refl, inl, inr, String, Option, none, some, List, [], ◌∷◌, Result,
  arith, weight, weight-append, Option-cases,
}
use pro_sa_hyper.Prosa.{Messages}
use pro_sa_hyper.Http.{HttpApi}
use pro_sa_hyper.Net.{Net, TargetSetting}
use pro_sa_hyper.Client.Socket.{ClientAdaptor}
use pro_sa_hyper.Client.Socket.Weights.{settled}
use pro_sa_hyper.Client.Socket.Http2.Ledger.{settled-run_task}
use pro_sa_hyper.Client.Proc
use pro_sa_hyper.Client.Proc.{Settings, spawned, gauge, terminated, removed}
use pro_sa_hyper.Client.Task.Account.{in_task, in_orphan, step_took, orphans_of-weight, step-left}
use pro_sa_hyper.Client.Task.{
  Task, opening, open1, open2, over, Orphan, TaskEvent, orphans_of, step,
}
use pro_sa_hyper.Client.System.{
  Event, at, join, internal, orphaned, System, Turn, new_tasks, abort_orphans, abort_effects, abort,
  after_turn, on_turn, on_join, on_task, on_orphan, open_turn, closed_turn, turn, run,
}
use pro_sa_hyper.Client.System.Weights.{unsettled, after_turn-weight}

module _ {M : Type 0} (ms : Messages M) (ha : HttpApi) (net : Net) (ad : ClientAdaptor ms ha net)
    (Io Bus : Type 0) (to_string : TargetSetting net → String) (s : Settings net)
    (w : ms.Sender → ℕ) where
  abbrev task_weight : Task ms ha net ad Io Bus to_string → ℕ
  task_weight = in_task ms ha net ad Io Bus to_string s w

  abbrev orphan_weight : Orphan ms ha net ad Io Bus to_string → ℕ
  orphan_weight = in_orphan ms ha net ad Io Bus to_string s w

  -- The weight of the requests that an event takes from the queue of a socket, or finds there at its
  -- end.
  took_open : System ms ha net ad Io Bus to_string → Event ms ha net ad Io Bus to_string → ℕ
  took_open sys (at n e) = elim (pick n sys.tasks) [
    | none ↦ 0
    | some (t, rest) ↦ step_took ms ha net ad Io Bus to_string s w t e
  ]
  took_open sys (join n) = 0
  took_open sys (internal m ok?) = 0
  took_open sys (orphaned k x) = 0

  took : System ms ha net ad Io Bus to_string → Event ms ha net ad Io Bus to_string → ℕ
  took sys e = elim sys.status [ Proc.Status.running ↦ took_open sys e | _ ↦ 0 ]

  pub run_took :
      System ms ha net ad Io Bus to_string → List (Event ms ha net ad Io Bus to_string) → ℕ
  unfolding took took_open
  run_took sys [] = 0
  run_took sys (e ∷ es) =
      took sys e + run_took (turn ms ha net ad Io Bus to_string s sys e).state es

  abbrev Balanced :
      System ms ha net ad Io Bus to_string → ℕ → Turn ms ha net ad Io Bus to_string → Type 0
  Balanced sys came t =
      unsettled ms ha net ad Io Bus to_string s w sys + came
      ≡ weight (settled ms w) t.effects + unsettled ms ha net ad Io Bus to_string s w t.state

  module _ (sys : System ms ha net ad Io Bus to_string) where
    on_turn-Balanced :
        (ts : List (Task ms ha net ad Io Bus to_string))
        (o : Option (Proc.Turn ms net (Unit {0}) (Unit {0})))
        → weight task_weight ts ≡ weight task_weight sys.tasks
        → Balanced sys 0 (on_turn ms ha net ad Io Bus to_string sys ts o)
    unfolding on_turn
    on_turn-Balanced ts none h = omega arith
    on_turn-Balanced ts (some t) h = omega (
      arith,
      h,
      after_turn-weight ms ha net ad Io Bus to_string s w ts sys.orphans t t.status refl,
    )

    -- The weight of a list is that of the item that is picked and of the others.
    abbrev Splits : {B : Type 0} → (B → ℕ) → List B → Option (B × List B) → Type 0
    Splits f xs none = Unit {0}
    Splits f xs (some (x, ys)) = weight f xs ≡ f x + weight f ys

    pick-Splits : {B : Type 0} (f : B → ℕ) (n : ℕ) (xs : List B) → Splits f xs (pick n xs)
    pick-Splits f n xs = elim (Option-cases (pick n xs)) [
      | inl h ↦ rw (h, Splits) tt
      | inr ((x, ys), h) ↦ rw (h, Splits) (weight-pick f n xs ys x h)
    ]

    on_join-Balanced :
        (o : Option
          (Task ms ha net ad Io Bus to_string × List (Task ms ha net ad Io Bus to_string)))
        → Splits task_weight sys.tasks o
        → Balanced sys 0 (on_join ms ha net ad Io Bus to_string sys o)
    unfolding on_join
    on_join-Balanced none h = omega arith
    on_join-Balanced (some (opening k, rest)) h = omega arith
    on_join-Balanced (some (open1 su st, rest)) h = omega arith
    on_join-Balanced (some (open2 su st, rest)) h = omega arith
    on_join-Balanced (some (over r, rest)) h =
        on_turn-Balanced rest
          (Proc.turn ms net (Unit {0}) (Unit {0}) sys.proc (Proc.Event.joined r)) (omega (arith, h))

    on_orphan-Balanced :
        (o : Option
          (Orphan ms ha net ad Io Bus to_string × List (Orphan ms ha net ad Io Bus to_string)))
        (x : Option (Result ha.Response ha.HyperCrateError))
        → Splits orphan_weight sys.orphans o
        → Balanced sys 0 (on_orphan ms ha net ad Io Bus to_string sys o x)
    unfolding on_orphan
    on_orphan-Balanced none x h = omega arith
    on_orphan-Balanced (some ((su, (m, d)), rest)) x h =
        omega (arith, h, settled-run_task ms ha net ad w su m d x)

    on_task-Balanced :
        (o : Option
          (Task ms ha net ad Io Bus to_string × List (Task ms ha net ad Io Bus to_string)))
        (e : TaskEvent ms ha net ad Io Bus to_string)
        → Splits task_weight sys.tasks o
        → Balanced sys
            (elim o as (λ _. ℕ) [
              | none ↦ 0
              | some (t, rest) ↦ step_took ms ha net ad Io Bus to_string s w t e
            ])
            (on_task ms ha net ad Io Bus to_string s sys o e)
    unfolding on_task
    on_task-Balanced none e h = omega arith
    on_task-Balanced (some (t, rest)) e h = omega (
      arith,
      h,
      step-left ms ha net ad Io Bus to_string s w t e,
      weight-append orphan_weight (step ms ha net ad Io Bus to_string s t e).orphans sys.orphans,
    )

    open_turn-Balanced :
        (e : Event ms ha net ad Io Bus to_string)
        → Balanced sys (took_open sys e) (open_turn ms ha net ad Io Bus to_string s sys e)
    unfolding open_turn took_open
    open_turn-Balanced (at n e) = on_task-Balanced _ e (pick-Splits task_weight n sys.tasks)
    open_turn-Balanced (join n) = on_join-Balanced _ (pick-Splits task_weight n sys.tasks)
    open_turn-Balanced (internal m ok?) = on_turn-Balanced sys.tasks _ refl
    open_turn-Balanced (orphaned k x) =
        on_orphan-Balanced _ x (pick-Splits orphan_weight k sys.orphans)

    closed_turn-Balanced :
        (e : Event ms ha net ad Io Bus to_string)
        → Balanced sys 0 (closed_turn ms ha net ad Io Bus to_string sys e)
    unfolding closed_turn
    closed_turn-Balanced (at n e) = omega arith
    closed_turn-Balanced (join n) = omega arith
    closed_turn-Balanced (internal m ok?) = omega arith
    closed_turn-Balanced (orphaned k x) =
        on_orphan-Balanced _ x (pick-Splits orphan_weight k sys.orphans)

    turn-Balanced :
        (e : Event ms ha net ad Io Bus to_string) (u : Proc.Status)
        → sys.status ≡ u
        → Balanced sys (took sys e) (turn ms ha net ad Io Bus to_string s sys e)
    unfolding turn took
    turn-Balanced e Proc.Status.running h = simp (h, turn, took) (open_turn-Balanced e)
    turn-Balanced e Proc.Status.finished h = simp (h, turn, took) (closed_turn-Balanced e)
    turn-Balanced e Proc.Status.failed h = simp (h, turn, took) (closed_turn-Balanced e)
    turn-Balanced e Proc.Status.panicked h = simp (h, turn, took) (closed_turn-Balanced e)

  -- Over any interleaving of the processor, its sockets' tasks and their requests, those taken and not
  -- settled at the start and those taken from the queues, or left there when a loop ends, are
  -- together those answered or dropped and those taken and not settled at the end, each as often: the
  -- equation holds for every weight of their senders. Sockets that start again and tasks that outlive
  -- their socket or the processor are among them.
  pub requests_balanced :
      (sys : System ms ha net ad Io Bus to_string) (es : List (Event ms ha net ad Io Bus to_string))
      → unsettled ms ha net ad Io Bus to_string s w sys + run_took sys es
        ≡ weight (settled ms w) (run ms ha net ad Io Bus to_string s sys es).effects
          + unsettled ms ha net ad Io Bus to_string s w
              (run ms ha net ad Io Bus to_string s sys es).state
  unfolding run run_took
  requests_balanced sys [] = omega arith
  requests_balanced sys (e ∷ es) =
      let t = turn ms ha net ad Io Bus to_string s sys e in
      omega (
        arith,
        turn-Balanced sys e sys.status refl,
        requests_balanced t.state es,
        weight-append (settled ms w) t.effects
            (run ms ha net ad Io Bus to_string s t.state es).effects,
      )
