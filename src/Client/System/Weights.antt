-- ===== src/Client/System/Weights.antt =====
-- The requests that the client's sockets have taken and not settled, over a turn of their processor.
use pro_sa_hyper.Common.{
  ℕ, ◌+◌, ◌≡◌, refl, String, none, some, List, [], ◌∷◌, arith, weight, weight-append,
}
use pro_sa_hyper.Prosa.{Messages}
use pro_sa_hyper.Http.{HttpApi}
use pro_sa_hyper.Net.{Net, TargetSetting}
use pro_sa_hyper.Client.Socket.{ClientAdaptor}
use pro_sa_hyper.Client.Socket.Weights.{settled}
use pro_sa_hyper.Client.Proc
use pro_sa_hyper.Client.Proc.{Settings, spawned, gauge, terminated, removed}
use pro_sa_hyper.Client.Task.Account.{in_task, in_orphan, orphans_of-weight}
use pro_sa_hyper.Client.Task.{Task, opening, open1, open2, over, Orphan, orphans_of}
use pro_sa_hyper.Client.System.{System, new_tasks, abort_orphans, abort_effects, abort, after_turn}

module _ {M : Type 0} (ms : Messages M) (ha : HttpApi) (net : Net) (ad : ClientAdaptor ms ha net)
    (Io Bus : Type 0) (to_string : TargetSetting net → String) (s : Settings net)
    (w : ms.Sender → ℕ) where
  abbrev task_weight : Task ms ha net ad Io Bus to_string → ℕ
  task_weight = in_task ms ha net ad Io Bus to_string s w

  abbrev orphan_weight : Orphan ms ha net ad Io Bus to_string → ℕ
  orphan_weight = in_orphan ms ha net ad Io Bus to_string s w

  -- The weight of all the requests that are taken and not yet settled.
  abbrev pub unsettled : System ms ha net ad Io Bus to_string → ℕ
  unsettled sys = weight task_weight sys.tasks + weight orphan_weight sys.orphans

  new_tasks-weight :
      (es : List (Proc.Effect net))
      → weight task_weight (new_tasks ms ha net ad Io Bus to_string es) ≡ 0
  unfolding new_tasks
  new_tasks-weight [] = refl
  new_tasks-weight (spawned k ∷ es) = omega (arith, new_tasks-weight es)
  new_tasks-weight (gauge n ∷ es) = new_tasks-weight es
  new_tasks-weight (terminated ∷ es) = new_tasks-weight es
  new_tasks-weight (removed ∷ es) = new_tasks-weight es

  -- An abort drops the request in flight of each socket over HTTP/1.1 and leaves the others' to the
  -- orphans.
  abort-weight :
      (ts : List (Task ms ha net ad Io Bus to_string))
      → weight (settled ms w) (abort_effects ms ha net ad Io Bus to_string ts)
          + weight orphan_weight (abort_orphans ms ha net ad Io Bus to_string ts)
        ≡ weight task_weight ts
  unfolding abort_effects abort_orphans
  abort-weight [] = refl
  abort-weight (open1 su (some (m, r)) ∷ ts) = omega (arith, abort-weight ts)
  abort-weight (open1 su none ∷ ts) = omega (arith, abort-weight ts)
  abort-weight (open2 su st ∷ ts) = omega (
    arith,
    abort-weight ts,
    orphans_of-weight ms ha net ad Io Bus to_string s w su st,
    weight-append orphan_weight (orphans_of ms ha net ad Io Bus to_string su st)
        (abort_orphans ms ha net ad Io Bus to_string ts),
  )
  abort-weight (opening k ∷ ts) = omega (arith, abort-weight ts)
  abort-weight (over r ∷ ts) = omega (arith, abort-weight ts)

  aborted :
      (ts : List (Task ms ha net ad Io Bus to_string))
      (os : List (Orphan ms ha net ad Io Bus to_string))
      (t : Proc.Turn ms net (Unit {0}) (Unit {0}))
      → weight (settled ms w) (abort ms ha net ad Io Bus to_string ts os t).effects
          + unsettled (abort ms ha net ad Io Bus to_string ts os t).state
        ≡ weight task_weight ts + weight orphan_weight os
  unfolding abort
  aborted ts os t = omega (
    arith,
    abort-weight ts,
    weight-append orphan_weight (abort_orphans ms ha net ad Io Bus to_string ts) os,
  )

  -- A turn of the processor leaves or settles what the tasks and the orphans had.
  pub after_turn-weight :
      (ts : List (Task ms ha net ad Io Bus to_string))
      (os : List (Orphan ms ha net ad Io Bus to_string))
      (t : Proc.Turn ms net (Unit {0}) (Unit {0})) (u : Proc.Status)
      → t.status ≡ u
      → weight (settled ms w) (after_turn ms ha net ad Io Bus to_string ts os t).effects
          + unsettled (after_turn ms ha net ad Io Bus to_string ts os t).state
        ≡ weight task_weight ts + weight orphan_weight os
  unfolding after_turn
  after_turn-weight ts os t Proc.Status.running e =
      rw (e, after_turn)
        (omega (
          arith,
          weight-append task_weight (new_tasks ms ha net ad Io Bus to_string t.effects) ts,
          new_tasks-weight t.effects,
        ))
  after_turn-weight ts os t Proc.Status.finished e = rw (e, after_turn) (aborted ts os t)
  after_turn-weight ts os t Proc.Status.failed e = rw (e, after_turn) (aborted ts os t)
  after_turn-weight ts os t Proc.Status.panicked e = rw (e, after_turn) (aborted ts os t)
