-- ===== src/Client/System.antt =====
-- The client's processor together with the tasks of its sockets: the `JoinSet` of
-- `HyperClientProc::internal_run` in src/client/proc.rs holds the tasks that
-- `HyperClientSocket::spawn` in src/client/socket.rs starts.
pub mod Picks
pub mod Weights
pub mod Sound
pub mod Requests
use pro_sa_hyper.Common.{
  pick, ℕ, String, Option, none, some, List, [], ◌∷◌, ◌++◌, Bool, Result, ok, err,
}
use pro_sa_hyper.Prosa.{Messages, InternalMsg}
use pro_sa_hyper.Http.{HttpApi}
use pro_sa_hyper.Net.{Net, TargetSetting}
use pro_sa_hyper.Client.Socket
use pro_sa_hyper.Client.Socket.{
  Socket, ClientAdaptor, Setup, dropped, running, closed, failed, panicked,
}
use pro_sa_hyper.Client.Socket.Http1
use pro_sa_hyper.Client.Socket.Http2
use pro_sa_hyper.Client.Socket.Http2.{run_task}
use pro_sa_hyper.Client.Socket.Open.{http1, http2, Attempt, Opened, Failure, spawn}
use pro_sa_hyper.Client.Proc
use pro_sa_hyper.Client.Proc.{Settings, spawned, gauge, terminated, removed}
use pro_sa_hyper.Client.Task.{
  Outcome, Task, opening, open1, open2, over, Orphan, TaskEvent, started, on1, on2, After, opened,
  orphans_of, next1, next2, step,
}

-- Errors are logged only, so nothing is kept of them. `to_string` is the text of a target.
module _ {M : Type 0} (ms : Messages M) (ha : HttpApi) (net : Net) (ad : ClientAdaptor ms ha net)
    (Io Bus : Type 0) (to_string : TargetSetting net → String) where
  -- An event of the task of the given number, the end of a task that the processor joins, a message
  -- for the processor, or the end of an orphan's exchange.
  pub data Event : Type 0 where
    at : ℕ → TaskEvent ms ha net ad Io Bus to_string → Event
    join : ℕ → Event
    internal : InternalMsg ms → Bool → Event
    orphaned : ℕ → Option (Result ha.Response ha.HyperCrateError) → Event

  pub record System : Type 0 where
    pub proc : Proc.State ms net (Unit {0}) (Unit {0})
    pub status : Proc.Status
    pub tasks : List (Task ms ha net ad Io Bus to_string)
    pub orphans : List (Orphan ms ha net ad Io Bus to_string)

  pub record Turn : Type 0 where
    pub state : System
    pub effects : List (Socket.Effect ms)
    pub proc_effects : List (Proc.Effect net)

  abbrev same : System → Turn
  same sys = record { state = sys; effects = []; proc_effects = [] }

  -- The tasks that the processor spawns.
  pub new_tasks : List (Proc.Effect net) → List (Task ms ha net ad Io Bus to_string)
  new_tasks [] = []
  new_tasks (spawned k ∷ es) = opening k ∷ new_tasks es
  new_tasks (gauge n ∷ es) = new_tasks es
  new_tasks (terminated ∷ es) = new_tasks es
  new_tasks (removed ∷ es) = new_tasks es

  -- The set of tasks goes out of scope with the processor, which aborts them. The task of a request
  -- over HTTP/2 is not in the set. What waits in the sockets' queues, which a step takes its messages
  -- from, is not followed here.
  pub abort_orphans :
      List (Task ms ha net ad Io Bus to_string) → List (Orphan ms ha net ad Io Bus to_string)
  abort_orphans [] = []
  abort_orphans (open2 su st ∷ ts) =
      orphans_of ms ha net ad Io Bus to_string su st ++ abort_orphans ts
  abort_orphans (open1 su st ∷ ts) = abort_orphans ts
  abort_orphans (opening k ∷ ts) = abort_orphans ts
  abort_orphans (over r ∷ ts) = abort_orphans ts

  pub abort_effects : List (Task ms ha net ad Io Bus to_string) → List (Socket.Effect ms)
  abort_effects [] = []
  abort_effects (open1 su (some (m, r)) ∷ ts) = dropped m ∷ abort_effects ts
  abort_effects (open1 su none ∷ ts) = abort_effects ts
  abort_effects (open2 su st ∷ ts) = abort_effects ts
  abort_effects (opening k ∷ ts) = abort_effects ts
  abort_effects (over r ∷ ts) = abort_effects ts

  pub abort :
      List (Task ms ha net ad Io Bus to_string)
      → List (Orphan ms ha net ad Io Bus to_string)
      → Proc.Turn ms net (Unit {0}) (Unit {0})
      → Turn
  unfolding abort_orphans abort_effects
  abort ts os t = record {
    state = record {
      proc = t.state;
      status = t.status;
      tasks = [];
      orphans = abort_orphans ts ++ os;
    };
    effects = abort_effects ts;
    proc_effects = t.effects;
  }

  -- What a turn of the processor makes of the system, given the tasks that are left.
  pub after_turn :
      List (Task ms ha net ad Io Bus to_string)
      → List (Orphan ms ha net ad Io Bus to_string)
      → Proc.Turn ms net (Unit {0}) (Unit {0})
      → Turn
  unfolding new_tasks abort
  after_turn ts os t = elim t.status [
    | Proc.Status.running ↦ record {
      state = record {
        proc = t.state;
        status = Proc.Status.running;
        tasks = new_tasks t.effects ++ ts;
        orphans = os;
      };
      effects = [];
      proc_effects = t.effects;
    }
    | _ ↦ abort ts os t
  ]

  pub on_turn :
      System
      → List (Task ms ha net ad Io Bus to_string)
      → Option (Proc.Turn ms net (Unit {0}) (Unit {0}))
      → Turn
  unfolding after_turn
  on_turn sys ts none = same sys
  on_turn sys ts (some t) = after_turn ts sys.orphans t

  -- The processor joins a task that has ended.
  pub on_join :
      System
      → Option (Task ms ha net ad Io Bus to_string × List (Task ms ha net ad Io Bus to_string))
      → Turn
  unfolding on_turn
  on_join sys (some (over r, rest)) =
      on_turn sys rest (Proc.turn ms net (Unit {0}) (Unit {0}) sys.proc (Proc.Event.joined r))
  on_join sys (some (opening k, rest)) = same sys
  on_join sys (some (open1 su st, rest)) = same sys
  on_join sys (some (open2 su st, rest)) = same sys
  on_join sys none = same sys

  pub on_task :
      Settings net
      → System
      → Option (Task ms ha net ad Io Bus to_string × List (Task ms ha net ad Io Bus to_string))
      → TaskEvent ms ha net ad Io Bus to_string
      → Turn
  unfolding step
  on_task s sys none e = same sys
  on_task s sys (some (t, rest)) e =
      let a = step ms ha net ad Io Bus to_string s t e in
      record {
        state = record sys { tasks = a.task ∷ rest; orphans = a.orphans ++ sys.orphans };
        effects = a.effects;
        proc_effects = [];
      }

  pub on_orphan :
      System
      → Option (Orphan ms ha net ad Io Bus to_string × List (Orphan ms ha net ad Io Bus to_string))
      → Option (Result ha.Response ha.HyperCrateError)
      → Turn
  on_orphan sys none x = same sys
  on_orphan sys (some ((su, (m, d)), rest)) x = record {
    state = record sys { orphans = rest };
    effects = run_task ms ha net ad su m d x;
    proc_effects = [];
  }

  pub open_turn : Settings net → System → Event → Turn
  unfolding on_task on_join on_turn on_orphan
  open_turn s sys (at n e) = on_task s sys (pick n sys.tasks) e
  open_turn s sys (join n) = on_join sys (pick n sys.tasks)
  open_turn s sys (internal m ok?) =
      on_turn sys sys.tasks
        (Proc.turn ms net (Unit {0}) (Unit {0}) sys.proc (Proc.Event.internal m ok?))
  open_turn s sys (orphaned k x) = on_orphan sys (pick k sys.orphans) x

  -- Once the processor has ended only the orphans go on.
  pub closed_turn : System → Event → Turn
  unfolding on_orphan
  closed_turn sys (orphaned k x) = on_orphan sys (pick k sys.orphans) x
  closed_turn sys (at n e) = same sys
  closed_turn sys (join n) = same sys
  closed_turn sys (internal m ok?) = same sys

  unfoldable pub turn : Settings net → System → Event → Turn
  unfolding open_turn closed_turn
  turn s sys e = elim sys.status [ Proc.Status.running ↦ open_turn s sys e | _ ↦ closed_turn sys e ]

  unfoldable pub run : Settings net → System → List Event → Turn
  run s sys [] = same sys
  run s sys (e ∷ es) =
      let t = turn s sys e in
      let rest = run s t.state es in
      record {
        state = rest.state;
        effects = t.effects ++ rest.effects;
        proc_effects = t.proc_effects ++ rest.proc_effects;
      }

  -- The processor as it starts, with whether the adaptor is made and the processor added.
  unfoldable pub start : Settings net → Bool → Bool → Proc.State ms net (Unit {0}) (Unit {0}) → Turn
  unfolding on_turn
  start s adapted? added? st =
      after_turn [] [] (Proc.start ms net (Unit {0}) (Unit {0}) s adapted? added? st)
