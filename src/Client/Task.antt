-- ===== src/Client/Task.antt =====
-- The task of a client socket from its start to its end: what `HyperClientSocket::spawn` of
-- src/client/socket.rs puts in the `JoinSet` of `HyperClientProc::internal_run`.
pub mod Backed
pub mod Account
use pro_sa_hyper.Common.{
  pick, ℕ, String, Option, none, some, List, [], ◌∷◌, ◌++◌, Bool, Result, ok, err,
}
use pro_sa_hyper.Prosa.{Messages, InternalMsg}
use pro_sa_hyper.Http.{HttpApi}
use pro_sa_hyper.Net.{Net, TargetSetting}
use pro_sa_hyper.Client.Socket
use pro_sa_hyper.Client.Socket.{
  Socket, ClientAdaptor, Setup, dropped, running, closed, failed, panicked,
}
use pro_sa_hyper.Client.Socket.Http1
use pro_sa_hyper.Client.Socket.Http2
use pro_sa_hyper.Client.Socket.Http2.{run_task}
use pro_sa_hyper.Client.Socket.Open.{http1, http2, Attempt, Opened, Failure, spawn}
use pro_sa_hyper.Client.Proc
use pro_sa_hyper.Client.Proc.{Settings, spawned, gauge, terminated, removed}

-- Errors are logged only, so nothing is kept of them. `to_string` is the text of a target.
module _ {M : Type 0} (ms : Messages M) (ha : HttpApi) (net : Net) (ad : ClientAdaptor ms ha net)
    (Io Bus : Type 0) (to_string : TargetSetting net → String) where
  -- The result of a socket's task, a panic being the outer error.
  abbrev pub Outcome : Type 0
  Outcome = Result (Result (Socket net) (Unit {0})) (Unit {0})

  -- A socket's task: connecting, in the loop of its protocol, or at its end.
  pub data Task : Type 0 where
    opening : Socket net → Task
    open1 : Setup ms ha net ad → Http1.State ms ha net ad → Task
    open2 : Setup ms ha net ad → Http2.State ms ha net ad → Task
    over : Outcome → Task

  -- The task of a request over HTTP/2 whose socket's task has ended.
  abbrev pub Orphan : Type 0
  Orphan = Setup ms ha net ad × (ms.RequestMsg × M)

  pub data TaskEvent : Type 0 where
    started : Attempt ms ha net ad Io Bus → TaskEvent
    on1 : Http1.Event ms ha net ad → TaskEvent
    on2 : Http2.Event ms ha net ad → TaskEvent

  -- What a step of a task leaves: the task, the tasks of its requests if it has ended, and effects.
  pub record After : Type 0 where
    pub task : Task
    pub orphans : List Orphan
    pub effects : List (Socket.Effect ms)

  pub opened :
      Result (Opened ms ha net ad Io Bus) (Failure ms ha net ad Io Bus) × List (Socket.Effect ms)
      → After
  opened (err e, es) = record { task = over (ok (err tt)); orphans = []; effects = es }
  opened (ok o, es) = elim o.protocol [
    | http1 ↦ record { task = open1 o.setup none; orphans = []; effects = es }
    | http2 ↦ record { task = open2 o.setup []; orphans = []; effects = es }
  ]

  unfoldable pub orphans_of : Setup ms ha net ad → Http2.State ms ha net ad → List Orphan
  orphans_of su [] = []
  orphans_of su (r ∷ st) = (su, r) ∷ orphans_of su st

  pub next1 : Setup ms ha net ad → Http1.Turn ms ha net ad → After
  next1 su t = elim t.status [
    | running ↦ record { task = open1 su t.state; orphans = []; effects = t.effects }
    | closed s ↦ record { task = over (ok (ok s)); orphans = []; effects = t.effects }
    | failed ↦ record { task = over (ok (err tt)); orphans = []; effects = t.effects }
    | panicked ↦ record { task = over (err tt); orphans = []; effects = t.effects }
  ]

  pub next2 : Setup ms ha net ad → Http2.Turn ms ha net ad → After
  next2 su t = elim t.status [
    | running ↦ record { task = open2 su t.state; orphans = []; effects = t.effects }
    | closed s ↦ record {
      task = over (ok (ok s));
      orphans = orphans_of su t.state;
      effects = t.effects;
    }
    | failed ↦ record {
      task = over (ok (err tt));
      orphans = orphans_of su t.state;
      effects = t.effects;
    }
    | panicked ↦ record {
      task = over (err tt);
      orphans = orphans_of su t.state;
      effects = t.effects;
    }
  ]

  abbrev stays : Task → After
  stays t = record { task = t; orphans = []; effects = [] }

  -- One step of a task; one that it does not wait for changes nothing.
  unfoldable pub step : Settings net → Task → TaskEvent → After
  unfolding opened orphans_of next1 next2
  step s (opening k) (started at) =
      opened (spawn ms ha net ad Io Bus k s.service_name (to_string k.target) at)
  step s (open1 su st) (on1 e) = elim (Http1.turn ms ha net ad su st e) [
    | none ↦ stays (open1 su st)
    | some t ↦ next1 su t
  ]
  step s (open2 su st) (on2 e) = elim (Http2.turn ms ha net ad su st e) [
    | none ↦ stays (open2 su st)
    | some t ↦ next2 su t
  ]
  step s (opening k) (on1 e) = stays (opening k)
  step s (opening k) (on2 e) = stays (opening k)
  step s (open1 su st) (started at) = stays (open1 su st)
  step s (open1 su st) (on2 e) = stays (open1 su st)
  step s (open2 su st) (started at) = stays (open2 su st)
  step s (open2 su st) (on1 e) = stays (open2 su st)
  step s (over r) e = stays (over r)
