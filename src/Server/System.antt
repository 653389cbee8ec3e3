-- ===== src/Server/System.antt =====
-- The server's calls, its queue of HTTP requests and its processor together: `wait_intern_resp` of
-- src/server/service.rs sends to the channel that `HyperServerProc::internal_run` of
-- src/server/proc.rs makes and reads.
pub mod Identifiers
pub mod Account
pub mod Calls
pub mod Ends
use pro_sa_hyper.Common.{
  pick, Option, none, some, ℕ, List, [], ◌∷◌, ◌++◌, Bool, true, false, if◌then◌else◌, ltb, length,
}
use pro_sa_hyper.Prosa.{Messages, InternalMsg}
use pro_sa_hyper.Prosa.Pending.{PendingMsgs}
use pro_sa_hyper.Server.Proc
use pro_sa_hyper.Server.Proc.{
  Effect, dropped, Status, running, finished, failed, panicked, Setup, State,
}

-- `called` is a call of the service that sends its request, `admitted` the end of one of the sends
-- that wait, and `taken` the receipt of a request of the queue, with the identifier that a new request
-- gets and whether the service's queue accepts it. When a send ends and which request comes, by their
-- numbers, is up to the channel, which is not part of this code: no order and no bound is supposed.
-- The others are as for the processor.
pub data Event {M : Type 0} (ms : Messages M) : Type 0 where
  called : ms.RequestMsg → Event ms
  admitted : ℕ → Event ms
  taken : ℕ → ℕ → Bool → Event ms
  internal : InternalMsg ms → Bool → Event ms
  accept : Bool → Event ms
  expire : ℕ → Event ms

module _ {M : Type 0} (ms : Messages M) (pm : PendingMsgs ms.RequestMsg) where
  -- The requests whose sends wait for room and those in the queue.
  pub record System : Type 0 where
    pub sending : List ms.RequestMsg
    pub queue : List ms.RequestMsg
    pub proc : State ms pm
    pub status : Status

  pub record Turn : Type 0 where
    pub state : System
    pub effects : List (Effect ms)

  abbrev same : System → Turn
  same sys = record { state = sys; effects = [] }

  pub drop_all : List ms.RequestMsg → List (Effect ms)
  drop_all [] = []
  drop_all (m ∷ q) = dropped m ∷ drop_all q

  pub drop_pending : List (ℕ × ms.RequestMsg) → List (Effect ms)
  drop_pending [] = []
  drop_pending ((i, m) ∷ p) = dropped m ∷ drop_pending p

  -- When the loop ends, the pending requests and the receiver go out of scope; so do the requests of
  -- the queue and those of the sends that wait, which fail.
  pub close : List ms.RequestMsg → List ms.RequestMsg → Proc.Turn ms pm → Turn
  unfolding drop_all drop_pending
  close sending queue t = record {
    state = record {
      sending = [];
      queue = [];
      proc = record t.state { pending = pm.empty };
      status = t.status;
    };
    effects =
        t.effects
        ++ (drop_pending (pm.entries t.state.pending) ++ (drop_all queue ++ drop_all sending));
  }

  -- What a turn of the loop makes of the system.
  pub after_turn : List ms.RequestMsg → List ms.RequestMsg → Proc.Turn ms pm → Turn
  unfolding close
  after_turn sending queue t = elim t.status [
    | running ↦ record {
      state = record { sending = sending; queue = queue; proc = t.state; status = running };
      effects = t.effects;
    }
    | other ↦ close sending queue t
  ]

  -- The send that goes on, if there is one, and those that still wait.
  pub admit : System → Option (ms.RequestMsg × List ms.RequestMsg) → Turn
  admit sys none = same sys
  admit sys (some (m, rest)) = same (record sys { sending = rest; queue = sys.queue ++ m ∷ [] })

  -- The request that the loop receives, if there is one, and those still in the queue.
  pub take : Setup ms pm → System → Option (ms.RequestMsg × List ms.RequestMsg) → ℕ → Bool → Turn
  unfolding after_turn
  take su sys none i ok? = same sys
  take su sys (some (m, rest)) i ok? =
      after_turn sys.sending rest (Proc.turn ms pm su sys.proc (Proc.Event.http m i ok?))

  -- While the loop runs; an event that cannot happen changes nothing.
  pub open_turn : Setup ms pm → System → Event ms → Turn
  unfolding admit take after_turn pick
  open_turn su sys (called m) = same (record sys { sending = sys.sending ++ m ∷ [] })
  open_turn su sys (admitted k) = admit sys (pick k sys.sending)
  open_turn su sys (taken k i ok?) = take su sys (pick k sys.queue) i ok?
  open_turn su sys (internal m ok?) =
      after_turn sys.sending sys.queue (Proc.turn ms pm su sys.proc (Proc.Event.internal m ok?))
  open_turn su sys (accept ok?) =
      after_turn sys.sending sys.queue (Proc.turn ms pm su sys.proc (Proc.Event.accept ok?))
  open_turn su sys (expire now) =
      after_turn sys.sending sys.queue (Proc.turn ms pm su sys.proc (Proc.Event.expire now))

  -- Once the loop has ended a send fails.
  pub closed_turn : System → Event ms → Turn
  closed_turn sys (called m) = record { state = sys; effects = dropped m ∷ [] }
  closed_turn sys (admitted k) = same sys
  closed_turn sys (taken k i ok?) = same sys
  closed_turn sys (internal m ok?) = same sys
  closed_turn sys (accept ok?) = same sys
  closed_turn sys (expire now) = same sys

  unfoldable pub turn : Setup ms pm → System → Event ms → Turn
  unfolding open_turn closed_turn
  turn su sys e = elim sys.status [ running ↦ open_turn su sys e | _ ↦ closed_turn sys e ]

  unfoldable pub run : Setup ms pm → System → List (Event ms) → Turn
  run su sys [] = same sys
  run su sys (e ∷ es) =
      let t = turn su sys e in
      let rest = run su t.state es in record rest { effects = t.effects ++ rest.effects }
