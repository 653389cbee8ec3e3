-- ===== src/Server/Start.antt =====
-- The start of the server's processor, and its whole run: `HyperServerProc::internal_run` of
-- src/server/proc.rs, from the adaptor to the end of the loop.
pub mod Whole
use pro_sa_hyper.Common.{ℕ, List, [], ◌∷◌, Bool, true, false}
use pro_sa_hyper.Prosa.{Messages}
use pro_sa_hyper.Prosa.Pending.{PendingMsgs}
use pro_sa_hyper.Net.{Net, ListenerSetting}
use pro_sa_hyper.Server.Settings.{Settings, configure_listener}
use pro_sa_hyper.Server.Proc.{Status, running, failed, Setup}
use pro_sa_hyper.Server.System
use pro_sa_hyper.Server.System.{System, Event, run}

-- The processor's queue is added on the bus, and a listener is bound.
pub data Effect (net : Net) : Type 0 where
  added : Effect net
  listening : ListenerSetting net → Effect net

module _ {M : Type 0} (ms : Messages M) (pm : PendingMsgs ms.RequestMsg) (net : Net) where
  -- What the start leaves: the settings, which it changes, what it did, and the calls, the channel and
  -- the processor.
  pub record Start : Type 0 where
    pub settings : Settings net
    pub effects : List (Effect net)
    pub system : System ms pm

  -- No call, an empty channel and no pending request.
  pub fresh : ms.ServiceTable → Status → System ms pm
  fresh table status = record {
    sending = [];
    queue = [];
    proc = record { service = table; pending = pm.empty };
    status = status;
  }

  bind : Settings net → ms.ServiceTable → Bool → Start
  unfolding fresh
  bind s table true = record {
    settings = s;
    effects = added ∷ listening s.listener ∷ [];
    system = fresh table running;
  }
  bind s table false = record { settings = s; effects = added ∷ []; system = fresh table failed }

  -- The arguments after the service table are whether the adaptor is made, the processor is added and
  -- the listener is bound.
  unfoldable pub start : Settings net → ms.ServiceTable → Bool → Bool → Bool → Start
  unfolding bind fresh
  start s table false added? bound? = record {
    settings = s;
    effects = [];
    system = fresh table failed;
  }
  start s table true false bound? = record {
    settings = s;
    effects = [];
    system = fresh table failed;
  }
  start s table true true bound? =
      bind (record s { listener = configure_listener net s.listener }) table bound?

  -- What the loop reads of the settings, and the queue of the processor's own services.
  abbrev pub setup_of : Settings net → ms.Sender → Setup ms pm
  setup_of s queue = record { service_timeout = s.service_timeout; service_queue = queue }

  unfoldable pub internal_run :
      Settings net
      → ms.Sender
      → ms.ServiceTable
      → Bool
      → Bool
      → Bool
      → List (Event ms)
      → Start × System.Turn ms pm
  unfolding start
  internal_run s queue table adapted? added? bound? es =
      let first = start s table adapted? added? bound? in
      (first, run ms pm (setup_of first.settings queue) first.system es)
