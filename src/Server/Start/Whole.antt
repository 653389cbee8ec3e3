-- ===== src/Server/Start/Whole.antt =====
-- The whole run of the server's processor.
use pro_sa_hyper.Common.{
  ℕ, ◌≡◌, ◌≢◌, inr, refl, some, List, [], ◌∷◌, Bool, true, false, arith, weight, if◌then◌else◌,
}
use pro_sa_hyper.Prosa.{Messages}
use pro_sa_hyper.Prosa.Pending.{PendingMsgs}
use pro_sa_hyper.Net.{Net, ListenerSetting, protocols}
use pro_sa_hyper.Server.Settings.{Settings, configure_listener}
use pro_sa_hyper.Server.Settings.Port.{offered, configure_listener-offers}
use pro_sa_hyper.Server.Proc.{Status, running, failed, Setup}
use pro_sa_hyper.Server.Proc.Identifiers.{IsBelow}
use pro_sa_hyper.Server.Proc.Ledger.{settled}
use pro_sa_hyper.Server.System.{Event, run}
use pro_sa_hyper.Server.System.Identifiers.{Ascending}
use pro_sa_hyper.Server.System.Account.{outstanding, calls}
use pro_sa_hyper.Server.System.Calls.{ended_calls-settled}
use pro_sa_hyper.Server.Start.{added, listening, fresh, bind, start, setup_of, internal_run}

module _ {M : Type 0} (ms : Messages M) (pm : PendingMsgs ms.RequestMsg) (net : Net)
    (s : Settings net) (table : ms.ServiceTable) where
  -- A processor that runs is added before it listens, to the URL of its settings; it offers HTTP/2 and
  -- HTTP/1.1, in this order, where that asks for TLS, and what the settings offer elsewhere. It starts
  -- with no pending request.
  pub start_listens :
      (adapted? added? bound? : Bool)
      → (start ms pm net s table adapted? added? bound?).system.status ≡ running
      → (l : ListenerSetting net) × ((start ms pm net s table adapted? added? bound?).effects
          ≡ added ∷ listening l ∷ [])
        × (l.url ≡ s.listener.url)
        × (offered net l.ssl ≡ (
            if net.url_is_ssl s.listener.url then some protocols else offered net s.listener.ssl))
        × ((start ms pm net s table adapted? added? bound?).system.proc.pending ≡ pm.empty)
  unfolding start bind fresh
  start_listens false added? bound? r = cc
  start_listens true false bound? r = cc
  start_listens true true false r = cc
  start_listens true true true r =
      let (offers, same) = configure_listener-offers net s.listener in
      (configure_listener net s.listener, refl, same, offers, refl)

  module _ (su : Setup ms pm) (w : ms.Sender → ℕ) where
    outstanding-fresh : (st : Status) → outstanding ms pm su w (fresh ms pm net table st) ≡ 0
    unfolding fresh
    outstanding-fresh st = rw (pm.entries-empty) refl

    IsBelow-fresh : (st : Status) → IsBelow ms pm 0 (fresh ms pm net table st).proc.pending
    unfolding fresh
    IsBelow-fresh st = record {
      unused = λ i h. rw (pm.entries-empty) refl;
      once = λ i. rw (pm.entries-empty) (omega arith);
    }

    -- Of the calls of a new system all are settled at its end.
    run-fresh :
        (st : Status) (es : List (Event ms))
        → Ascending 0 es
        → (run ms pm su (fresh ms pm net table st) es).state.status ≢ running
        → weight (settled ms w) (run ms pm su (fresh ms pm net table st) es).effects
          ≡ weight (calls ms pm su w) es
    run-fresh st es a ended = omega (
      arith,
      ended_calls-settled ms pm su w (fresh ms pm net table st) 0 es (inr (outstanding-fresh st))
          (IsBelow-fresh st) a ended,
      outstanding-fresh st,
    )

  -- At the end of a run of the processor, from its start and whatever it ended by (a start that fails, a
  -- shutdown, an error or a panic), the calls that were answered, or told by a closed channel that
  -- there is no answer, are the calls that were made, each as often: the equation holds for every
  -- weight of their senders. It supposes that identifiers ascend.
  pub internal_run_settles :
      (w : ms.Sender → ℕ) (queue : ms.Sender) (adapted? added? bound? : Bool) (es : List (Event ms))
      → Ascending 0 es
      → (internal_run ms pm net s queue table adapted? added? bound? es).1.state.status ≢ running
      → weight
          (settled ms w)
          (internal_run ms pm net s queue table adapted? added? bound? es).1.effects
        ≡ weight
            (calls ms pm
              (setup_of ms pm net (start ms pm net s table adapted? added? bound?).settings queue)
              w)
            es
  unfolding internal_run start bind
  internal_run_settles w queue false added? bound? es a ended = run-fresh _ w failed es a ended
  internal_run_settles w queue true false bound? es a ended = run-fresh _ w failed es a ended
  internal_run_settles w queue true true false es a ended = run-fresh _ w failed es a ended
  internal_run_settles w queue true true true es a ended = run-fresh _ w running es a ended
