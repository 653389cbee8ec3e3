-- ===== src/Server/System/Ends.antt =====
-- What the end of the processor's loop does to the requests that wait for an answer.
use pro_sa_hyper.Common.{
  ℕ, ◌≤◌, ◌≡◌, ◌≢◌, refl, some, List, [], ◌∷◌, ◌++◌, true, false, All, arith, weight, weight-perm,
}
use pro_sa_hyper.Prosa.{Messages, request, response, error, command, config, service, shutdown}
use pro_sa_hyper.Prosa.Pending.{PendingMsgs}
use pro_sa_hyper.Server.Proc
use pro_sa_hyper.Server.Proc.{
  Effect, returned, returned_error, sent, dropped, spawned, terminated, removed, Event, internal,
  http, accept, expire, Status, running, finished, failed, panicked, Setup, State, on_internal,
  on_shutdown, on_accept,
}
use pro_sa_hyper.Server.Proc.Ledger.{settled}
use pro_sa_hyper.Server.System.Account.{close-settles}
use pro_sa_hyper.Server.System.{drop_all, drop_pending, close, after_turn}

module _ {M : Type 0} (ms : Messages M) (pm : PendingMsgs ms.RequestMsg) where
  -- The events that end the loop, an answer of the service not among them: a shutdown, a message that
  -- the processor does not support, and a connection that cannot be accepted.
  abbrev pub IsEnd : Event ms → Type 0
  IsEnd (internal shutdown ok?) = Unit {0}
  IsEnd (internal (request m) ok?) = Unit {0}
  IsEnd (internal command ok?) = Unit {0}
  IsEnd (internal config ok?) = Unit {0}
  IsEnd (internal (response m) ok?) = ⊥
  IsEnd (internal (error m) ok?) = ⊥
  IsEnd (internal (service table) ok?) = ⊥
  IsEnd (accept true) = ⊥
  IsEnd (accept false) = Unit {0}
  IsEnd (http m i ok?) = ⊥
  IsEnd (expire now) = ⊥

  -- The effect answers no request.
  abbrev pub IsSilent : Effect ms → Type 0
  IsSilent (returned m d) = ⊥
  IsSilent (returned_error m d e) = ⊥
  IsSilent (sent svc r) = Unit {0}
  IsSilent (dropped m) = Unit {0}
  IsSilent spawned = Unit {0}
  IsSilent terminated = Unit {0}
  IsSilent removed = Unit {0}

  IsSilent-append :
      (xs ys : List (Effect ms)) → All IsSilent xs → All IsSilent ys → All IsSilent (xs ++ ys)
  IsSilent-append [] ys a b = b
  IsSilent-append (x ∷ xs) ys a b = (a.0, IsSilent-append xs ys a.1 b)

  IsSilent-drop_all : (q : List ms.RequestMsg) → All IsSilent (drop_all ms pm q)
  unfolding drop_all
  IsSilent-drop_all [] = tt
  IsSilent-drop_all (m ∷ q) = (tt, IsSilent-drop_all q)

  IsSilent-drop_pending : (p : List (ℕ × ms.RequestMsg)) → All IsSilent (drop_pending ms pm p)
  unfolding drop_pending
  IsSilent-drop_pending [] = tt
  IsSilent-drop_pending ((i, m) ∷ p) = (tt, IsSilent-drop_pending p)

  module _ (sending queue : List ms.RequestMsg) where
    IsSilent-close :
        (t : Proc.Turn ms pm)
        → All IsSilent t.effects
        → All IsSilent (close ms pm sending queue t).effects
    unfolding close
    IsSilent-close t a = IsSilent-append t.effects _ a (
        IsSilent-append (drop_pending ms pm (pm.entries t.state.pending)) _
          (IsSilent-drop_pending (pm.entries t.state.pending))
          (IsSilent-append (drop_all ms pm queue) _ (IsSilent-drop_all queue)
            (IsSilent-drop_all sending)))

    module _ (su : Setup ms pm) (i : ℕ) (m : ms.RequestMsg) where
      settled-close_found :
          (t : Proc.Turn ms pm) (w : ms.Sender → ℕ)
          → (pm.pull_msg i t.state.pending).0 ≡ some m
          → w (ms.sender m) ≤ weight (settled ms w) (close ms pm sending queue t).effects
      settled-close_found t w h = omega (
        arith,
        close-settles ms pm su w sending queue t,
        weight-perm (λ e. w (ms.sender e.1)) (pm.pull_msg_some i t.state.pending m h),
      )

      Drops : Proc.Turn ms pm → Type 0
      Drops t =
          All IsSilent (after_turn ms pm sending queue t).effects
          × ((w : ms.Sender → ℕ)
              → w (ms.sender m) ≤ weight (settled ms w) (after_turn ms pm sending queue t).effects)

      closes :
          (t : Proc.Turn ms pm) (s : Status)
          → t.status ≡ s
          → s ≢ running
          → All IsSilent t.effects
          → (pm.pull_msg i t.state.pending).0 ≡ some m
          → Drops t
      unfolding after_turn Drops
      closes t running e n a h = absurd (n refl)
      closes t finished e n a h =
          rw (e, after_turn) (IsSilent-close t a, λ w. settled-close_found t w h)
      closes t failed e n a h =
          rw (e, after_turn) (IsSilent-close t a, λ w. settled-close_found t w h)
      closes t panicked e n a h =
          rw (e, after_turn) (IsSilent-close t a, λ w. settled-close_found t w h)

      -- Such an event answers nothing, and drops a request that waits.
      pub end_drops :
          (st : State ms pm) (e : Event ms)
          → IsEnd e
          → (pm.pull_msg i st.pending).0 ≡ some m
          → All IsSilent (after_turn ms pm sending queue (Proc.turn ms pm su st e)).effects
            × ((w : ms.Sender → ℕ)
                → w (ms.sender m)
                  ≤ weight
                      (settled ms w)
                      (after_turn ms pm sending queue (Proc.turn ms pm su st e)).effects)
      unfolding Proc.turn on_internal on_shutdown on_accept Drops
      end_drops st (internal shutdown true) k h = closes _ finished refl (λ x. cc) (tt, (tt, tt)) h
      end_drops st (internal shutdown false) k h = closes _ failed refl (λ x. cc) (tt, tt) h
      end_drops st (internal (request r) ok?) k h = closes _ panicked refl (λ x. cc) tt h
      end_drops st (internal command ok?) k h = closes _ panicked refl (λ x. cc) tt h
      end_drops st (internal config ok?) k h = closes _ panicked refl (λ x. cc) tt h
      end_drops st (internal (response r) ok?) k h = absurd k
      end_drops st (internal (error r) ok?) k h = absurd k
      end_drops st (internal (service table) ok?) k h = absurd k
      end_drops st (accept true) k h = absurd k
      end_drops st (accept false) k h = closes _ failed refl (λ x. cc) tt h
      end_drops st (http r j ok?) k h = absurd k
      end_drops st (expire now) k h = absurd k
