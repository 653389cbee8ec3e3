-- ===== src/Server/Proc/Identifiers.antt =====
-- The identifiers under which the server's processor waits for answers.
use pro_sa_hyper.Common.{
  ℕ, suc, ◌≤◌, ◌≡◌, inl, inr, none, List, [], ◌∷◌, Bool, true, false, arith, Bool-cases,
  if◌then◌else◌, ◌==◌,
}
use pro_sa_hyper.Prosa.{
  Messages, InternalMsg, request, response, error, command, config, service, shutdown,
}
use pro_sa_hyper.Prosa.Pending.{PendingMsgs}
use pro_sa_hyper.Prosa.Pending.Held.{
  uses, weight-push_with_id, weight-pull_msg, weight-pull-le, pull_msg_unused,
}
use pro_sa_hyper.Server.Proc.{
  Event, internal, http, accept, expire, Setup, State, on_internal, on_response, on_error,
  on_shutdown, reject, forward, on_http, on_http_cases, on_expire, on_accept, turn,
}

-- The first identifier that may be given after an event.
abbrev pub next_id : {M : Type 0} {ms : Messages M} → ℕ → Event ms → ℕ
next_id n (http m i ok?) = suc i
next_id n (internal m ok?) = n
next_id n (accept ok?) = n
next_id n (expire now) = n

-- The counter that gives identifiers never goes back: each is at least `n` and above the earlier.
abbrev pub Ascending : {M : Type 0} {ms : Messages M} → ℕ → List (Event ms) → Type 0
Ascending n [] = Unit {0}
Ascending n (http m i ok? ∷ es) = (n ≤ i) × Ascending (suc i) es
Ascending n (internal m ok? ∷ es) = Ascending n es
Ascending n (accept ok? ∷ es) = Ascending n es
Ascending n (expire now ∷ es) = Ascending n es

module _ {M : Type 0} (ms : Messages M) (pm : PendingMsgs ms.RequestMsg) where
  open pm use {Pending, entries, pull_msg, pull}

  -- Every identifier in use is below `n`, and is used once.
  pub record IsBelow (n : ℕ) (p : Pending) : Type 0 where
    pub unused : (i : ℕ) → n ≤ i → uses pm i p ≡ 0
    pub once : (i : ℕ) → uses pm i p ≤ 1

  IsBelow-le :
      (n n' : ℕ) (p q : Pending)
      → n ≤ n'
      → ((i : ℕ) → uses pm i q ≤ uses pm i p)
      → IsBelow n p
      → IsBelow n' q
  IsBelow-le n n' p q h le b = record {
    unused = λ i k. omega (arith, le i, b.unused i (omega arith));
    once = λ i. omega (arith, le i, b.once i);
  }

  IsBelow-pull_msg : (n i : ℕ) (p : Pending) → IsBelow n p → IsBelow n (pull_msg i p).1
  IsBelow-pull_msg n i p b =
      IsBelow-le n n p _ (omega arith)
        (λ j. omega (arith, weight-pull_msg pm (λ e. if e.0 == j then 1 else 0) i p)) b

  pub IsBelow-fresh : (n i : ℕ) (p : Pending) → IsBelow n p → n ≤ i → (pull_msg i p).0 ≡ none
  IsBelow-fresh n i p b h = pull_msg_unused pm i p (b.unused i h)

  IsBelow-push :
      (n i : ℕ) (m : ms.RequestMsg) (t : ℕ) (p : Pending)
      → n ≤ i
      → IsBelow n p
      → IsBelow (suc i) (pm.push_with_id i m t p)
  IsBelow-push n i m t p h b = record {
    unused = λ j k. ground (
      arith,
      weight-push_with_id pm (λ e. if e.0 == j then 1 else 0) i m t p (IsBelow-fresh n i p b h),
      b.unused j (omega arith),
    );
    once = λ j. ground (
      arith,
      weight-push_with_id pm (λ e. if e.0 == j then 1 else 0) i m t p (IsBelow-fresh n i p b h),
      b.unused i h,
      b.once j,
    );
  }

  module _ (su : Setup ms pm) (st : State ms pm) (n : ℕ) (b : IsBelow n st.pending) where
    on_response-IsBelow : (m : ms.ResponseMsg) → IsBelow n (on_response ms pm st m).state.pending
    unfolding on_response
    on_response-IsBelow m = IsBelow-pull_msg n (ms.response_id m) st.pending b

    on_error-IsBelow : (m : ms.ErrorMsg) → IsBelow n (on_error ms pm st m).state.pending
    unfolding on_error
    on_error-IsBelow m = IsBelow-pull_msg n (ms.error_id m) st.pending b

    on_expire-IsBelow : (now : ℕ) → IsBelow n (on_expire ms pm su st now).state.pending
    unfolding on_expire
    on_expire-IsBelow now = elim (Bool-cases (pm.is_empty st.pending)) [
      | inl e ↦ rw e b
      | inr e ↦
          rw e
            (IsBelow-le n n st.pending _ (omega arith) (λ i. weight-pull-le pm _ now st.pending) b)
    ]

    forward-IsBelow :
        (svc : ms.ProcService) (m : ms.RequestMsg) (d : M) (i : ℕ) (ok? : Bool)
        → n ≤ i
        → IsBelow (suc i) (forward ms pm su st svc m d i ok?).state.pending
    unfolding forward
    forward-IsBelow svc m d i true h =
        rw ms.get_id-new_request (IsBelow-push n i m _ st.pending h b)
    forward-IsBelow svc m d i false h =
        IsBelow-le n (suc i) st.pending _ (omega arith) (λ j. omega arith) b

    reject-IsBelow :
        (m : ms.RequestMsg) (i : ℕ) → n ≤ i → IsBelow (suc i) (reject ms pm st m).state.pending
    unfolding reject
    reject-IsBelow m i h = IsBelow-le n (suc i) st.pending _ (omega arith) (λ j. omega arith) b

    on_http-IsBelow :
        (m : ms.RequestMsg) (i : ℕ) (ok? : Bool)
        → n ≤ i
        → IsBelow (suc i) (on_http ms pm su st m i ok?).state.pending
    on_http-IsBelow m i ok? h =
        on_http_cases ms pm (λ t. IsBelow (suc i) t.state.pending) su st m i ok?
          (λ m' _. reject-IsBelow m' i h) (λ svc d _ _. forward-IsBelow svc _ d i ok? h)

    on_internal-IsBelow :
        (m : InternalMsg ms) (ok? : Bool) → IsBelow n (on_internal ms pm st m ok?).state.pending
    unfolding on_internal on_shutdown
    on_internal-IsBelow (response m) ok? = on_response-IsBelow m
    on_internal-IsBelow (error m) ok? = on_error-IsBelow m
    on_internal-IsBelow shutdown true = b
    on_internal-IsBelow shutdown false = b
    on_internal-IsBelow (request m) ok? = b
    on_internal-IsBelow command ok? = b
    on_internal-IsBelow config ok? = b
    on_internal-IsBelow (service table) ok? = b

    on_accept-IsBelow : (ok? : Bool) → IsBelow n (on_accept ms pm st ok?).state.pending
    unfolding on_accept
    on_accept-IsBelow true = b
    on_accept-IsBelow false = b

    -- A turn uses no identifier but the one that it is given, and none twice.
    pub turn-IsBelow :
        (e : Event ms)
        → Ascending n (e ∷ [])
        → IsBelow (next_id n e) (turn ms pm su st e).state.pending
    unfolding turn
    turn-IsBelow (internal m ok?) a = on_internal-IsBelow m ok?
    turn-IsBelow (http m i ok?) a = on_http-IsBelow m i ok? a.0
    turn-IsBelow (accept ok?) a = on_accept-IsBelow ok?
    turn-IsBelow (expire now) a = on_expire-IsBelow now

  pub Ascending-head :
      (n : ℕ) (e : Event ms) (es : List (Event ms)) → Ascending n (e ∷ es) → Ascending n (e ∷ [])
  Ascending-head n (internal m ok?) es a = tt
  Ascending-head n (http m i ok?) es a = (a.0, tt)
  Ascending-head n (accept ok?) es a = tt
  Ascending-head n (expire now) es a = tt

  pub Ascending-tail :
      (n : ℕ) (e : Event ms) (es : List (Event ms))
      → Ascending n (e ∷ es)
      → Ascending (next_id n e) es
  Ascending-tail n (internal m ok?) es a = a
  Ascending-tail n (http m i ok?) es a = a.1
  Ascending-tail n (accept ok?) es a = a
  Ascending-tail n (expire now) es a = a
