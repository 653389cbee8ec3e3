-- ===== src/Server/Proc/Drain.antt =====
-- The end of the requests that no service answers.
use pro_sa_hyper.Common.{
  ℕ, zero, suc, ◌≤◌, ◌≡◌, refl, inl, inr, String, List, [], ◌∷◌, ◌++◌, All, weight, weight-append,
  weight-perm, millis_u64, Option-cases, Bool-cases, arith,
}
use pro_sa_hyper.Prosa.{Messages, timeout}
use pro_sa_hyper.Prosa.Pending.{PendingMsgs}
use pro_sa_hyper.Server.Proc.{
  Effect, returned, returned_error, sent, dropped, spawned, terminated, removed, Event, expire,
  Setup, State, running, timed_out, on_expire, turn, run,
}
use pro_sa_hyper.Server.Proc.Ledger.{settled, waiting, on_expire-Balanced}

module _ {M : Type 0} (ms : Messages M) (pm : PendingMsgs ms.RequestMsg) (su : Setup ms pm) where
  -- A number of turns at which the pending requests are asked, at one time.
  abbrev pub expiries : ℕ → ℕ → List (Event ms)
  expiries now zero = []
  expiries now (suc n) = expire now ∷ expiries now n

  -- The effect is the error of a timeout, with the configured time.
  abbrev pub IsTimeout : Effect ms → Type 0
  IsTimeout (returned_error r d e) = (s : String) × (e ≡ timeout s (millis_u64 su.service_timeout))
  IsTimeout (returned r d) = ⊥
  IsTimeout (sent svc r) = ⊥
  IsTimeout (dropped r) = ⊥
  IsTimeout spawned = ⊥
  IsTimeout terminated = ⊥
  IsTimeout removed = ⊥

  -- How many requests wait.
  abbrev pub held : pm.Pending → ℕ
  held p = weight (λ e. 1) (pm.entries p)

  All-append :
      (xs ys : List (Effect ms)) → All IsTimeout xs → All IsTimeout ys → All IsTimeout (xs ++ ys)
  All-append [] ys a b = b
  All-append (x ∷ xs) ys a b = (a.0, All-append xs ys a.1 b)

  module _ (late : ℕ) where
    on_expire-held :
        (st : State ms pm) (n : ℕ)
        → pm.deadline st.pending ≤ late
        → held st.pending ≤ suc n
        → held (on_expire ms pm su st late).state.pending ≤ n
    unfolding on_expire
    on_expire-held st n d h = elim (Bool-cases (pm.is_empty st.pending)) [
      | inl e ↦ rw e (rw (pm.entries-is_empty st.pending e) (omega arith))
      | inr e ↦ elim (Option-cases (pm.pull late st.pending).0) [
        | inl f ↦ absurd (pm.pull_late late st.pending e d f)
        | inr (r, f) ↦
            rw e (omega (arith, weight-perm (λ e. 1) (pm.pull_some late st.pending r f).1))
      ]
    ]

    deadline-on_expire :
        (st : State ms pm)
        → pm.deadline st.pending ≤ late
        → pm.deadline (on_expire ms pm su st late).state.pending ≤ late
    unfolding on_expire
    deadline-on_expire st d = elim (Bool-cases (pm.is_empty st.pending)) [
      | inl e ↦ rw e d
      | inr e ↦ rw e (omega (arith, pm.deadline-pull late st.pending))
    ]

    on_expire-All : (st : State ms pm) → All IsTimeout (on_expire ms pm su st late).effects
    unfolding on_expire timed_out
    on_expire-All st = elim (Bool-cases (pm.is_empty st.pending)) [
      | inl e ↦ rw e tt
      | inr e ↦ elim (Option-cases (pm.pull late st.pending).0) [
        | inl f ↦ rw (e, f) tt
        | inr (r, f) ↦ rw (e, f) ((ms.get_service (ms.take_data r).1, refl), tt)
      ]
    ]

    on_expire-status : (st : State ms pm) → (on_expire ms pm su st late).status ≡ running
    unfolding on_expire
    on_expire-status st = ground arith

    run-expire :
        (st : State ms pm) (es : List (Event ms))
        → run ms pm su st (expire late ∷ es) ≡ (
            let t = on_expire ms pm su st late in
            let rest = run ms pm su t.state es in
            record rest { effects = t.effects ++ rest.effects })
    unfolding run turn
    run-expire st es = ground (arith, on_expire-status st)

    -- At a time at which all pending requests have expired, turns that ask for expired ones, as many
    -- as requests wait or more, leave none: each is answered once by the error of a timeout, with the
    -- configured time, nothing else happens, and the loop goes on.
    pub expiries_drain :
        (w : ms.Sender → ℕ) (n : ℕ) (st : State ms pm)
        → pm.deadline st.pending ≤ late
        → held st.pending ≤ n
        → (held (run ms pm su st (expiries late n)).state.pending ≡ 0)
          × (weight (settled ms w) (run ms pm su st (expiries late n)).effects ≡ waiting ms pm w st)
          × All IsTimeout (run ms pm su st (expiries late n)).effects
          × ((run ms pm su st (expiries late n)).status ≡ running)
    unfolding run
    expiries_drain w zero st d h =
        (omega arith, nothing (pm.entries st.pending) (omega arith), tt, refl)
      where
        nothing :
            (xs : List (ℕ × ms.RequestMsg))
            → weight (λ e. 1) xs ≡ 0
            → 0 ≡ weight (λ e. w (ms.sender e.1)) xs
        nothing [] k = refl
        nothing (x ∷ xs) k = absurd (omega arith)
    expiries_drain w (suc n) st d h =
        let t = on_expire ms pm su st late in
        let (none_held, same, all, goes) =
          expiries_drain w n t.state (deadline-on_expire st d) (on_expire-held st n d h) in
        rw (run-expire st (expiries late n)) (
          none_held,
          omega (
            arith,
            weight-append (settled ms w) t.effects (run ms pm su t.state (expiries late n)).effects,
            same,
            on_expire-Balanced ms pm w su st late,
          ),
          All-append t.effects (run ms pm su t.state (expiries late n)).effects (on_expire-All st)
              all,
          goes,
        )
