-- ===== src/Client/Task/Account.antt =====
-- The account of the requests that the task of a client socket takes from its queue.
use pro_sa_hyper.Common.{
  ℕ, ◌+◌, ◌≡◌, ◌⊎◌, refl, subst, inl, inr, String, none, some, List, [], ◌∷◌, Result, ok, err,
  arith, weight, Option-cases,
}
use pro_sa_hyper.Prosa.{Messages}
use pro_sa_hyper.Http.{HttpApi}
use pro_sa_hyper.Net.{Net, TargetSetting}
use pro_sa_hyper.Client.Socket
use pro_sa_hyper.Client.Socket.{Socket, ClientAdaptor, Setup, running, closed, failed, panicked}
use pro_sa_hyper.Client.Socket.Weights.{settled}
use pro_sa_hyper.Client.Socket.Http1
use pro_sa_hyper.Client.Socket.Http2
use pro_sa_hyper.Client.Socket.Http1.Ledger.{
  in_flight, taken as taken1, turn-Balanced as turn1-Balanced,
}
use pro_sa_hyper.Client.Socket.Http2.Ledger.{
  in_tasks, taken as taken2, turn-Balanced as turn2-Balanced,
}
use pro_sa_hyper.Client.Socket.Http1.Closing.{GoesOnOrIdle, turn-GoesOnOrIdle}
use pro_sa_hyper.Client.Socket.Open.{Protocol, http1, http2, Attempt, Opened, Failure, spawn}
use pro_sa_hyper.Client.Socket.Open.Laws.{spawn-IsOpened, spawn_failure}
use pro_sa_hyper.Client.Proc.{Settings}
use pro_sa_hyper.Client.Task.{
  Task, opening, open1, open2, over, Orphan, TaskEvent, started, on1, on2, After, opened,
  orphans_of, next1, next2, step,
}

module _ {M : Type 0} (ms : Messages M) (ha : HttpApi) (net : Net) (ad : ClientAdaptor ms ha net)
    (Io Bus : Type 0) (to_string : TargetSetting net → String) (s : Settings net)
    (w : ms.Sender → ℕ) where
  -- The weight of the requests that a task has taken and not yet settled.
  abbrev pub in_task : Task ms ha net ad Io Bus to_string → ℕ
  in_task (opening k) = 0
  in_task (open1 su st) = in_flight ms ha net ad w su st
  in_task (open2 su st) = in_tasks ms ha net ad w su st
  in_task (over r) = 0

  abbrev pub in_orphan : Orphan ms ha net ad Io Bus to_string → ℕ
  in_orphan (su, (m, d)) = w (ms.sender m)

  -- The weight of the requests that a step of a task takes from its queue, or finds there at its end.
  pub step_took : Task ms ha net ad Io Bus to_string → TaskEvent ms ha net ad Io Bus to_string → ℕ
  step_took (open1 su st) (on1 e) = elim (Http1.turn ms ha net ad su st e) [
    | none ↦ 0
    | some t ↦ taken1 ms ha net ad w su e
  ]
  step_took (open2 su st) (on2 e) = elim (Http2.turn ms ha net ad su st e) [
    | none ↦ 0
    | some t ↦ taken2 ms ha net ad w su e
  ]
  step_took (opening k) e = 0
  step_took (open1 su st) (started a) = 0
  step_took (open1 su st) (on2 e) = 0
  step_took (open2 su st) (started a) = 0
  step_took (open2 su st) (on1 e) = 0
  step_took (over r) e = 0

  pub orphans_of-weight :
      (su : Setup ms ha net ad) (st : Http2.State ms ha net ad)
      → weight in_orphan (orphans_of ms ha net ad Io Bus to_string su st)
        ≡ in_tasks ms ha net ad w su st
  unfolding orphans_of
  orphans_of-weight su [] = refl
  orphans_of-weight su ((m, d) ∷ st) = omega (arith, orphans_of-weight su st)

  -- The weight of what a step leaves.
  abbrev pub left : After ms ha net ad Io Bus to_string → ℕ
  left a = weight (settled ms w) a.effects + (in_task a.task + weight in_orphan a.orphans)

  opened-left :
      (r : Result (Opened ms ha net ad Io Bus) (Failure ms ha net ad Io Bus)
        × List (Socket.Effect ms))
      → left (opened ms ha net ad Io Bus to_string r) ≡ weight (settled ms w) r.1
  unfolding opened
  opened-left (err e, es) = omega arith
  opened-left (ok o, es) = by_protocol o.protocol
    where
      by_protocol :
          (p : Protocol)
          → left (elim p as (λ _. After ms ha net ad Io Bus to_string) [
            | http1 ↦ record { task = open1 o.setup none; orphans = []; effects = es }
            | http2 ↦ record { task = open2 o.setup []; orphans = []; effects = es }
          ])
            ≡ weight (settled ms w) es
      by_protocol http1 = omega arith
      by_protocol http2 = omega arith

  Result-cases : {A B : Type 0} (r : Result A B) → ((a : A) × (r ≡ ok a)) ⊎ ((b : B) × (r ≡ err b))
  Result-cases (ok a) = inl (a, refl)
  Result-cases (err b) = inr (b, refl)

  spawn-settles :
      (k : Socket net) (name addr : String) (a : Attempt ms ha net ad Io Bus)
      → weight (settled ms w) (spawn ms ha net ad Io Bus k name addr a).1 ≡ 0
  spawn-settles k name addr a = elim (Result-cases (spawn ms ha net ad Io Bus k name addr a).0) [
    | inl (o, h) ↦ rw (spawn-IsOpened ms ha net ad Io Bus k name addr a o h).registered refl
    | inr (e, h) ↦ elim (spawn_failure ms ha net ad Io Bus k name addr a e h) [
      | inl n ↦ rw n refl
      | inr (fd, b, f, g, n) ↦ rw n refl
    ]
  ]

  next1-left :
      (su : Setup ms ha net ad) (t : Http1.Turn ms ha net ad) (u : Socket.Status net)
      → t.status ≡ u
      → (t.status ≡ running) ⊎ (t.state ≡ none)
      → left (next1 ms ha net ad Io Bus to_string su t)
        ≡ weight (settled ms w) t.effects + in_flight ms ha net ad w su t.state
  unfolding next1
  next1-left su t running e h = rw (e, next1) (omega arith)
  next1-left su t (closed k) e (inr h) = simp (e, next1, h) (omega arith)
  next1-left su t failed e (inr h) = simp (e, next1, h) (omega arith)
  next1-left su t panicked e (inr h) = simp (e, next1, h) (omega arith)
  next1-left su t (closed k) e (inl h) = absurd (ground arith)
  next1-left su t failed e (inl h) = absurd (ground arith)
  next1-left su t panicked e (inl h) = absurd (ground arith)

  next2-left :
      (su : Setup ms ha net ad) (t : Http2.Turn ms ha net ad) (u : Socket.Status net)
      → t.status ≡ u
      → left (next2 ms ha net ad Io Bus to_string su t)
        ≡ weight (settled ms w) t.effects + in_tasks ms ha net ad w su t.state
  unfolding next2
  next2-left su t running e = rw (e, next2) (omega arith)
  next2-left su t (closed k) e = rw (e, next2) (omega (arith, orphans_of-weight su t.state))
  next2-left su t failed e = rw (e, next2) (omega (arith, orphans_of-weight su t.state))
  next2-left su t panicked e = rw (e, next2) (omega (arith, orphans_of-weight su t.state))

  pub step-left :
      (t : Task ms ha net ad Io Bus to_string) (e : TaskEvent ms ha net ad Io Bus to_string)
      → in_task t + step_took t e ≡ left (step ms ha net ad Io Bus to_string s t e)
  unfolding step step_took
  step-left (opening k) (started a) = omega (
    arith,
    opened-left (spawn ms ha net ad Io Bus k s.service_name (to_string k.target) a),
    spawn-settles k s.service_name (to_string k.target) a,
  )
  step-left (open1 su st) (on1 e) = elim (Option-cases (Http1.turn ms ha net ad su st e)) [
    | inl h ↦ rw (h, step, step_took) (omega arith)
    | inr (t, h) ↦
        rw (h, step, step_took)
          (omega (
            arith,
            next1-left su t t.status refl
                (subst (GoesOnOrIdle ms ha net ad su) h (turn-GoesOnOrIdle ms ha net ad su st e)),
            turn1-Balanced ms ha net ad w su st e t h,
          ))
  ]
  step-left (open2 su st) (on2 e) = elim (Option-cases (Http2.turn ms ha net ad su st e)) [
    | inl h ↦ rw (h, step, step_took) (omega arith)
    | inr (t, h) ↦
        rw (h, step, step_took)
          (omega (arith, next2-left su t t.status refl, turn2-Balanced ms ha net ad w su st e t h))
  ]
  step-left (opening k) (on1 e) = omega arith
  step-left (opening k) (on2 e) = omega arith
  step-left (open1 su st) (started a) = omega arith
  step-left (open1 su st) (on2 e) = omega arith
  step-left (open2 su st) (started a) = omega arith
  step-left (open2 su st) (on1 e) = omega arith
  step-left (over r) e = omega arith
