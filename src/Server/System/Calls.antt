-- ===== src/Server/System/Calls.antt =====
-- Every call of the server's service ends.
use pro_sa_hyper.Common.{
  pick, Option, none, some, ℕ, ◌+◌, ◌≡◌, ◌≢◌, ◌⊎◌, inl, inr, refl, List, [], ◌∷◌, Bool, arith,
  weight, weight-append,
}
use pro_sa_hyper.Prosa.{Messages}
use pro_sa_hyper.Prosa.Pending.{PendingMsgs}
use pro_sa_hyper.Server.Proc
use pro_sa_hyper.Server.Proc.{Status, running, finished, failed, panicked, Setup}
use pro_sa_hyper.Server.Proc.Identifiers.{IsBelow}
use pro_sa_hyper.Server.Proc.Ledger.{settled}
use pro_sa_hyper.Server.System.Identifiers.{
  closed_turn-same, next_id, Ascending, turn-IsBelow_system,
}
use pro_sa_hyper.Server.System.Account.{outstanding, calls, close-empty, turn-Balanced_system}
use pro_sa_hyper.Server.System.{
  Event, called, admitted, taken, internal, accept, expire, System, after_turn, admit, take,
  open_turn, turn, run,
}

module _ {M : Type 0} (ms : Messages M) where
  pub Ascending-head :
      (n : ℕ) (e : Event ms) (es : List (Event ms)) → Ascending n (e ∷ es) → Ascending n (e ∷ [])
  Ascending-head n (taken k i ok?) es a = (a.0, tt)
  Ascending-head n (called m) es a = tt
  Ascending-head n (admitted k) es a = tt
  Ascending-head n (internal m ok?) es a = tt
  Ascending-head n (accept ok?) es a = tt
  Ascending-head n (expire now) es a = tt

  pub Ascending-tail :
      (n : ℕ) (e : Event ms) (es : List (Event ms))
      → Ascending n (e ∷ es)
      → Ascending (next_id n e) es
  Ascending-tail n (taken k i ok?) es a = a.1
  Ascending-tail n (called m) es a = a
  Ascending-tail n (admitted k) es a = a
  Ascending-tail n (internal m ok?) es a = a
  Ascending-tail n (accept ok?) es a = a
  Ascending-tail n (expire now) es a = a

module _ {M : Type 0} (ms : Messages M) (pm : PendingMsgs ms.RequestMsg) (su : Setup ms pm)
    (w : ms.Sender → ℕ) where
  -- Over any run of calls, queue and processor, the calls without an answer at the start and those
  -- made are together those answered, or told by a closed channel that there is no answer, and those
  -- without an answer at the end, each as often: the equation holds for every weight of their
  -- senders. It supposes that identifiers in use are below `n` and that new ones ascend.
  pub calls_balanced :
      (sys : System ms pm) (n : ℕ) (es : List (Event ms))
      → IsBelow ms pm n sys.proc.pending
      → Ascending n es
      → outstanding ms pm su w sys + weight (calls ms pm su w) es
        ≡ weight (settled ms w) (run ms pm su sys es).effects
          + outstanding ms pm su w (run ms pm su sys es).state
  unfolding run
  calls_balanced sys n [] b a = omega arith
  calls_balanced sys n (e ∷ es) b a =
      let first = Ascending-head ms n e es a in
      let next = turn ms pm su sys e in
      omega (
        arith,
        turn-Balanced_system ms pm su w sys n b e sys.status refl first,
        calls_balanced next.state (next_id n e) es
            (turn-IsBelow_system ms pm su sys n b e sys.status refl first)
            (Ascending-tail ms n e es a),
        weight-append (settled ms w) next.effects (run ms pm su next.state es).effects,
      )

  -- A system whose loop has ended has no call without an answer.
  abbrev pub IsOver : System ms pm → Type 0
  IsOver sys = (sys.status ≡ running) ⊎ (outstanding ms pm su w sys ≡ 0)

  after_turn-IsOver :
      (sending queue : List ms.RequestMsg) (t : Proc.Turn ms pm) (s : Status)
      → t.status ≡ s
      → IsOver (after_turn ms pm sending queue t).state
  unfolding after_turn
  after_turn-IsOver sending queue t running e = rw (e, after_turn) (inl refl)
  after_turn-IsOver sending queue t finished e =
      rw (e, after_turn) (inr (close-empty ms pm su w sending queue t))
  after_turn-IsOver sending queue t failed e =
      rw (e, after_turn) (inr (close-empty ms pm su w sending queue t))
  after_turn-IsOver sending queue t panicked e =
      rw (e, after_turn) (inr (close-empty ms pm su w sending queue t))

  admit-running :
      (sys : System ms pm) (q : Option (ms.RequestMsg × List ms.RequestMsg))
      → sys.status ≡ running
      → (admit ms pm sys q).state.status ≡ running
  unfolding admit
  admit-running sys none h = h
  admit-running sys (some (m, rest)) h = h

  take-IsOver :
      (sys : System ms pm) (q : Option (ms.RequestMsg × List ms.RequestMsg)) (i : ℕ) (ok? : Bool)
      → sys.status ≡ running
      → IsOver (take ms pm su sys q i ok?).state
  unfolding take
  take-IsOver sys none i ok? h = inl h
  take-IsOver sys (some (m, rest)) i ok? h = after_turn-IsOver sys.sending rest _ _ refl

  open_turn-IsOver :
      (sys : System ms pm) (e : Event ms)
      → sys.status ≡ running
      → IsOver (open_turn ms pm su sys e).state
  unfolding open_turn
  open_turn-IsOver sys (called m) h = inl h
  open_turn-IsOver sys (admitted k) h = inl (admit-running sys (pick k sys.sending) h)
  open_turn-IsOver sys (taken k i ok?) h = take-IsOver sys (pick k sys.queue) i ok? h
  open_turn-IsOver sys (internal m ok?) h = after_turn-IsOver sys.sending sys.queue _ _ refl
  open_turn-IsOver sys (accept ok?) h = after_turn-IsOver sys.sending sys.queue _ _ refl
  open_turn-IsOver sys (expire now) h = after_turn-IsOver sys.sending sys.queue _ _ refl

  turn-IsOver :
      (sys : System ms pm) (e : Event ms) (s : Status)
      → sys.status ≡ s
      → IsOver sys
      → IsOver (turn ms pm su sys e).state
  unfolding turn
  turn-IsOver sys e running h o = rw (h, turn) (open_turn-IsOver sys e h)
  turn-IsOver sys e finished h o = rw (h, turn, closed_turn-same ms pm sys e) o
  turn-IsOver sys e failed h o = rw (h, turn, closed_turn-same ms pm sys e) o
  turn-IsOver sys e panicked h o = rw (h, turn, closed_turn-same ms pm sys e) o

  run-IsOver :
      (sys : System ms pm) (es : List (Event ms)) → IsOver sys → IsOver (run ms pm su sys es).state
  unfolding run
  run-IsOver sys [] o = o
  run-IsOver sys (e ∷ es) o =
      run-IsOver (turn ms pm su sys e).state es (turn-IsOver sys e sys.status refl o)

  none_left :
      (sys : System ms pm) → sys.status ≢ running → IsOver sys → outstanding ms pm su w sys ≡ 0
  none_left sys h (inl e) = absurd (h e)
  none_left sys h (inr e) = e

  -- At the end every call is settled, if it was at the start or the loop runs there.
  pub ended_calls-settled :
      (sys : System ms pm) (n : ℕ) (es : List (Event ms))
      → IsOver sys
      → IsBelow ms pm n sys.proc.pending
      → Ascending n es
      → (run ms pm su sys es).state.status ≢ running
      → weight (settled ms w) (run ms pm su sys es).effects
        ≡ outstanding ms pm su w sys + weight (calls ms pm su w) es
  ended_calls-settled sys n es start b a ended = omega (
    arith,
    calls_balanced sys n es b a,
    none_left (run ms pm su sys es).state ended (run-IsOver sys es start),
  )
