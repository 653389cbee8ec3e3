-- ===== src/Tests/ServerDrain.antt =====
-- The server's processor when no service answers.
use pro_sa_hyper.Common.{ℕ, ◌*◌, ◌≡◌, [], ◌∷◌, All, weight, arith}
use pro_sa_hyper.Samples.{Req, sample_messages}
use pro_sa_hyper.Samples.Pairs.{pairs}
use pro_sa_hyper.Server.Proc.{State, running, run}
use pro_sa_hyper.Server.Proc.Ledger.{settled, waiting}
use pro_sa_hyper.Server.Proc.Drain.{held, expiries, IsTimeout, expiries_drain}
use pro_sa_hyper.Tests.ServerLoop.{table, setup, known, unknown}

abbrev two_wait : State sample_messages (pairs Req)
two_wait = record {
  service = table;
  pending = (10, known, 800_000_000) ∷ (11, unknown, 800_000_000) ∷ [];
}

expiries_drain_example :
    let end =
      run sample_messages
        (pairs Req)
        setup
        two_wait
        (expiries sample_messages (pairs Req) setup 800_000_000 3) in
    (held sample_messages (pairs Req) setup end.state.pending ≡ 0)
    × (weight (settled sample_messages (λ (q : ℕ). q * q)) end.effects
        ≡ waiting sample_messages (pairs Req) (λ (q : ℕ). q * q) two_wait)
    × All (IsTimeout sample_messages (pairs Req) setup) end.effects
    × (end.status ≡ running)
expiries_drain_example =
    expiries_drain sample_messages (pairs Req) setup 800_000_000 (λ (q : ℕ). q * q) 3 two_wait
      (omega arith) (omega arith)
