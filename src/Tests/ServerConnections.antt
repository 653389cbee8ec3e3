-- ===== src/Tests/ServerConnections.antt =====
-- The server's connections at concrete events.
use pro_sa_hyper.Common.{ℕ, ◌+◌, ◌≡◌, refl, none, some, List, [], ◌∷◌, false, ok, err, weight}
use pro_sa_hyper.Samples.Nets.{sample_net}
use pro_sa_hyper.Server.Connections.{
  SocketMetric, added, removed, Connection, serving, ended, shaken, served, Event, accepted, at,
  turn, run,
}
use pro_sa_hyper.Server.Connections.Gauge.{adds, removes, serves, run-gauge}

-- Three connections: one over each protocol, and one whose handshake fails. The first ends.
abbrev events : List (Event sample_net ℕ ℕ)
events =
    accepted
    ∷ at 0 (shaken (ok (5, some "h2")))
    ∷ accepted
    ∷ accepted
    ∷ at 1 (shaken (ok (6, none)))
    ∷ at 0 (shaken (err 9))
    ∷ at 2 (served (err 1))
    ∷ []

abbrev last : List Connection
last = ended ∷ serving false ∷ ended ∷ []

abbrev metrics : List SocketMetric
metrics = added "HTTP/2" ∷ added "HTTP/1.1" ∷ removed "HTTP/2" ∷ []

runs : run sample_net ℕ ℕ [] events ≡ some (last, metrics)
unfolding run turn
runs = refl

run-gauge_example :
    0 + weight (adds "HTTP/1.1") metrics
    ≡ weight (removes "HTTP/1.1") metrics + weight (serves "HTTP/1.1") last
run-gauge_example = run-gauge sample_net ℕ ℕ "HTTP/1.1" [] last events metrics runs
