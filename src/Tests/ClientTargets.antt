-- ===== src/Tests/ClientTargets.antt =====
-- The sockets that the client's processor spawns in a concrete run.
use pro_sa_hyper.Common.{ℕ, ◌≡◌, refl, inl, none, some, [], ◌∷◌, true, ok, All}
use pro_sa_hyper.Samples.{sample_messages, sample_http}
use pro_sa_hyper.Samples.Nets.{sample_net, sample_client}
use pro_sa_hyper.Client.Socket.{new, closed, queue_removed}
use pro_sa_hyper.Client.Socket.Http1
use pro_sa_hyper.Client.Socket.Open.{Opened, http1, spawn}
use pro_sa_hyper.Client.Socket.Lives.{Life, life1}
use pro_sa_hyper.Client.Proc.Targets.{IsBacked, ComesBack}
use pro_sa_hyper.Tests.ClientOpen.{attempt}
use pro_sa_hyper.Tests.ClientLoop.{target, settings, socket, events}

socket-IsBacked : IsBacked sample_net settings socket
unfolding new
socket-IsBacked = record {
  backend = target;
  configured = inl refl;
  target = refl;
  http_timeout = refl;
}

abbrev opened : Opened sample_messages sample_http sample_net sample_client ℕ ℕ
opened = record {
  protocol = http1;
  setup = record { socket = socket; fd = 5; service_name = "hyper" };
}

opens :
    (spawn sample_messages sample_http sample_net sample_client ℕ ℕ socket "hyper" "target"
      (attempt none (ok tt))).0
    ≡ ok opened
unfolding spawn
opens = refl

closes :
    Http1.run sample_messages sample_http sample_net sample_client opened.setup none
      (Http1.Event.lost [] true ∷ [])
    ≡ some (record { state = none; effects = queue_removed 5 ∷ []; status = closed socket })
unfolding Http1.run Http1.turn
closes = refl

socket-Life :
    Life sample_messages sample_http sample_net sample_client ℕ ℕ socket "hyper" "target" http1
      socket
socket-Life =
    life1 (attempt none (ok tt)) opened (Http1.Event.lost [] true ∷ []) _ opens refl refl closes
      refl

events-ComesBack :
    All (ComesBack sample_messages sample_http sample_net sample_client ℕ ℕ ℕ ℕ settings) events
events-ComesBack = (tt, ((socket, "target", http1, socket-IsBacked, socket-Life), (tt, tt)))
