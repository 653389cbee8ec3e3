-- ===== src/Tests/ClientLoop.antt =====
-- The client's processor at concrete events.
use pro_sa_hyper.Common.{
  ℕ, ◌+◌, ◌≡◌, ◌≢◌, refl, none, some, List, [], ◌∷◌, true, false, ok, err, from_millis,
}
use pro_sa_hyper.Prosa.{shutdown}
use pro_sa_hyper.Net.{TargetSetting}
use pro_sa_hyper.Samples.{sample_messages}
use pro_sa_hyper.Samples.Nets.{sample_net}
use pro_sa_hyper.Client.Socket.{Socket, new}
use pro_sa_hyper.Client.Proc.{
  Settings, Event, internal, joined, State, Turn, start, run, turn, spawned, gauge, terminated,
  removed, finished,
}
use pro_sa_hyper.Client.Proc.Sockets.{losses, sockets_accounted}

abbrev pub target : TargetSetting sample_net
target = record { url = (false, 8080); ssl = none; connect_timeout = 100 }

abbrev pub settings : Settings sample_net
settings = record {
  service_name = "hyper";
  backends = target ∷ target ∷ [];
  min_socket = 2;
  max_socket = 3;
  http_timeout = 5000;
}

abbrev pub before : State sample_messages sample_net ℕ ℕ
before = record { service = λ s. none; live = 0 }

abbrev pub socket : Socket sample_net
socket = record { target = target; is_http2 = false; http_timeout = from_millis 5000 }

-- One socket ends with an error and one closes.
abbrev pub events : List (Event sample_messages sample_net ℕ ℕ)
events = joined (ok (err 1)) ∷ joined (ok (ok socket)) ∷ internal shutdown true ∷ []

abbrev pub ended : Turn sample_messages sample_net ℕ ℕ
ended = record {
  state = record before { live = 3 };
  effects = gauge 3 ∷ spawned socket ∷ gauge 3 ∷ terminated ∷ removed ∷ [];
  status = finished;
}

started :
    (start sample_messages sample_net ℕ ℕ settings true true before).effects
    ≡ spawned socket ∷ spawned socket ∷ spawned socket ∷ spawned socket ∷ gauge 4 ∷ []
unfolding start new
started = refl

pub runs :
    run sample_messages sample_net ℕ ℕ
      (start sample_messages sample_net ℕ ℕ settings true true before).state
      events
    ≡ some ended
unfolding start run turn
runs = refl

some_backend : settings.backends ≢ []
some_backend h = cc

sockets_accounted_example :
    3
      + losses sample_messages sample_net ℕ ℕ
          (start sample_messages sample_net ℕ ℕ settings true true before).state
          events
    ≡ 4
sockets_accounted_example =
    sockets_accounted sample_messages sample_net ℕ ℕ settings before events ended some_backend runs
