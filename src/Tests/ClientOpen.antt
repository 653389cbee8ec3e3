-- ===== src/Tests/ClientOpen.antt =====
-- The start and the lives of the client's sockets at concrete attempts.
use pro_sa_hyper.Common.{
  ℕ, ◌≡◌, ◌⊎◌, refl, String, Option, none, some, [], ◌∷◌, true, Result, ok, err,
}
use pro_sa_hyper.Http.{HyperProcError, internal_bus}
use pro_sa_hyper.Samples.{sample_messages, sample_http}
use pro_sa_hyper.Samples.Nets.{sample_net, sample_client}
use pro_sa_hyper.Client.Socket.{Socket, queue_added, queue_removed, closed, as_u32}
use pro_sa_hyper.Client.Socket.Http1
use pro_sa_hyper.Client.Socket.Http2
use pro_sa_hyper.Client.Socket.Open.{IoError, Attempt, Opened, http1, http2, spawn}
use pro_sa_hyper.Client.Socket.Open.Laws.{IsOpened, spawn-IsOpened, spawn_failure}
use pro_sa_hyper.Client.Socket.Lives.{Lives, born, again, life1, life2, Follows, Lives-Follows}
use pro_sa_hyper.Tests.ClientSockets.{plain, marked, setup}

-- Attempts that choose the given protocol, and one whose service is not registered.
abbrev pub attempt :
    Option String
    → Result (Unit {0}) ℕ
    → Attempt sample_messages sample_http sample_net sample_client ℕ ℕ
attempt p added = record {
  connect = ok (5, p);
  handshake = some (ok tt);
  add_queue = ok tt;
  add_service = added;
}

abbrev opened1 : Socket sample_net → Opened sample_messages sample_http sample_net sample_client ℕ ℕ
opened1 s = record { protocol = http1; setup = record setup { socket = s } }

abbrev opened2 : Opened sample_messages sample_http sample_net sample_client ℕ ℕ
opened2 = record { protocol = http2; setup = record setup { socket = marked } }

spawn2 :
    (spawn sample_messages sample_http sample_net sample_client ℕ ℕ plain "hyper" "target"
      (attempt (some "h2") (ok tt))).0
    ≡ ok opened2
unfolding spawn
spawn2 = refl

spawn1 :
    (spawn sample_messages sample_http sample_net sample_client ℕ ℕ marked "hyper" "target"
      (attempt none (ok tt))).0
    ≡ ok (opened1 marked)
unfolding spawn
spawn1 = refl

spawn-IsOpened_example :
    IsOpened sample_messages sample_http sample_net sample_client ℕ ℕ plain "hyper" "target"
      (attempt (some "h2") (ok tt))
      opened2
      (spawn sample_messages sample_http sample_net sample_client ℕ ℕ plain "hyper" "target"
        (attempt (some "h2") (ok tt))).1
spawn-IsOpened_example =
    spawn-IsOpened sample_messages sample_http sample_net sample_client ℕ ℕ plain "hyper" "target"
      (attempt (some "h2") (ok tt)) opened2 spawn2

abbrev bus_error : ℕ → HyperProcError (IoError ℕ) ℕ ℕ
bus_error b = internal_bus b

spawn_failed :
    (spawn sample_messages sample_http sample_net sample_client ℕ ℕ plain "hyper" "target"
      (attempt none (err 6))).0
    ≡ err (internal_bus 6)
unfolding spawn
spawn_failed = refl

spawn_failure_example :
    ((spawn sample_messages sample_http sample_net sample_client ℕ ℕ plain "hyper" "target"
        (attempt none (err 6))).1
      ≡ [])
    ⊎ ((fd : ℕ) × (b : ℕ) × ((attempt none (err 6)).add_service ≡ err b)
        × (bus_error 6 ≡ bus_error b)
        × ((spawn sample_messages sample_http sample_net sample_client ℕ ℕ plain "hyper" "target"
              (attempt none (err 6))).1
            ≡ queue_added (as_u32 fd) ∷ []))
spawn_failure_example =
    spawn_failure sample_messages sample_http sample_net sample_client ℕ ℕ plain "hyper" "target"
      (attempt none (err 6)) (bus_error 6) spawn_failed

-- A life over HTTP/2, then one over HTTP/1.1.
closes1 :
    Http1.run sample_messages sample_http sample_net sample_client
      (opened1 marked).setup
      none
      (Http1.Event.lost [] true ∷ [])
    ≡ some (record { state = none; effects = queue_removed 5 ∷ []; status = closed marked })
unfolding Http1.run Http1.turn
closes1 = refl

closes2 :
    Http2.run sample_messages sample_http sample_net sample_client opened2.setup []
      (Http2.Event.lost [] true ∷ [])
    ≡ some (record { state = []; effects = queue_removed 5 ∷ []; status = closed marked })
unfolding Http2.run Http2.turn
closes2 = refl

two-Lives :
    Lives sample_messages sample_http sample_net sample_client ℕ ℕ "hyper" "target" plain
      (http2 ∷ http1 ∷ [])
      marked
two-Lives =
    again
      (life2 (attempt (some "h2") (ok tt)) opened2 (Http2.Event.lost [] true ∷ []) _ spawn2 refl
        refl closes2 refl)
      (again
        (life1 (attempt none (ok tt)) (opened1 marked) (Http1.Event.lost [] true ∷ []) _ spawn1 refl
          refl closes1 refl)
        born)

Lives-Follows_example :
    Follows sample_messages sample_http sample_net sample_client ℕ ℕ plain marked true
Lives-Follows_example =
    Lives-Follows sample_messages sample_http sample_net sample_client ℕ ℕ two-Lives
