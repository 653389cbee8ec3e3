-- ===== src/Server/Connections.antt =====
-- The connections of the server: the task that `HyperServerProc::internal_run` of src/server/proc.rs
-- spawns for each, and its counter of sockets.
pub mod Gauge
use text.Mathlib.Text.{◌==◌ as str_eq}
use pro_sa_hyper.Common.{
  ℕ, zero, suc, String, Option, none, some, List, [], ◌∷◌, ◌++◌, Bool, Result, ok, err,
  if◌then◌else◌,
}
use pro_sa_hyper.Net.{Net, h2}

-- One addition to `prosa_hyper_srv_socket`, of 1 or of -1, with its attribute `version`.
pub data SocketMetric : Type 0 where
  added removed : String → SocketMetric

-- A task that shakes hands, one that serves (over HTTP/2, if so marked), and one that has ended.
pub data Connection : Type 0 where
  shaking : Connection
  serving : Bool → Connection
  ended : Connection

abbrev pub version : Bool → String
version is_http2 = if is_http2 then "HTTP/2" else "HTTP/1.1"

module _ (net : Net) (Handshake Serve : Type 0) where
  -- What a task waits for: the result of the handshake, and that of `serve_connection`.
  pub data Progress : Type 0 where
    shaken : Result net.Stream Handshake → Progress
    served : Result (Unit {0}) Serve → Progress

  on_handshake : Result net.Stream Handshake → Connection × List SocketMetric
  on_handshake (err e) = (ended, [])
  on_handshake (ok stream) =
      let is_http2 = net.selected_alpn_check (λ p. str_eq p h2) stream in
      (serving is_http2, added (version is_http2) ∷ [])

  -- One step of a task; `none` where it does not wait for that.
  unfoldable pub step : Connection → Progress → Option (Connection × List SocketMetric)
  unfolding on_handshake
  step shaking (shaken r) = some (on_handshake r)
  step shaking (served r) = none
  step (serving is_http2) (served r) = some (ended, removed (version is_http2) ∷ [])
  step (serving is_http2) (shaken r) = none
  step ended p = none

  -- A new connection, or a step of the task of the given number, the newest first.
  pub data Event : Type 0 where
    accepted : Event
    at : ℕ → Progress → Event

  step_at : List Connection → ℕ → Progress → Option (List Connection × List SocketMetric)
  unfolding step
  step_at [] n p = none
  step_at (c ∷ cs) zero p = elim (step c p) [ none ↦ none | some (d, es) ↦ some (d ∷ cs, es) ]
  step_at (c ∷ cs) (suc n) p = elim (step_at cs n p) [
    | none ↦ none
    | some (ds, es) ↦ some (c ∷ ds, es)
  ]

  unfoldable pub turn : List Connection → Event → Option (List Connection × List SocketMetric)
  unfolding step_at
  turn cs accepted = some (shaking ∷ cs, [])
  turn cs (at n p) = step_at cs n p

  -- Any interleaving of the tasks.
  unfoldable pub run : List Connection → List Event → Option (List Connection × List SocketMetric)
  run cs [] = some (cs, [])
  run cs (e ∷ es) = elim (turn cs e) [
    | none ↦ none
    | some (ds, ms) ↦ elim (run ds es) [ none ↦ none | some (fs, ns) ↦ some (fs, ms ++ ns) ]
  ]
