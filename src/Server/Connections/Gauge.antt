-- ===== src/Server/Connections/Gauge.antt =====
-- What the server's counter of sockets shows.
use text.Mathlib.Text.{◌==◌ as str_eq}
use pro_sa_hyper.Common.{
  ℕ, zero, suc, ◌+◌, ◌≡◌, ◌↔◌, refl, inl, inr, String, some, List, [], ◌∷◌, Bool, true, ok, err,
  if◌then◌else◌, weight, weight-append, Option-cases, arith,
}
use pro_sa_hyper.Net.{Net, h2}
use pro_sa_hyper.Net.Alpn.{alpn_iff}
use pro_sa_hyper.Server.Connections.{
  SocketMetric, added, removed, Connection, shaking, serving, ended, version, Progress, shaken,
  served, on_handshake, step, Event, accepted, at, step_at, turn, run,
}

module _ (v : String) where
  -- How often a metric adds or takes away one of the version.
  abbrev pub adds : SocketMetric → ℕ
  adds (added u) = if str_eq u v then 1 else 0
  adds (removed u) = 0

  abbrev pub removes : SocketMetric → ℕ
  removes (added u) = 0
  removes (removed u) = if str_eq u v then 1 else 0

  -- Whether a connection is served over the version.
  abbrev pub serves : Connection → ℕ
  serves shaking = 0
  serves (serving is_http2) = if str_eq (version is_http2) v then 1 else 0
  serves ended = 0

module _ (net : Net) (Handshake Serve : Type 0) (v : String) where
  step-gauge :
      (c d : Connection) (p : Progress net Handshake Serve) (ms : List SocketMetric)
      → step net Handshake Serve c p ≡ some (d, ms)
      → serves v c + weight (adds v) ms ≡ weight (removes v) ms + serves v d
  unfolding step on_handshake
  step-gauge shaking d (shaken (ok s)) ms h = ground arith
  step-gauge shaking d (shaken (err e)) ms h = ground arith
  step-gauge shaking d (served r) ms h = cc
  step-gauge (serving is_http2) d (served r) ms h = ground arith
  step-gauge (serving is_http2) d (shaken r) ms h = cc
  step-gauge ended d p ms h = cc

  step_at-gauge :
      (cs ds : List Connection) (n : ℕ) (p : Progress net Handshake Serve) (ms : List SocketMetric)
      → step_at net Handshake Serve cs n p ≡ some (ds, ms)
      → weight (serves v) cs + weight (adds v) ms ≡ weight (removes v) ms + weight (serves v) ds
  unfolding step_at
  step_at-gauge [] ds n p ms h = cc
  step_at-gauge (c ∷ cs) ds zero p ms h = elim (Option-cases (step net Handshake Serve c p)) [
    | inl e ↦ ground arith
    | inr ((d, ns), e) ↦ ground (arith, step-gauge c d p ns e)
  ]
  step_at-gauge (c ∷ cs) ds (suc n) p ms h =
      elim (Option-cases (step_at net Handshake Serve cs n p)) [
        | inl e ↦ ground arith
        | inr ((fs, ns), e) ↦ ground (arith, step_at-gauge cs fs n p ns e)
      ]

  turn-gauge :
      (cs ds : List Connection) (e : Event net Handshake Serve) (ms : List SocketMetric)
      → turn net Handshake Serve cs e ≡ some (ds, ms)
      → weight (serves v) cs + weight (adds v) ms ≡ weight (removes v) ms + weight (serves v) ds
  unfolding turn
  turn-gauge cs ds accepted ms h = ground arith
  turn-gauge cs ds (at n p) ms h = step_at-gauge cs ds n p ms h

  -- From some connections and through any interleaving of their tasks and of new ones, the counter
  -- of a version changes by the change in the number of connections served over it: what is added
  -- and the number at first are together what is taken away and the number at the end.
  pub run-gauge :
      (cs ds : List Connection) (es : List (Event net Handshake Serve)) (ms : List SocketMetric)
      → run net Handshake Serve cs es ≡ some (ds, ms)
      → weight (serves v) cs + weight (adds v) ms ≡ weight (removes v) ms + weight (serves v) ds
  unfolding run
  run-gauge cs ds [] ms h = ground arith
  run-gauge cs ds (e ∷ es) ms h = elim (Option-cases (turn net Handshake Serve cs e)) [
    | inl x ↦ ground arith
    | inr ((fs, ns), x) ↦ elim (Option-cases (run net Handshake Serve fs es)) [
      | inl y ↦ ground arith
      | inr ((gs, os), y) ↦ ground (
        arith,
        turn-gauge cs fs e ns x,
        run-gauge fs gs es os y,
        weight-append (adds v) ns os,
        weight-append (removes v) ns os,
      )
    ]
  ]

-- After its handshake a connection is served over HTTP/2 exactly when the protocol that was chosen
-- is `h2`, and it is added to the counter once, under the version it is served over.
handshake_protocol :
    (net : Net) (Handshake Serve : Type 0) (stream : net.Stream)
    → (is_http2 : Bool) × (step net Handshake Serve shaking (shaken (ok stream))
        ≡ some (serving is_http2, added (version is_http2) ∷ []))
      × ((is_http2 ≡ true) ↔ (net.selected_alpn stream ≡ some h2))
unfolding step on_handshake
handshake_protocol net Handshake Serve stream =
    (net.selected_alpn_check (λ p. str_eq p h2) stream, refl, alpn_iff net stream)
