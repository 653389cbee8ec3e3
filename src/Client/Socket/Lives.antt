-- ===== src/Client/Socket/Lives.antt =====
-- The lives of a client's socket: opened, run, closed, and opened again by the processor.
use pro_sa_hyper.Common.{
  ◌≡◌, ◌∙◌, refl, ap, String, none, some, List, [], ◌∷◌, Bool, true, false, ◌||◌, ok, arith,
}
use pro_sa_hyper.Prosa.{Messages}
use pro_sa_hyper.Http.{HttpApi}
use pro_sa_hyper.Net.{Net}
use pro_sa_hyper.Client.Socket.{Socket, ClientAdaptor, closed}
use pro_sa_hyper.Client.Socket.Http1
use pro_sa_hyper.Client.Socket.Http2
use pro_sa_hyper.Client.Socket.Http1.Closing.{run-closed as run_http1-closed}
use pro_sa_hyper.Client.Socket.Http2.Closing.{run-closed as run_http2-closed}
use pro_sa_hyper.Client.Socket.Open.{Protocol, http1, http2, Attempt, Opened, spawn}
use pro_sa_hyper.Client.Socket.Open.Laws.{spawn-IsOpened}

module _ {M : Type 0} (ms : Messages M) (ha : HttpApi) (net : Net) (ad : ClientAdaptor ms ha net)
    (Io Bus : Type 0) where
  -- One life of a socket: it is opened, and the loop of its protocol closes it.
  pub data Life (self : Socket net) (name addr : String) (p : Protocol) (s : Socket net)
      : Type 0 where
    life1 :
        (at : Attempt ms ha net ad Io Bus) (o : Opened ms ha net ad Io Bus)
        (es : List (Http1.Event ms ha net ad)) (t : Http1.Turn ms ha net ad)
        → (spawn ms ha net ad Io Bus self name addr at).0 ≡ ok o
        → o.protocol ≡ http1
        → p ≡ http1
        → Http1.run ms ha net ad o.setup none es ≡ some t
        → t.status ≡ closed s
        → Life self name addr p s
    life2 :
        (at : Attempt ms ha net ad Io Bus) (o : Opened ms ha net ad Io Bus)
        (es : List (Http2.Event ms ha net ad)) (t : Http2.Turn ms ha net ad)
        → (spawn ms ha net ad Io Bus self name addr at).0 ≡ ok o
        → o.protocol ≡ http2
        → p ≡ http2
        → Http2.run ms ha net ad o.setup [] es ≡ some t
        → t.status ≡ closed s
        → Life self name addr p s

  -- Lives one after the other, as the processor spawns again each socket that closes; the list has
  -- the protocol of each.
  pub data Lives (name addr : String) : Socket net → List Protocol → Socket net → Type 0 where
    born : {s : Socket net} → Lives name addr s [] s
    again :
        {s t u : Socket net} {p : Protocol} {ps : List Protocol}
        → Life s name addr p t
        → Lives name addr t ps u
        → Lives name addr s (p ∷ ps) u

  abbrev pub is_h2 : Protocol → Bool
  is_h2 http1 = false
  is_h2 http2 = true

  abbrev pub any_h2 : List Protocol → Bool
  any_h2 [] = false
  any_h2 (p ∷ ps) = is_h2 p || any_h2 ps

  -- What stays of a socket, and its mark after a life of the given protocol.
  pub record Follows (s t : Socket net) (marked : Bool) : Type 0 where
    pub target : t.target ≡ s.target
    pub http_timeout : t.http_timeout ≡ s.http_timeout
    pub is_http2 : t.is_http2 ≡ marked

  opened_mark :
      (self : Socket net) (name addr : String) (at : Attempt ms ha net ad Io Bus)
      (o : Opened ms ha net ad Io Bus)
      → (spawn ms ha net ad Io Bus self name addr at).0 ≡ ok o
      → o.setup.socket.is_http2 ≡ (self.is_http2 || is_h2 o.protocol)
  opened_mark self name addr at o h =
      let i = spawn-IsOpened ms ha net ad Io Bus self name addr at o h in
      ground (arith, i.marked_iff.0, i.marked_iff.1)

  Life-Follows :
      {s t : Socket net} {name addr : String} {p : Protocol}
      → Life s name addr p t
      → Follows s t (s.is_http2 || is_h2 p)
  Life-Follows {s} {t} {name} {addr} (life1 at o es u h q e r c) =
      let i = spawn-IsOpened ms ha net ad Io Bus s name addr at o h in
      let same = run_http1-closed ms ha net ad o.setup t none es u r c in
      record {
        target = ap (λ x. x.target) same ∙ i.target;
        http_timeout = ap (λ x. x.http_timeout) same ∙ i.http_timeout;
        is_http2 = ground (arith, ap (λ x. x.is_http2) same, opened_mark s name addr at o h);
      }
  Life-Follows {s} {t} {name} {addr} (life2 at o es u h q e r c) =
      let i = spawn-IsOpened ms ha net ad Io Bus s name addr at o h in
      let same = run_http2-closed ms ha net ad o.setup t [] es u r c in
      record {
        target = ap (λ x. x.target) same ∙ i.target;
        http_timeout = ap (λ x. x.http_timeout) same ∙ i.http_timeout;
        is_http2 = ground (arith, ap (λ x. x.is_http2) same);
      }

  -- Through any lives a socket keeps its target and its timeout, and it is marked as one of HTTP/2
  -- exactly when it was so at first or some life, not only the last, spoke HTTP/2.
  pub Lives-Follows :
      {name addr : String} {s t : Socket net} {ps : List Protocol}
      → Lives name addr s ps t
      → Follows s t (s.is_http2 || any_h2 ps)
  Lives-Follows born = record { target = refl; http_timeout = refl; is_http2 = ground arith }
  Lives-Follows (again l ls) =
      let a = Life-Follows l in
      let b = Lives-Follows ls in
      record {
        target = b.target ∙ a.target;
        http_timeout = b.http_timeout ∙ a.http_timeout;
        is_http2 = ground (arith, a.is_http2, b.is_http2);
      }
