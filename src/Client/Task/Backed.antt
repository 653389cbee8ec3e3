-- ===== src/Client/Task/Backed.antt =====
-- What the task of a client socket is for.
use pro_sa_hyper.Common.{
  ◌≡◌, ◌∙◌, refl, sym, subst, inl, inr, String, none, List, [], true, Result, ok, err, Option-cases,
}
use pro_sa_hyper.Prosa.{Messages}
use pro_sa_hyper.Http.{HttpApi}
use pro_sa_hyper.Net.{Net, TargetSetting}
use pro_sa_hyper.Client.Socket
use pro_sa_hyper.Client.Socket.{Socket, ClientAdaptor, Setup, running, closed, failed, panicked}
use pro_sa_hyper.Client.Socket.Http1
use pro_sa_hyper.Client.Socket.Http2
use pro_sa_hyper.Client.Socket.Http1.Closing.{turn-closed as turn1-closed}
use pro_sa_hyper.Client.Socket.Http2.Closing.{turn-closed as turn2-closed}
use pro_sa_hyper.Client.Socket.Open.{Protocol, http1, http2, Opened, Failure}
use pro_sa_hyper.Client.Socket.Open.Laws.{spawn-IsOpened}
use pro_sa_hyper.Client.Proc.{Settings}
use pro_sa_hyper.Client.Proc.Targets.{IsBacked}
use pro_sa_hyper.Client.Task.{
  Task, opening, open1, open2, over, TaskEvent, started, on1, on2, After, opened, next1, next2,
  step,
}

module _ {M : Type 0} (ms : Messages M) (ha : HttpApi) (net : Net) (ad : ClientAdaptor ms ha net)
    (Io Bus : Type 0) (to_string : TargetSetting net → String) (s : Settings net) where
  -- The socket of a task, or the one that it ended as, is for a backend of the settings.
  abbrev pub IsTaskBacked : Task ms ha net ad Io Bus to_string → Type 0
  IsTaskBacked (opening k) = IsBacked net s k
  IsTaskBacked (open1 su st) = IsBacked net s su.socket
  IsTaskBacked (open2 su st) = IsBacked net s su.socket
  IsTaskBacked (over (ok (ok k))) = IsBacked net s k
  IsTaskBacked (over (ok (err e))) = Unit {0}
  IsTaskBacked (over (err j)) = Unit {0}

  opened-IsTaskBacked :
      (r : Result (Opened ms ha net ad Io Bus) (Failure ms ha net ad Io Bus)
        × List (Socket.Effect ms))
      → ((o : Opened ms ha net ad Io Bus) → r.0 ≡ ok o → IsBacked net s o.setup.socket)
      → IsTaskBacked (opened ms ha net ad Io Bus to_string r).task
  unfolding opened
  opened-IsTaskBacked (err e, es) h = tt
  opened-IsTaskBacked (ok o, es) h = by_protocol o.protocol
    where
      by_protocol :
          (p : Protocol)
          → IsTaskBacked
              (elim p as (λ _. After ms ha net ad Io Bus to_string) [
                | http1 ↦ record { task = open1 o.setup none; orphans = []; effects = es }
                | http2 ↦ record { task = open2 o.setup []; orphans = []; effects = es }
              ]).task
      by_protocol http1 = h o refl
      by_protocol http2 = h o refl

  next1-IsTaskBacked :
      (su : Setup ms ha net ad) (t : Http1.Turn ms ha net ad) (u : Socket.Status net)
      → t.status ≡ u
      → IsBacked net s su.socket
      → ((k : Socket net) → t.status ≡ closed k → k ≡ su.socket)
      → IsTaskBacked (next1 ms ha net ad Io Bus to_string su t).task
  unfolding next1
  next1-IsTaskBacked su t running e b h = rw (e, next1) b
  next1-IsTaskBacked su t (closed k) e b h =
      rw (e, next1) (subst (λ x. IsBacked net s x) (sym (h k e)) b)
  next1-IsTaskBacked su t failed e b h = rw (e, next1) tt
  next1-IsTaskBacked su t panicked e b h = rw (e, next1) tt

  next2-IsTaskBacked :
      (su : Setup ms ha net ad) (t : Http2.Turn ms ha net ad) (u : Socket.Status net)
      → t.status ≡ u
      → IsBacked net s su.socket
      → ((k : Socket net) → t.status ≡ closed k → k ≡ record su.socket { is_http2 = true })
      → IsTaskBacked (next2 ms ha net ad Io Bus to_string su t).task
  unfolding next2
  next2-IsTaskBacked su t running e b h = rw (e, next2) b
  next2-IsTaskBacked su t (closed k) e b h =
      rw (e, next2)
        (subst (λ x. IsBacked net s x) (sym (h k e))
          (record {
            backend = b.backend;
            configured = b.configured;
            target = b.target;
            http_timeout = b.http_timeout;
          }))
  next2-IsTaskBacked su t failed e b h = rw (e, next2) tt
  next2-IsTaskBacked su t panicked e b h = rw (e, next2) tt

  -- A step of a task keeps it.
  pub step-IsTaskBacked :
      (t : Task ms ha net ad Io Bus to_string) (e : TaskEvent ms ha net ad Io Bus to_string)
      → IsTaskBacked t
      → IsTaskBacked (step ms ha net ad Io Bus to_string s t e).task
  unfolding step
  step-IsTaskBacked (opening k) (started a) b = opened-IsTaskBacked _ λ o h.
      let i = spawn-IsOpened ms ha net ad Io Bus k s.service_name (to_string k.target) a o h in
      record {
        backend = b.backend;
        configured = b.configured;
        target = i.target ∙ b.target;
        http_timeout = i.http_timeout ∙ b.http_timeout;
      }
  step-IsTaskBacked (open1 su st) (on1 e) b =
      elim (Option-cases (Http1.turn ms ha net ad su st e)) [
        | inl h ↦ rw (h, step) b
        | inr (t, h) ↦
            rw (h, step)
              (next1-IsTaskBacked su t _ refl b (λ k c. turn1-closed ms ha net ad su k st e t h c))
      ]
  step-IsTaskBacked (open2 su st) (on2 e) b =
      elim (Option-cases (Http2.turn ms ha net ad su st e)) [
        | inl h ↦ rw (h, step) b
        | inr (t, h) ↦
            rw (h, step)
              (next2-IsTaskBacked su t _ refl b (λ k c. turn2-closed ms ha net ad su k st e t h c))
      ]
  step-IsTaskBacked (opening k) (on1 e) b = b
  step-IsTaskBacked (opening k) (on2 e) b = b
  step-IsTaskBacked (open1 su st) (started a) b = b
  step-IsTaskBacked (open1 su st) (on2 e) b = b
  step-IsTaskBacked (open2 su st) (started a) b = b
  step-IsTaskBacked (open2 su st) (on1 e) b = b
  step-IsTaskBacked (over r) e b = b
