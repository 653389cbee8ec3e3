-- ===== src/Client/Proc/Targets.antt =====
-- What the sockets that the client's processor spawns are for.
use pro_sa_hyper.Common.{
  ℕ, zero, suc, ◌≡◌, ◌⊎◌, ◌∙◌, refl, inl, inr, String, Option, none, ◌==◌, Bool-cases, subst,
  length, some, List, [], ◌∷◌, ◌++◌, Bool, true, false, Result, ok, err, All, Option-cases,
}
use pro_sa_hyper.Prosa.{
  Messages, InternalMsg, request, response, error, command, config, service, shutdown,
}
use pro_sa_hyper.Http.{HttpApi}
use pro_sa_hyper.Net.{Net, TargetSetting}
use pro_sa_hyper.Client.Socket.{Socket, ClientAdaptor, new}
use pro_sa_hyper.Client.Socket.Open.{Protocol}
use pro_sa_hyper.Client.Socket.Lives.{Life, again, born, Lives-Follows}
use pro_sa_hyper.Client.Proc.{
  Settings, backend_sockets, create_sockets, Effect, spawned, gauge, terminated, removed, Event,
  internal, joined, State, Turn, Status, running, finished, failed, panicked, spawn_all, halt,
  start, on_internal, on_shutdown, on_joined, turn, run,
}

abbrev pub IsIn : {A : Type 0} → A → List A → Type 0
IsIn x [] = ⊥
IsIn x (y ∷ ys) = (x ≡ y) ⊎ IsIn x ys

module _ (net : Net) where
  -- The socket is for a backend of the settings: it has the target and the timeout of a new socket
  -- for that backend.
  pub record IsBacked (s : Settings net) (k : Socket net) : Type 0 where
    pub backend : TargetSetting net
    pub configured : IsIn backend s.backends
    pub target : k.target ≡ (new net backend s.http_timeout).target
    pub http_timeout : k.http_timeout ≡ (new net backend s.http_timeout).http_timeout

  -- Every socket that an effect spawns is backed.
  abbrev pub SpawnsBacked : Settings net → Effect net → Type 0
  SpawnsBacked s (spawned k) = IsBacked s k
  SpawnsBacked s (gauge n) = Unit {0}
  SpawnsBacked s terminated = Unit {0}
  SpawnsBacked s removed = Unit {0}

  pub All-append :
      {A : Type 0} (P : A → Type 0) (xs ys : List A) → All P xs → All P ys → All P (xs ++ ys)
  All-append P [] ys a b = b
  All-append P (x ∷ xs) ys a b = (a.0, All-append P xs ys a.1 b)

  backend_sockets-IsBacked :
      (s : Settings net) (t : TargetSetting net) (n : ℕ)
      → IsIn t s.backends
      → All (IsBacked s) (backend_sockets net t s.http_timeout n)
  unfolding backend_sockets
  backend_sockets-IsBacked s t zero h = tt
  backend_sockets-IsBacked s t (suc n) h = (
    record { backend = t; configured = h; target = refl; http_timeout = refl },
    backend_sockets-IsBacked s t n h,
  )

  pub create_sockets-IsBacked :
      (s : Settings net) (ts : List (TargetSetting net)) (n : ℕ)
      → ((t : TargetSetting net) → IsIn t ts → IsIn t s.backends)
      → All (IsBacked s) (create_sockets net ts n s.http_timeout)
  unfolding create_sockets
  create_sockets-IsBacked s [] n h = tt
  create_sockets-IsBacked s (t ∷ ts) n h =
      All-append (IsBacked s) (backend_sockets net t s.http_timeout n)
        (create_sockets net ts n s.http_timeout) (backend_sockets-IsBacked s t n (h t (inl refl)))
        (create_sockets-IsBacked s ts n (λ u k. h u (inr k)))

module _ {M : Type 0} (ms : Messages M) (ha : HttpApi) (net : Net) (ad : ClientAdaptor ms ha net)
    (Io Bus E J : Type 0) (s : Settings net) where
  -- A socket that a task gives back closed after a life that began as a backed socket.
  abbrev pub ComesBack : Event ms net E J → Type 0
  ComesBack (internal m ok?) = Unit {0}
  ComesBack (joined (err j)) = Unit {0}
  ComesBack (joined (ok (err e))) = Unit {0}
  ComesBack (joined (ok (ok k))) =
      (o : Socket net) × (addr : String) × (p : Protocol) × IsBacked net s o
      × Life ms ha net ad Io Bus o s.service_name addr p k

  closed-IsBacked :
      (o k : Socket net) (addr : String) (p : Protocol)
      → IsBacked net s o
      → Life ms ha net ad Io Bus o s.service_name addr p k
      → IsBacked net s k
  closed-IsBacked o k addr p b l =
      let f = Lives-Follows ms ha net ad Io Bus (again l born) in
      record {
        backend = b.backend;
        configured = b.configured;
        target = f.target ∙ b.target;
        http_timeout = f.http_timeout ∙ b.http_timeout;
      }

  abbrev AllBacked : Option (Turn ms net E J) → Type 0
  AllBacked none = Unit {0}
  AllBacked (some t) = All (SpawnsBacked net s) t.effects

  on_joined-AllBacked :
      (st : State ms net E J) (r : Result (Result (Socket net) E) J)
      → ComesBack (joined r)
      → AllBacked (some (on_joined ms net E J st r))
  unfolding on_joined
  on_joined-AllBacked st (err j) c = tt
  on_joined-AllBacked st (ok (err e)) c = (tt, tt)
  on_joined-AllBacked st (ok (ok k)) (o, addr, p, b, l) = (closed-IsBacked o k addr p b l, (tt, tt))

  on_internal-AllBacked :
      (st : State ms net E J) (m : InternalMsg ms) (ok? : Bool)
      → AllBacked (some (on_internal ms net E J st m ok?))
  unfolding on_internal on_shutdown
  on_internal-AllBacked st shutdown true = (tt, (tt, tt))
  on_internal-AllBacked st shutdown false = (tt, tt)
  on_internal-AllBacked st (request m) ok? = tt
  on_internal-AllBacked st (response m) ok? = tt
  on_internal-AllBacked st (error m) ok? = tt
  on_internal-AllBacked st command ok? = tt
  on_internal-AllBacked st config ok? = tt
  on_internal-AllBacked st (service table) ok? = tt

  turn-AllBacked :
      (st : State ms net E J) (e : Event ms net E J)
      → ComesBack e
      → AllBacked (turn ms net E J st e)
  unfolding turn
  turn-AllBacked st (internal m ok?) c = on_internal-AllBacked st m ok?
  turn-AllBacked st (joined r) c = elim (Bool-cases (st.live == 0)) [
    | inl h ↦ rw h tt
    | inr h ↦ rw h (on_joined-AllBacked st r c)
  ]

  -- What a run makes of its first turn and of the rest.
  goes_on :
      (u : Turn ms net E J) (status : Status) (rest : Option (Turn ms net E J))
      → All (SpawnsBacked net s) u.effects
      → AllBacked rest
      → AllBacked (elim status [
        | running ↦ elim rest [
          | none ↦ none
          | some v ↦ some (record v { effects = u.effects ++ v.effects })
        ]
        | other ↦ some u
      ])
  goes_on u running none a b = tt
  goes_on u running (some v) a b = All-append net (SpawnsBacked net s) u.effects v.effects a b
  goes_on u finished rest a b = a
  goes_on u failed rest a b = a
  goes_on u panicked rest a b = a

  run-AllBacked :
      (st : State ms net E J) (es : List (Event ms net E J))
      → All ComesBack es
      → AllBacked (run ms net E J st es)
  unfolding run
  run-AllBacked st [] c = tt
  run-AllBacked st (e ∷ es) c = elim (Option-cases (turn ms net E J st e)) [
    | inl x ↦ rw (x, AllBacked) tt
    | inr (u, x) ↦
        rw (x, AllBacked)
          (goes_on u u.status (run ms net E J u.state es)
            (subst AllBacked x (turn-AllBacked st e c.0)) (run-AllBacked u.state es c.1))
  ]

  spawn_all-SpawnsBacked :
      (ks : List (Socket net)) (n : ℕ)
      → All (IsBacked net s) ks
      → All (SpawnsBacked net s) (spawn_all ms net E J ks ++ gauge n ∷ [])
  unfolding spawn_all
  spawn_all-SpawnsBacked [] n a = (tt, tt)
  spawn_all-SpawnsBacked (k ∷ ks) n a = (a.0, spawn_all-SpawnsBacked ks n a.1)

  -- What the start makes of the case of some backend.
  started :
      (ts : List (TargetSetting net)) (st : State ms net E J) (u : Turn ms net E J)
      → All (SpawnsBacked net s) u.effects
      → AllBacked (some (elim ts [ [] ↦ halt ms net E J st [] failed | t ∷ us ↦ u ]))
  started [] st u a = tt
  started (t ∷ us) st u a = a

  start-SpawnsBacked :
      (adapted? added? : Bool) (st : State ms net E J)
      → All (SpawnsBacked net s) (start ms net E J s adapted? added? st).effects
  unfolding start
  start-SpawnsBacked false added? st = tt
  start-SpawnsBacked true false st = tt
  start-SpawnsBacked true true st =
      let ks = create_sockets net s.backends s.min_socket s.http_timeout in
      started s.backends st _ (
        spawn_all-SpawnsBacked ks (length ks)
          (create_sockets-IsBacked net s s.backends s.min_socket (λ t h. h)))

  -- Every socket that the processor spawns, at the start or again, is for a backend of its settings,
  -- with the target and the timeout that a new socket for it has, provided that each socket that is
  -- joined is what a life that began as such a socket closed as.
  pub spawns_backed :
      (adapted? added? : Bool) (st : State ms net E J) (es : List (Event ms net E J))
      (t : Turn ms net E J)
      → All ComesBack es
      → run ms net E J (start ms net E J s adapted? added? st).state es ≡ some t
      → All (SpawnsBacked net s) (start ms net E J s adapted? added? st).effects
        × All (SpawnsBacked net s) t.effects
  spawns_backed adapted? added? st es t c h = (
    start-SpawnsBacked adapted? added? st,
    subst AllBacked h (run-AllBacked (start ms net E J s adapted? added? st).state es c),
  )
