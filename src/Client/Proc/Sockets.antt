-- ===== src/Client/Proc/Sockets.antt =====
-- How many sockets the client's processor keeps, and what they are.
use pro_sa_hyper.Common.{
  ℕ, zero, suc, ◌+◌, ◌*◌, ◌≡◌, ◌≢◌, refl, ap, inl, inr, none, some, List, [], ◌∷◌, ◌++◌, true,
  false, ok, err, length, arith, Option-cases,
}
use pro_sa_hyper.Prosa.{Messages, shutdown}
use pro_sa_hyper.Net.{Net, TargetSetting}
use pro_sa_hyper.Client.Proc.{
  Settings, backend_sockets, create_sockets, running, Event, internal, joined, State, Turn, start,
  turn, run, on_internal, on_joined, on_shutdown,
}

length-append : {A : Type 0} (xs ys : List A) → length (xs ++ ys) ≡ length xs + length ys
length-append [] ys = omega arith
length-append (x ∷ xs) ys = omega (arith, length-append xs ys)

module _ (net : Net) where
  length-backend_sockets :
      (t : TargetSetting net) (timeout n : ℕ) → length (backend_sockets net t timeout n) ≡ n
  unfolding backend_sockets
  length-backend_sockets t timeout zero = refl
  length-backend_sockets t timeout (suc n) = ap suc (length-backend_sockets t timeout n)

  -- As many sockets are made for each target as the minimum says.
  pub length-create_sockets :
      (ts : List (TargetSetting net)) (n timeout : ℕ)
      → length (create_sockets net ts n timeout) ≡ length ts * n
  unfolding create_sockets
  length-create_sockets [] n timeout = omega arith
  length-create_sockets (t ∷ ts) n timeout = omega (
    arith,
    length-append (backend_sockets net t timeout n) (create_sockets net ts n timeout),
    length-backend_sockets t timeout n,
    length-create_sockets ts n timeout,
  )

module _ {M : Type 0} (ms : Messages M) (net : Net) (E J : Type 0) where
  -- Whether an event is the end of a socket with an error.
  abbrev pub is_loss : Event ms net E J → ℕ
  is_loss (internal m ok?) = 0
  is_loss (joined (err j)) = 1
  is_loss (joined (ok (ok s))) = 0
  is_loss (joined (ok (err e))) = 1

  pub losses : State ms net E J → List (Event ms net E J) → ℕ
  losses st [] = 0
  losses st (e ∷ es) = elim (turn ms net E J st e) [
    | none ↦ 0
    | some t ↦ is_loss e + elim t.status [ running ↦ losses t.state es | _ ↦ 0 ]
  ]

  turn-live :
      (st : State ms net E J) (e : Event ms net E J) (t : Turn ms net E J)
      → turn ms net E J st e ≡ some t
      → t.state.live + is_loss e ≡ st.live
  unfolding turn on_internal on_joined on_shutdown
  turn-live st (internal shutdown true) t h = ground arith
  turn-live st (internal shutdown false) t h = ground arith
  turn-live st (internal _ ok?) t h = ground arith
  turn-live st (joined (err j)) t h = ground arith
  turn-live st (joined (ok (ok s))) t h = ground arith
  turn-live st (joined (ok (err e))) t h = ground arith

  run-live :
      (st : State ms net E J) (es : List (Event ms net E J)) (t : Turn ms net E J)
      → run ms net E J st es ≡ some t
      → t.state.live + losses st es ≡ st.live
  unfolding run losses
  run-live st [] t h = ground arith
  run-live st (e ∷ es) t h = elim (Option-cases (turn ms net E J st e)) [
    | inl x ↦ ground arith
    | inr (u, x) ↦ elim (Option-cases (run ms net E J u.state es)) [
      | inl y ↦ ground (arith, turn-live st e u x)
      | inr (v, y) ↦ ground (arith, turn-live st e u x, run-live u.state es v y)
    ]
  ]

  start-live :
      (s : Settings net) (st : State ms net E J)
      → s.backends ≢ []
      → (start ms net E J s true true st).state.live ≡ length s.backends * s.min_socket
  unfolding start
  start-live s st h =
      ground (arith, length-create_sockets net s.backends s.min_socket s.http_timeout)

  -- After the start with some backend and any run, the sockets that live and those that ended with an
  -- error are together the minimum for each backend: one that ends with an error is not replaced,
  -- any other is, and no more are ever made.
  pub sockets_accounted :
      (s : Settings net) (st : State ms net E J) (es : List (Event ms net E J))
      (t : Turn ms net E J)
      → s.backends ≢ []
      → run ms net E J (start ms net E J s true true st).state es ≡ some t
      → t.state.live + losses (start ms net E J s true true st).state es
        ≡ length s.backends * s.min_socket
  sockets_accounted s st es t some? h =
      omega (arith, start-live s st some?, run-live (start ms net E J s true true st).state es t h)
