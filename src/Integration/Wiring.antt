-- ===== src/Integration/Wiring.antt =====
-- The settings of the integration tests, `HttpTestSettings` of src/tests.rs.
use text.Mathlib.TextEquality.{eq_iff}
use pro_sa_hyper.Common.{
  ◌⊎◌, ℕ, ◌≡◌, ◌↔◌, ◌∙◌, sym, refl, ap, String, Option, none, some, List, [], ◌∷◌, ok, arith,
  from_millis, Option-cases, inl, inr,
}
use pro_sa_hyper.Prosa.{Messages}
use pro_sa_hyper.Http.{Family, HttpApi}
use pro_sa_hyper.Net.{Net, ListenerSetting}
use pro_sa_hyper.Server.Settings as Server
use pro_sa_hyper.Server.Settings.{default_settings, new_server_settings}
use pro_sa_hyper.Client.Proc as Client
use pro_sa_hyper.Client.Proc.{new_settings, add_backend, create_sockets}
use pro_sa_hyper.Client.Socket.{new}
use pro_sa_hyper.Examples.Crates.{Tvf, Web}
use pro_sa_hyper.Integration.{TestAdaptor, server_type, client_type, server_new, client_new}
use pro_sa_hyper.Integration.Crates.{Numbers, Posts, Makes}

-- A scheme and the number of its test.
abbrev pub IsTest : String → ℕ → Type 0
IsTest s n = ((s ≡ "http") × (n ≡ 0)) ⊎ ((s ≡ "https") × (n ≡ 1)) ⊎ ((s ≡ "h2") × (n ≡ 2))

module _ (net : Net) (makes : Makes net) where
  -- The services of the stub, that of the injector, and the settings of the server and of the client.
  pub record HttpTestSettings : Type 0 where
    pub stub : List String
    pub inj : String
    pub server : Server.Settings net
    pub client : Client.Settings net

  -- The server's settings may fail to be made, by the environment's port. Its timeout is a second.
  unfoldable pub test_settings :
      Option (List ℕ)
      → net.Url
      → Option net.SslConfig
      → Option net.SslConfig
      → Option HttpTestSettings
  unfolding new_server_settings new_settings add_backend
  test_settings port url server_ssl client_ssl =
      elim (new_server_settings net port (makes.listener url server_ssl) (from_millis 1000)) [
        | none ↦ none
        | some s ↦ some (record {
          stub = "STUB_HTTP_SRV" ∷ [];
          inj = "HTTP_CLIENT_SRV";
          server = s;
          client =
              add_backend net (new_settings net "HTTP_CLIENT_SRV") (makes.target url client_ssl);
        })
      ]

module _ {M : Type 0} (ms : Messages M) (ha : HttpApi) (net : Net) (tvf : Tvf M) (web : Web ha net)
    (numbers : Numbers tvf) (posts : Posts ha net web) (f : Family) (makes : Makes net) where
  -- The settings of a server, whatever the port of the environment.
  new_server_settings-listener :
      (port : Option (List ℕ)) (l : ListenerSetting net) (n : ℕ) (t : Server.Settings net)
      → new_server_settings net port l n ≡ some t
      → t.listener ≡ l
  unfolding new_server_settings
  new_server_settings-listener port l n t h = elim (Option-cases (default_settings net port)) [
    | inl e ↦ ground arith
    | inr (d, e) ↦ sym (
        ap (λ x. x.listener) {x = record d { listener = l; service_timeout = n }} {y = t}
          (ground arith))
  ]

  abbrev pub settings_with :
      net.Url → Option net.SslConfig → Server.Settings net → HttpTestSettings net makes
  settings_with url c sv = record {
    stub = "STUB_HTTP_SRV" ∷ [];
    inj = "HTTP_CLIENT_SRV";
    server = sv;
    client = add_backend net (new_settings net "HTTP_CLIENT_SRV") (makes.target url c);
  }

  test_settings-with :
      (port : Option (List ℕ)) (url : net.Url) (s c : Option net.SslConfig)
      (t : HttpTestSettings net makes)
      → test_settings net makes port url s c ≡ some t
      → (sv : Server.Settings net) × (t ≡ settings_with url c sv) × (sv.listener.url ≡ url)
  unfolding test_settings
  test_settings-with port url s c t h =
      elim (Option-cases (new_server_settings net port (makes.listener url s) (from_millis 1000))) [
        | inl e ↦ absurd (ground arith)
        | inr (sv, e) ↦ (
          sv,
          ground arith,
          ap (λ l. l.url)
                (new_server_settings-listener port (makes.listener url s) (from_millis 1000) sv e)
              ∙ makes.url-listener url s,
        )
      ]

  server_type-IsTest :
      (s : String) (a : TestAdaptor)
      → (server_type ms ha net tvf web numbers posts f s ≡ ok a) ↔ IsTest s a.test_type
  unfolding server_type
  server_type-IsTest s a = (
    λ e. ground (arith, eq_iff s "http", eq_iff s "https", eq_iff s "h2"),
    λ t. elim t [
      | inl (p, h) ↦ rw p (ap (λ k. ok (record { test_type = k })) (sym h))
      | inr (inl (p, h)) ↦ rw p (ap (λ k. ok (record { test_type = k })) (sym h))
      | inr (inr (p, h)) ↦ rw p (ap (λ k. ok (record { test_type = k })) (sym h))
    ],
  )

  client_type-IsTest :
      (s : String) (a : TestAdaptor)
      → (client_type ms ha net tvf web numbers posts f (some s) ≡ ok a) ↔ IsTest s a.test_type
  unfolding client_type
  client_type-IsTest s a = (
    λ e. ground (arith, eq_iff s "http", eq_iff s "https", eq_iff s "h2"),
    λ t. elim t [
      | inl (p, h) ↦ rw p (ap (λ k. ok (record { test_type = k })) (sym h))
      | inr (inl (p, h)) ↦ rw p (ap (λ k. ok (record { test_type = k })) (sym h))
      | inr (inr (p, h)) ↦ rw p (ap (λ k. ok (record { test_type = k })) (sym h))
    ],
  )

  -- With the settings of a test, the adaptors of the server and of the client start, each, exactly
  -- with the number that the scheme of the test's URL has: 0 for http, 1 for https and 2 for h2, and
  -- with no other scheme. The client spawns one socket, to the URL of the listener, with the default
  -- timeout, and the injector sends to the service of that client.
  pub test_settings_agree :
      (port : Option (List ℕ)) (url : net.Url) (s c : Option net.SslConfig)
      (t : HttpTestSettings net makes)
      → test_settings net makes port url s c ≡ some t
      → ((a : TestAdaptor)
          → ((server_new ms ha net tvf web numbers posts f t.server.listener.url ≡ ok a)
              ↔ IsTest (posts.scheme url) a.test_type)
            × ((client_new ms ha net tvf web numbers posts f t.client.backends ≡ ok a)
                ↔ IsTest (posts.scheme url) a.test_type))
        × (create_sockets net t.client.backends t.client.min_socket t.client.http_timeout
            ≡ new net (makes.target t.server.listener.url c) 5000 ∷ [])
        × (t.inj ≡ t.client.service_name)
  unfolding new_settings add_backend server_new client_new create_sockets
  test_settings_agree port url s c t h =
      let (sv, same, at_url) = test_settings-with port url s c t h in
      rw same (
        λ a.
            rw (at_url, makes.url-target url c)
              (server_type-IsTest (posts.scheme url) a, client_type-IsTest (posts.scheme url) a),
        rw at_url refl,
        refl,
      )
