-- ===== src/Net.antt =====
-- What src/ uses of the settings in `prosa::io` and of the `url` crate, as an interface, and the
-- choice of protocols (ALPN) that the client's sockets and the server make from them.
pub mod Alpn
use pro_sa_hyper.Common.{ℕ, ◌≡◌, String, Option, none, some, List, [], ◌∷◌, Bool, false}

pub record Net : Type 1 where
  pub Url : Type 0
  pub SslConfig : Type 0
  pub url_is_ssl : Url → Bool
  -- `Url::parse("http://0.0.0.0:8080")`, and `set_port`, which fails for a URL that is no base.
  pub any_8080 : Url
  pub set_port : ℕ → Url → Option Url
  pub default_ssl : SslConfig
  pub set_alpn : List String → SslConfig → SslConfig
  -- The protocols that a configuration offers.
  pub alpn : SslConfig → List String
  -- A connection, its file descriptor, and the protocol that was chosen for it, if one was.
  pub Stream : Type 0
  pub as_raw_fd : Stream → ℕ
  pub selected_alpn : Stream → Option String
  pub selected_alpn_check : (String → Bool) → Stream → Bool
  pub selected_alpn_check_none :
      (f : String → Bool) (s : Stream) → selected_alpn s ≡ none → selected_alpn_check f s ≡ false
  pub selected_alpn_check_some :
      (f : String → Bool) (s : Stream) (p : String)
      → selected_alpn s ≡ some p
      → selected_alpn_check f s ≡ f p
  pub alpn-set_alpn : (ps : List String) (s : SslConfig) → alpn (set_alpn ps s) ≡ ps

-- The fields of `TargetSetting` that the code reads; `connect_timeout` is in milliseconds.
pub record TargetSetting (net : Net) : Type 0 where
  pub url : net.Url
  pub ssl : Option net.SslConfig
  pub connect_timeout : ℕ

-- The fields of `ListenerSetting` that the code reads.
pub record ListenerSetting (net : Net) : Type 0 where
  pub url : net.Url
  pub ssl : Option net.SslConfig

-- `H2` of src/lib.rs.
abbrev pub h2 : String
h2 = "h2"

abbrev pub protocols : List String
protocols = "h2" ∷ "http/1.1" ∷ []
