-- ===== src/Server/Settings.antt =====
-- The settings of the server's processor and the choice of its protocols, of src/server/proc.rs.
pub mod Port
use pro_sa_hyper.Common.{
  ℕ, ◌+◌, ◌-◌, ◌*◌, String, Option, none, some, List, [], ◌∷◌, Bool, true, false, if◌then◌else◌,
  ltb, ◌==◌, from_millis,
}
use pro_sa_hyper.Net.{Net, ListenerSetting, protocols}

-- The value of a digit's character.
unfoldable pub digit : ℕ → Option ℕ
digit c = if ltb c b'0' then none else if ltb b'9' c then none else some (c - b'0')

-- The digits of `str::parse::<u16>`, which fails at the first step that leaves 16 bits.
unfoldable pub parse_digits : ℕ → List ℕ → Option ℕ
unfolding digit
parse_digits acc [] = some acc
parse_digits acc (c ∷ cs) = elim (digit c) [
  | none ↦ none
  | some d ↦
      let rest = parse_digits (acc * 10 + d) cs in if ltb (acc * 10 + d) 65536 then rest else none
]

-- There is at least one digit.
parse_some : List ℕ → Option ℕ
unfolding parse_digits
parse_some [] = none
parse_some (c ∷ cs) = parse_digits 0 (c ∷ cs)

-- `str::parse::<u16>` on the bytes of a text: a sign `+` may come first.
unfoldable pub parse_u16 : List ℕ → Option ℕ
unfolding parse_some
parse_u16 [] = none
parse_u16 (c ∷ cs) = if c == b'+' then parse_some cs else parse_some (c ∷ cs)

module _ (net : Net) where
  pub record Settings : Type 0 where
    pub listener : ListenerSetting net
    pub service_timeout : ℕ

  -- `none` is the panic of `expect`.
  with_port : Option ℕ → Option net.Url
  with_port none = some net.any_8080
  with_port (some p) = net.set_port p net.any_8080

  port_of : Option (List ℕ) → Option ℕ
  unfolding parse_u16
  port_of none = none
  port_of (some text) = parse_u16 text

  listen_at : Option net.Url → Option (ListenerSetting net)
  listen_at none = none
  listen_at (some url) = some (record { url = url; ssl = none })

  -- The argument is the variable `PORT` of the environment, if it is set.
  unfoldable pub default_listener : Option (List ℕ) → Option (ListenerSetting net)
  unfolding with_port port_of listen_at
  default_listener port = listen_at (with_port (port_of port))

  unfoldable pub default_service_timeout : ℕ
  default_service_timeout = from_millis 800

  unfoldable pub default_settings : Option (List ℕ) → Option Settings
  unfolding default_listener default_service_timeout
  default_settings port = elim (default_listener port) [
    | none ↦ none
    | some l ↦ some (record { listener = l; service_timeout = default_service_timeout })
  ]

  -- `HyperServerSettings::new`: its last fields are those of the default, which is made for them.
  unfoldable pub new_server_settings : Option (List ℕ) → ListenerSetting net → ℕ → Option Settings
  unfolding default_settings
  new_server_settings port listener service_timeout = elim (default_settings port) [
    | none ↦ none
    | some d ↦ some (record d { listener = listener; service_timeout = service_timeout })
  ]

  set_protocols : Option net.SslConfig → net.SslConfig
  set_protocols none = net.set_alpn protocols net.default_ssl
  set_protocols (some ssl) = net.set_alpn protocols ssl

  -- The protocols are set where the URL asks for TLS.
  unfoldable pub configure_listener : ListenerSetting net → ListenerSetting net
  unfolding set_protocols
  configure_listener l =
      if net.url_is_ssl l.url then record l { ssl = some (set_protocols l.ssl) } else l
