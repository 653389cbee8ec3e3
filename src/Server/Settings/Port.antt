-- ===== src/Server/Settings/Port.antt =====
-- How the server reads its port, and which protocols it offers.
use pro_sa_hyper.Common.{
  ℕ, ◌+◌, ◌-◌, ◌*◌, ◌≤◌, ◌<◌, ◌≡◌, refl, inl, inr, String, Option, none, some, List, [], ◌∷◌, Bool,
  true, false, ◌&&◌, if◌then◌else◌, ltb, ◌==◌, arith, Option-cases,
}
use pro_sa_hyper.Net.{Net, ListenerSetting, protocols}
use pro_sa_hyper.Server.Settings.{
  digit, parse_digits, parse_some, parse_u16, default_listener, listen_at, with_port, port_of,
  configure_listener, set_protocols,
}

-- A text of digits and its value, read without a limit.
abbrev pub are_digits : List ℕ → Bool
are_digits [] = true
are_digits (c ∷ cs) =
    (if ltb c b'0' then false else if ltb b'9' c then false else true) && are_digits cs

abbrev pub value : ℕ → List ℕ → ℕ
value acc [] = acc
value acc (c ∷ cs) = value (acc * 10 + (c - b'0')) cs

value-le : (acc : ℕ) (cs : List ℕ) → acc ≤ value acc cs
value-le acc [] = omega arith
value-le acc (c ∷ cs) = omega (arith, value-le (acc * 10 + (c - b'0')) cs)

parse_digits_lem :
    (acc : ℕ) (cs : List ℕ)
    → acc < 65536
    → parse_digits acc cs ≡ (
        if are_digits cs
        then (if ltb (value acc cs) 65536 then some (value acc cs) else none)
        else none)
unfolding parse_digits digit
parse_digits_lem acc [] h = ground arith
parse_digits_lem acc (c ∷ cs) h =
    ground (arith, parse_digits_lem (acc * 10 + (c - b'0')) cs, value-le (acc * 10 + (c - b'0')) cs)

-- A number of 16 bits, written in one digit or more.
abbrev pub read : List ℕ → Option ℕ
read [] = none
read (c ∷ cs) =
    if are_digits (c ∷ cs)
    then (if ltb (value 0 (c ∷ cs)) 65536 then some (value 0 (c ∷ cs)) else none)
    else none

-- So with a sign `+` that may come first.
abbrev pub read_signed : List ℕ → Option ℕ
read_signed [] = none
read_signed (c ∷ cs) = if c == b'+' then read cs else read (c ∷ cs)

parse_some_lem : (cs : List ℕ) → parse_some cs ≡ read cs
unfolding parse_some
parse_some_lem [] = refl
parse_some_lem (c ∷ cs) = parse_digits_lem 0 (c ∷ cs) (omega arith)

-- The parser with its check at each digit reads the texts of digits, perhaps behind a sign, whose
-- whole value is below 65536, as that value, and no other text.
pub parse_u16_lem : (cs : List ℕ) → parse_u16 cs ≡ read_signed cs
unfolding parse_u16
parse_u16_lem [] = refl
parse_u16_lem (c ∷ cs) = ground (arith, parse_some_lem cs, parse_some_lem (c ∷ cs))

module _ (net : Net) where
  abbrev pub port_read : Option (List ℕ) → Option ℕ
  port_read none = none
  port_read (some text) = read_signed text

  abbrev pub url_for : (ℕ → net.Url) → Option ℕ → net.Url
  url_for at none = net.any_8080
  url_for at (some p) = at p

  -- Where the default URL takes a port, as a URL with a host does, the default listener is made for
  -- every value of `PORT`: without TLS, at that port if the value reads as a number of 16 bits, and at
  -- 8080 if it does not or is not set.
  pub default_listener_lem :
      (at : ℕ → net.Url) (port : Option (List ℕ))
      → ((p : ℕ) → net.set_port p net.any_8080 ≡ some (at p))
      → default_listener net port ≡ some (record { url = url_for at (port_read port); ssl = none })
  unfolding default_listener with_port port_of listen_at
  default_listener_lem at none h = refl
  default_listener_lem at (some text) h = rw (parse_u16_lem text) (made (read_signed text))
    where
      made :
          (r : Option ℕ)
          → listen_at net (with_port net r) ≡ some (record { url = url_for at r; ssl = none })
      made none = refl
      made (some p) = rw (h p)

  abbrev pub offered : Option net.SslConfig → Option (List String)
  offered none = none
  offered (some s) = some (net.alpn s)

  -- A listener whose URL asks for TLS offers HTTP/2 and HTTP/1.1, in this order, whatever it offered;
  -- any other keeps what it offered. The URL stays.
  pub configure_listener-offers :
      (l : ListenerSetting net)
      → (offered (configure_listener net l).ssl
          ≡ (if net.url_is_ssl l.url then some protocols else offered l.ssl))
        × ((configure_listener net l).url ≡ l.url)
  unfolding configure_listener set_protocols
  configure_listener-offers l = elim (Option-cases l.ssl) [
    | inl e ↦ ground (arith, net.alpn-set_alpn protocols net.default_ssl)
    | inr (s, e) ↦ ground (arith, net.alpn-set_alpn protocols s)
  ]
