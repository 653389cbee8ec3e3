-- ===== src/Client/Socket/Offers.antt =====
-- The protocols that a new socket of the client offers.
use pro_sa_hyper.Common.{
  ℕ, String, ◌≡◌, refl, Option, none, some, List, Bool, true, false, ◌||◌, if◌then◌else◌, arith,
  ◌<◌, ◌^◌, millis_u64, millis_u64-from_millis,
}
use pro_sa_hyper.Net.{Net, TargetSetting, protocols}
use pro_sa_hyper.Client.Socket.{new, choose_ssl}

module _ (net : Net) where
  abbrev pub is_set : Option net.SslConfig → Bool
  is_set none = false
  is_set (some s) = true

  abbrev pub offered : Option net.SslConfig → Option (List String)
  offered none = none
  offered (some s) = some (net.alpn s)

  choose_ssl-offered :
      (url : net.Url) (ssl : Option net.SslConfig)
      → offered (choose_ssl net url ssl)
        ≡ (if is_set ssl || net.url_is_ssl url then some protocols else none)
  unfolding choose_ssl
  choose_ssl-offered url none = ground (arith, net.alpn-set_alpn protocols net.default_ssl)
  choose_ssl-offered url (some s) = ground (arith, net.alpn-set_alpn protocols s)

  -- A new socket uses TLS exactly when its target has a TLS configuration or a URL that asks for it;
  -- then it offers HTTP/2 and HTTP/1.1, in this order, whatever the target offered. It keeps the
  -- target's URL and timeout, reports its own timeout as it was given, and is not marked as HTTP/2.
  new-offers :
      (t : TargetSetting net) (ms : ℕ)
      → ms < 2 ^ 64
      → let s = new net t ms in
        (offered s.target.ssl
          ≡ (if is_set t.ssl || net.url_is_ssl t.url then some protocols else none))
        × (s.target.url ≡ t.url)
        × (s.target.connect_timeout ≡ t.connect_timeout)
        × (millis_u64 s.http_timeout ≡ ms)
        × (s.is_http2 ≡ false)
  unfolding new
  new-offers t ms small =
      (choose_ssl-offered t.url t.ssl, refl, refl, millis_u64-from_millis ms small, refl)
