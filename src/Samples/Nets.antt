-- ===== src/Samples/Nets.antt =====
-- A concrete network, and an adaptor of the client.
use pro_sa_hyper.Common.{
  ℕ, ◌≡◌, refl, String, Option, none, some, List, [], Bool, false, Result, ok, err, if◌then◌else◌,
  ◌==◌,
}
use pro_sa_hyper.Prosa.{ServiceError, protocol_error}
use pro_sa_hyper.Net.{Net}
use pro_sa_hyper.Client.Socket.{ClientAdaptor}
use pro_sa_hyper.Samples.{Reply, sample_messages, sample_http}

abbrev pub check : (String → Bool) → Option String → Bool
check f none = false
check f (some p) = f p

pub check-none : (f : String → Bool) (o : Option String) → o ≡ none → check f o ≡ false
check-none f none h = refl
check-none f (some p) h = cc

pub check-some : (f : String → Bool) (o : Option String) (p : String) → o ≡ some p → check f o ≡ f p
check-some f none p h = cc
check-some f (some q) p h = cc

-- A URL is whether it asks for TLS, and a port.
abbrev pub sample_net : Net
sample_net = record {
  Url = Bool × ℕ;
  SslConfig = List String;
  url_is_ssl = λ u. u.0;
  any_8080 = (false, 8080);
  set_port = λ p u. some (u.0, p);
  default_ssl = [];
  set_alpn = λ ps s. ps;
  alpn = λ s. s;
  Stream = ℕ × Option String;
  as_raw_fd = λ s. s.0;
  selected_alpn = λ s. s.1;
  selected_alpn_check = λ f s. check f s.1;
  selected_alpn_check_none = λ f s. check-none f s.1;
  selected_alpn_check_some = λ f s. check-some f s.1;
  alpn-set_alpn = λ ps s. refl;
}

abbrev respond : Result Reply ℕ → Result ℕ ServiceError
respond (ok r) = ok r.code
respond (err e) = err (protocol_error "hyper")

-- The payload 0 makes no HTTP request.
abbrev pub sample_client : ClientAdaptor sample_messages sample_http sample_net
sample_client = record {
  process_srv_request = λ d u. if d == 0 then err (protocol_error "zero") else ok d;
  process_http_response = respond;
}
