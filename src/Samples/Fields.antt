-- ===== src/Samples/Fields.antt =====
-- Concrete payloads with fields, and requests and URLs with a path.
use pro_sa_hyper.Common.{
  ℕ, ◌≡◌, ◌≢◌, refl, String, Option, none, some, [], false, Result, ok, err, List, arith,
  if◌then◌else◌, ◌==◌,
}
use pro_sa_hyper.Http.{HttpApi, Version, http_11}
use pro_sa_hyper.Net.{Net}
use pro_sa_hyper.Samples.{http_of}
use pro_sa_hyper.Samples.Nets.{check, check-none, check-some}
use pro_sa_hyper.Examples.Crates.{Tvf, Web}

abbrev pub Fields : Type 0
Fields = ℕ → Option String

abbrev pub put : ℕ → String → Fields → Fields
put i s m j = if j == i then some s else m j

abbrev pub given : Option String → Result String ℕ
given none = err 0
given (some s) = ok s

pub put_same : (i : ℕ) (s : String) (m : Fields) → given (put i s m i) ≡ ok s
put_same i s m = ground arith

pub put_other : (i j : ℕ) (s : String) (m : Fields) → i ≢ j → given (put j s m i) ≡ given (m i)
put_other i j s m h = ground arith

abbrev pub fields : Tvf Fields
fields = record {
  TvfError = ℕ;
  default = λ i. none;
  put_string = put;
  get_string = λ i m. given (m i);
  to_string = λ e. "no field";
  debug = λ m. "fields";
  get_string-put_string = put_same;
  get_string-put_string_ne = put_other;
}

pub record Asked : Type 0 where
  pub path : String
  pub method : String
  pub version : Version

abbrev pub paths_http : HttpApi
paths_http = http_of Asked

-- A URL is its path, at one host and port.
abbrev pub paths_net : Net
paths_net = record {
  Url = String;
  SslConfig = List String;
  url_is_ssl = λ u. false;
  any_8080 = "/";
  set_port = λ p u. some u;
  default_ssl = [];
  set_alpn = λ ps s. ps;
  alpn = λ s. s;
  Stream = ℕ × Option String;
  as_raw_fd = λ s. s.0;
  selected_alpn = λ s. s.1;
  selected_alpn_check = λ f s. check f s.1;
  selected_alpn_check_none = λ f s. check-none f s.1;
  selected_alpn_check_some = λ f s. check-some f s.1;
  alpn-set_alpn = λ ps s. refl;
}

abbrev status_line : ℕ → String
status_line code = if code == 200 then "200 OK" else "other"

abbrev pub paths : Web paths_http paths_net
paths = record {
  path = λ r. r.path;
  method = λ r. r.method;
  version = λ r. r.version;
  RequestBuilder = String;
  request_builder = "";
  uri = λ u b. u;
  request_header = λ n v b. b;
  request_body = λ t b. ok (record { path = b; method = "GET"; version = http_11 });
  set_path = λ p u. p;
  as_str = λ u. u;
  status_text = status_line;
  hyper_text = λ e. "hyper";
  http_text = λ e. "http";
  status-builder = refl;
  IsWeb = λ u. Unit {0};
  IsPlain = λ p. Unit {0};
  IsPlain-root = tt;
  request =
      λ f u p b h i. (record { path = p; method = "GET"; version = http_11 }, refl, refl, refl);
}
