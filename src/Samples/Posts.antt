-- ===== src/Samples/Posts.antt =====
-- Concrete payloads with texts and numbers, and requests with a header and a body.
use text.Mathlib.Text.{◌==◌ as str_eq}
use pro_sa_hyper.Common.{
  ℕ, ◌≡◌, ◌≢◌, refl, String, Option, none, some, Result, ok, err, arith, if◌then◌else◌, ◌==◌,
}
use pro_sa_hyper.Http.{HttpApi, http_11}
use pro_sa_hyper.Samples.{http_of}
use pro_sa_hyper.Samples.Fields.{paths_net}
use pro_sa_hyper.Examples.Crates.{Tvf, Web}
use pro_sa_hyper.Integration.Crates.{Numbers, Posts, Makes}

pub data Value : Type 0 where
  words : String → Value
  number : ℕ → Value

abbrev pub Message : Type 0
Message = ℕ → Option Value

abbrev pub put : ℕ → Value → Message → Message
put i s m j = if j == i then some s else m j

abbrev pub text_of : Option Value → Result String ℕ
text_of none = err 0
text_of (some (words s)) = ok s
text_of (some (number n)) = err 1

abbrev pub number_of : Option Value → Result ℕ ℕ
number_of none = err 0
number_of (some (words s)) = err 1
number_of (some (number n)) = ok n

pub text_same : (i : ℕ) (s : String) (m : Message) → text_of (put i (words s) m i) ≡ ok s
text_same i s m = ground arith

pub text_other :
    (i j : ℕ) (s : String) (m : Message) → i ≢ j → text_of (put j (words s) m i) ≡ text_of (m i)
text_other i j s m h = ground arith

pub number_same : (i n : ℕ) (m : Message) → number_of (put i (number n) m i) ≡ ok n
number_same i n m = ground arith

abbrev pub values : Tvf Message
values = record {
  TvfError = ℕ;
  default = λ i. none;
  put_string = λ i s m. put i (words s) m;
  get_string = λ i m. text_of (m i);
  to_string = λ e. "no field";
  debug = λ m. "fields";
  get_string-put_string = text_same;
  get_string-put_string_ne = text_other;
}

abbrev pub numbers : Numbers values
numbers = record {
  put_unsigned = λ i n m. put i (number n) m;
  get_unsigned = λ i m. number_of (m i);
  get_unsigned-put_unsigned = number_same;
}

pub record Posted : Type 0 where
  pub path : String
  pub method : String
  pub agent : Option String
  pub content : String

abbrev pub posted_http : HttpApi
posted_http = http_of Posted

abbrev pub with_header : String → String → Posted → Posted
with_header n v b = if str_eq n "User-Agent" then record b { agent = some v } else b

abbrev pub posted : Web posted_http paths_net
posted = record {
  path = λ r. r.path;
  method = λ r. r.method;
  version = λ r. http_11;
  RequestBuilder = Posted;
  request_builder = record { path = "/"; method = "GET"; agent = none; content = "" };
  uri = λ u b. record b { path = u };
  request_header = with_header;
  request_body = λ t b. ok (record b { content = t });
  set_path = λ p u. p;
  as_str = λ u. u;
  status_text = λ code. "status";
  hyper_text = λ e. "hyper";
  http_text = λ e. "http";
  status-builder = refl;
  IsWeb = λ u. Unit {0};
  IsPlain = λ p. Unit {0};
  IsPlain-root = tt;
  request = λ f u p b h i. (_, refl, refl, refl);
}

-- Every URL is one of HTTP.
abbrev pub posts : Posts posted_http paths_net posted
posts = record {
  scheme = λ u. "http";
  request_method = λ m b. record b { method = m };
  user_agent = λ r. r.agent;
  request_text = λ r. some r.content;
  response_text = λ r. some r.body;
  post = λ f u b h. (_, refl, refl, refl);
  response_text-empty = λ r h. rw h refl;
}

abbrev pub makes : Makes paths_net
makes = record {
  listener = λ u s. record { url = u; ssl = s };
  target = λ u s. record { url = u; ssl = s; connect_timeout = 5000 };
  url-listener = λ u s. refl;
  url-target = λ u s. refl;
}
