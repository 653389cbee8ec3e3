-- ===== src/Samples.antt =====
-- Concrete instances of the interfaces, at which the theorems are applied: messages with numbers as
-- payloads, an association list of pending messages, and responses as records.
pub mod Pairs
pub mod Nets
pub mod Fields
pub mod Posts
use pro_sa_hyper.Common.{
  ℕ, ◌≤◌, ◌<◌, ◌≡◌, refl, String, Option, none, some, List, [], ◌∷◌, Bool, true, false, Result, ok,
  err, arith, if◌then◌else◌, ltb, ◌==◌,
}
use pro_sa_hyper.Prosa.{Messages, ServiceError}
use pro_sa_hyper.Prosa.Pending.{PendingMsgs}
use pro_sa_hyper.Http.{HttpApi, Version, http_11, Family, product_version_header}

pub record Carrying (M : Type 0) : Type 0 where
  pub id : ℕ
  pub service : String
  pub payload : Option M
  pub to : ℕ

pub record Failing (M : Type 0) : Type 0 where
  pub id : ℕ
  pub payload : Option M
  pub reason : ServiceError

abbrev pub Req : Type 0
Req = Carrying ℕ

abbrev pub Failure : Type 0
Failure = Failing ℕ

abbrev pub messages_of : (M : Type 0) → Messages M
messages_of M = record {
  RequestMsg = Carrying M;
  ResponseMsg = ℕ × Option M;
  ErrorMsg = Failing M;
  Sender = ℕ;
  ServiceTable = String → Option ℕ;
  ProcService = ℕ;
  new_request = λ i s m q. record { id = i; service = s; payload = some m; to = q };
  get_id = λ r. r.id;
  get_service = λ r. r.service;
  take_data = λ r. (r.payload, record r { payload = none });
  sender = λ r. r.to;
  response_id = λ r. r.0;
  response_data = λ r. r.1;
  error_id = λ e. e.id;
  error_data = λ e. e.payload;
  get_err = λ e. e.reason;
  into_err = λ e. e.reason;
  get_proc_service = λ t s. t s;
  to_response = λ r m. (r.id, some m);
  to_error = λ r m e. record { id = r.id; payload = m; reason = e };
  get_id-new_request = λ i s m q. refl;
  get_service-new_request = λ i s m q. refl;
  take_data-new_request = λ i s m q. refl;
  sender-new_request = λ i s m q. refl;
  get_service-take_data = λ r. refl;
  sender-take_data = λ r. refl;
  take_data_twice = λ r. refl;
  response_id-to_response = λ r m. refl;
  response_data-to_response = λ r m. refl;
  error_id-to_error = λ r m e. refl;
  error_data-to_error = λ r m e. refl;
  get_err-to_error = λ r m e. refl;
  into_err-to_error = λ r m e. refl;
}

abbrev pub sample_messages : Messages ℕ
sample_messages = messages_of ℕ

pub record Reply : Type 0 where
  pub code : ℕ
  pub server : Option String
  pub body : String

-- A builder knows its status code and `Server` header; a body is a text.
abbrev pub http_of : Type 0 → HttpApi
http_of R = record {
  Request = R;
  Response = Reply;
  Builder = ℕ × Option String;
  Body = String;
  HeaderName = Unit {0};
  HyperCrateError = ℕ;
  HttpCrateError = ℕ;
  builder = (200, none);
  status = λ c b. (c, b.1);
  header = λ n v b. (b.0, some v);
  body = λ t b. ok (record { code = b.0; server = b.1; body = t });
  full = λ t. t;
  empty = "";
  server = tt;
  header_name = λ s. tt;
  status_of = λ r. r.code;
  version_of = λ r. http_11;
  body_of = λ r. r.body;
  get_header = λ n r. r.server;
  header_name-server = refl;
  build = λ f c b l h. (
    record { code = c; server = some (product_version_header f); body = b },
    refl,
    refl,
    refl,
    refl,
    refl,
  );
}

abbrev pub sample_http : HttpApi
sample_http = http_of ℕ
