-- ===== src/Http.antt =====
-- The types and functions at the crate's root, src/lib.rs, and an interface of what src/ uses of the
-- `http` and `hyper` crates.
use Prim.Native.String.{◌++◌}
use pro_sa_hyper.Common.{
  List, [], ◌∷◌, ℕ, ◌≤◌, ◌<◌, ◌≡◌, String, Bool, true, Option, some, Result, ok, err,
}
use pro_sa_hyper.Prosa.{Messages}

-- `hyper::Version`, as far as `hyper_version_str` tells its values apart.
pub data Version : Type 0 where
  http_11 http_2 http_3 other_version : Version

pub data Family : Type 0 where
  unix windows other_family : Family

-- The name and version are those of Cargo.toml.
abbrev pub product_version_header : Family → String
product_version_header unix = "prosa-hyper/0.3.1 (Unix)"
product_version_header windows = "prosa-hyper/0.3.1 (Windows)"
product_version_header other_family = "prosa-hyper/0.3.1"

unfoldable pub hyper_version_str : Version → String
hyper_version_str http_11 = "HTTP/1.1"
hyper_version_str http_2 = "HTTP/2"
hyper_version_str http_3 = "HTTP/3"
hyper_version_str other_version = "Unknown"

-- The crates' responses and their builder. Its methods are called in a chain, so `self` comes last.
pub record HttpApi : Type 1 where
  pub Request : Type 0
  pub Response : Type 0
  pub Builder : Type 0
  pub Body : Type 0
  pub HeaderName : Type 0
  pub HyperCrateError : Type 0
  pub HttpCrateError : Type 0
  pub builder : Builder
  pub status : ℕ → Builder → Builder
  pub header : HeaderName → String → Builder → Builder
  pub body : Body → Builder → Result Response HttpCrateError
  pub full : String → Body
  pub empty : Body
  -- The constant `hyper::header::SERVER`, and a name given as text.
  pub server : HeaderName
  pub header_name : String → HeaderName
  pub status_of : Response → ℕ
  pub version_of : Response → Version
  pub body_of : Response → Body
  pub get_header : HeaderName → Response → Option String
  -- Header names are compared without regard to case.
  pub header_name-server : header_name "Server" ≡ server
  -- A builder with a status code of three digits and the product's `Server` header makes a
  -- response, of HTTP/1.1 by default.
  pub build :
      (f : Family) (code : ℕ) (b : Body)
      → 100 ≤ code
      → code < 1000
      → (r : Response) × (body b (header server (product_version_header f) (status code builder))
          ≡ ok r)
        × (status_of r ≡ code)
        × (version_of r ≡ http_11)
        × (get_header server r ≡ some (product_version_header f))
        × (body_of r ≡ b)

pub data HttpError (ha : HttpApi) : Type 0 where
  hyper : ha.HyperCrateError → HttpError ha
  http : ha.HttpCrateError → HttpError ha

-- The handler of a service's answer gets the adaptor, of type `A`, and the payload or the error.
abbrev pub SrvRespHandler : {M : Type 0} → Messages M → HttpApi → Type 0 → Type 0
SrvRespHandler {M} ms ha A = A → Result M ms.ErrorMsg → Result ha.Response (HttpError ha)

pub data HyperResp {M : Type 0} (ms : Messages M) (ha : HttpApi) (A : Type 0) : Type 0 where
  srv_req : String → M → SrvRespHandler ms ha A → HyperResp ms ha A
  http_resp : ha.Response → HyperResp ms ha A
  http_err : HttpError ha → HyperResp ms ha A

module _ {M : Type 0} (ms : Messages M) (ha : HttpApi) (A : Type 0) where
  -- The conversions `From<HttpError>`, `From<hyper::Error>`, `From<http::Error>` and
  -- `From<Result<Response, http::Error>>`.
  unfoldable pub from_http_error : HttpError ha → HyperResp ms ha A
  from_http_error e = http_err e

  unfoldable pub from_hyper_crate_error : ha.HyperCrateError → HyperResp ms ha A
  from_hyper_crate_error e = http_err (hyper e)

  unfoldable pub from_http_crate_error : ha.HttpCrateError → HyperResp ms ha A
  from_http_crate_error e = http_err (http e)

  unfoldable pub from_result : Result ha.Response ha.HttpCrateError → HyperResp ms ha A
  from_result (ok r) = http_resp r
  from_result (err e) = http_err (http e)

  -- `Debug`: the name of the variant and its fields, by the texts of a name, a payload, a response and
  -- an error; the handler has none.
  unfoldable pub debug :
      (String → String)
      → (M → String)
      → (ha.Response → String)
      → (HttpError ha → String)
      → HyperResp ms ha A
      → String × List String
  debug text msg resp e (srv_req name m h) = ("SrvReq", text name ∷ msg m ∷ text "<handler>" ∷ [])
  debug text msg resp e (http_resp r) = ("HttpResp", resp r ∷ [])
  debug text msg resp e (http_err x) = ("HttpErr", e x ∷ [])

module _ (ha : HttpApi) (hyper_text : ha.HyperCrateError → String)
    (http_text : ha.HttpCrateError → String) where
  -- `Display` of `HttpError`.
  unfoldable pub display_http : HttpError ha → String
  display_http (hyper e) = "Hyper error: `" ++ (hyper_text e ++ "`")
  display_http (http e) = "HTTP error: `" ++ (http_text e ++ "`")

-- `HyperProcError`, over the errors of `std::io`, of hyper and of the bus.
pub data HyperProcError (Io Hyper Bus : Type 0) : Type 0 where
  io : Io → HyperProcError Io Hyper Bus
  hyper : Hyper → String → HyperProcError Io Hyper Bus
  internal_bus : Bus → HyperProcError Io Hyper Bus
  other : String → HyperProcError Io Hyper Bus

module _ {Io Hyper Bus : Type 0} (io_recoverable : Io → Bool) (bus_recoverable : Bus → Bool) where
  unfoldable pub recoverable : HyperProcError Io Hyper Bus → Bool
  recoverable (io e) = io_recoverable e
  recoverable (hyper e addr) = true
  recoverable (internal_bus b) = bus_recoverable b
  recoverable (other s) = true

-- `From<SendError>`: `internal_queue` is the bus error of that name, and the argument the text of the
-- error.
module _ {Io Hyper Bus : Type 0} (internal_queue : String → Bus) where
  unfoldable pub from_send_error : String → HyperProcError Io Hyper Bus
  from_send_error text = internal_bus (internal_queue ("Failed to send message: " ++ text))

-- `Display`, over that of the errors.
module _ {Io Hyper Bus : Type 0} (io_text : Io → String) (hyper_text : Hyper → String)
    (bus_text : Bus → String) where
  unfoldable pub display_proc : HyperProcError Io Hyper Bus → String
  display_proc (io e) = "Hyper IO error: " ++ io_text e
  display_proc (hyper e addr) = "Hyper error[" ++ (addr ++ ("]: `" ++ (hyper_text e ++ "`")))
  display_proc (internal_bus b) = "Internal bus error: " ++ bus_text b
  display_proc (other s) = "Other error: " ++ s
