-- ===== src/Examples/Crates.antt =====
-- What the examples use of other crates besides what src/ does: the payloads of `prosa_utils`, as an
-- interface, and the parts of requests and URLs of `http` and `url`.
use pro_sa_hyper.Common.{ℕ, ◌≡◌, ◌≢◌, String, Result, ok}
use pro_sa_hyper.Http.{Family, product_version_header, HttpApi, Version}
use pro_sa_hyper.Net.{Net}

-- The trait `Tvf`, with `Default` and `Debug`. A method that takes `&mut self` gives the changed
-- message.
pub record Tvf (M : Type 0) : Type 1 where
  pub TvfError : Type 0
  pub default : M
  pub put_string : ℕ → String → M → M
  pub get_string : ℕ → M → Result String TvfError
  pub to_string : TvfError → String
  pub debug : M → String
  -- A field holds the text that was last put in it, and putting one leaves the others.
  pub get_string-put_string : (i : ℕ) (s : String) (m : M) → get_string i (put_string i s m) ≡ ok s
  pub get_string-put_string_ne :
      (i j : ℕ) (s : String) (m : M) → i ≢ j → get_string i (put_string j s m) ≡ get_string i m

pub record Web (ha : HttpApi) (net : Net) : Type 1 where
  pub path : ha.Request → String
  pub method : ha.Request → String
  pub version : ha.Request → Version
  pub RequestBuilder : Type 0
  pub request_builder : RequestBuilder
  pub uri : String → RequestBuilder → RequestBuilder
  pub request_header : String → String → RequestBuilder → RequestBuilder
  pub request_body : ha.Body → RequestBuilder → Result ha.Request ha.HttpCrateError
  pub set_path : String → net.Url → net.Url
  pub as_str : net.Url → String
  -- `Display` of a status code and of the errors.
  pub status_text : ℕ → String
  pub hyper_text : ha.HyperCrateError → String
  pub http_text : ha.HttpCrateError → String
  -- The status of a response is 200 where none is asked for.
  pub status-builder : ha.status 200 ha.builder ≡ ha.builder
  -- A URL of a web server, and a path that needs no escapes.
  pub IsWeb : net.Url → Type 0
  pub IsPlain : String → Type 0
  pub IsPlain-root : IsPlain "/"
  -- A request for such a path at such a URL, with the product's `User-Agent`, can be made; it is a GET
  -- where no method is asked for.
  pub request :
      (f : Family) (u : net.Url) (p : String) (b : ha.Body)
      → IsWeb u
      → IsPlain p
      → (r : ha.Request) × (request_body b (
            request_header "User-Agent"
              (product_version_header f)
              (uri (as_str (set_path p u)) request_builder))
          ≡ ok r)
        × (path r ≡ p)
        × (method r ≡ "GET")
