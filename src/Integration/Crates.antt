-- ===== src/Integration/Crates.antt =====
-- What the tests of src/tests.rs use of other crates besides what the examples use: numbers in the
-- fields of payloads, the scheme of URLs, and requests with a body.
use pro_sa_hyper.Common.{ℕ, ◌≡◌, String, Option, some, Result, ok}
use pro_sa_hyper.Http.{Family, product_version_header, HttpApi}
use pro_sa_hyper.Net.{Net, TargetSetting, ListenerSetting}
use pro_sa_hyper.Examples.Crates.{Tvf, Web}

pub record Numbers {M : Type 0} (tvf : Tvf M) : Type 0 where
  pub put_unsigned : ℕ → ℕ → M → M
  pub get_unsigned : ℕ → M → Result ℕ tvf.TvfError
  pub get_unsigned-put_unsigned : (i n : ℕ) (m : M) → get_unsigned i (put_unsigned i n m) ≡ ok n

pub record Posts (ha : HttpApi) (net : Net) (web : Web ha net) : Type 0 where
  pub scheme : net.Url → String
  pub request_method : String → web.RequestBuilder → web.RequestBuilder
  -- The header `User-Agent` of a request, if it is there and is a text, and the body of a request or
  -- of a response, if it is received and is a text.
  pub user_agent : ha.Request → Option String
  pub request_text : ha.Request → Option String
  pub response_text : ha.Response → Option String
  -- A POST to a web server with the product's `User-Agent` and a text as its body can be made.
  pub post :
      (f : Family) (u : net.Url) (b : String)
      → web.IsWeb u
      → (r : ha.Request) × (web.request_body (ha.full b) (
            web.request_header "User-Agent"
              (product_version_header f)
              (web.uri (web.as_str u) (request_method "POST" web.request_builder)))
          ≡ ok r)
        × (user_agent r ≡ some (product_version_header f))
        × (request_text r ≡ some b)
  -- A response with no body has an empty text.
  pub response_text-empty : (r : ha.Response) → ha.body_of r ≡ ha.empty → response_text r ≡ some ""

-- `ListenerSetting::new` and `TargetSetting::new`, which keep the URL. The latter has no proxy.
pub record Makes (net : Net) : Type 0 where
  pub listener : net.Url → Option net.SslConfig → ListenerSetting net
  pub target : net.Url → Option net.SslConfig → TargetSetting net
  pub url-listener : (u : net.Url) (s : Option net.SslConfig) → (listener u s).url ≡ u
  pub url-target : (u : net.Url) (s : Option net.SslConfig) → (target u s).url ≡ u
