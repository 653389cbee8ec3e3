-- ===== src/Integration/Refused.antt =====
-- What becomes of the message that the tests of src/tests.rs inject.
use pro_sa_hyper.Common.{◌≡◌, ◌∙◌, ap, refl, some, ok, err, arith}
use pro_sa_hyper.Prosa.{Messages, protocol_error}
use pro_sa_hyper.Http.{Family, unix, windows, other_family, product_version_header, HttpApi}
use pro_sa_hyper.Net.{Net}
use pro_sa_hyper.Client.Socket.{ClientAdaptor}
use pro_sa_hyper.Examples.Crates.{Tvf, Web}
use pro_sa_hyper.Integration.{
  TestAdaptor, check, process_request, service_message, injected_message, client_adaptor,
}
use pro_sa_hyper.Integration.Crates.{Numbers, Posts}

module _ {M : Type 0} (ms : Messages M) (ha : HttpApi) (net : Net) (tvf : Tvf M) (web : Web ha net)
    (numbers : Numbers tvf) (posts : Posts ha net web) (f : Family) where
  abbrev pub client : TestAdaptor → ClientAdaptor ms ha net
  client = client_adaptor ms ha net tvf web numbers posts f

  abbrev pub injected : M
  injected = injected_message ms ha net tvf web numbers posts f

  abbrev pub sent_message : ha.Request → M
  sent_message = service_message ms ha net tvf web numbers posts f

  -- The header of the product is not in the case that the stub wants.
  refused_agent :
      (g : Family)
      → check ms ha net tvf web numbers posts f
          (ok "Hello, ProSA Hyper! This is an injected message")
          (ok (product_version_header g))
        ≡ err (protocol_error "Invalid request content")
  refused_agent unix = refl
  refused_agent windows = refl
  refused_agent other_family = refl

  -- The request for the injected message carries it, with the header of the product.
  injected_request :
      (a : TestAdaptor) (url : net.Url) (req : ha.Request)
      → web.IsWeb url
      → (client a).process_srv_request injected url ≡ ok req
      → (posts.user_agent req ≡ some (product_version_header f))
        × (posts.request_text req ≡ some "Hello, ProSA Hyper! This is an injected message")
  unfolding client_adaptor injected_message
  injected_request a url req h asked =
      let (r, e, agent, text) =
        posts.post f url "Hello, ProSA Hyper! This is an injected message" h in
      let made =
        rw
          (
            tvf.get_string-put_string 1 "Hello, ProSA Hyper! This is an injected message"
                tvf.default,
            e,
          )
          at asked in
      (ap posts.user_agent (ground arith) ∙ agent, ap posts.request_text (ground arith) ∙ text)

  -- The stub of the tests refuses every message that they inject: the client sends the product's
  -- `User-Agent`, in lower case, and the stub asks for it in another.
  pub process_request-injected :
      (a : TestAdaptor) (url : net.Url) (req : ha.Request)
      → web.IsWeb url
      → (client a).process_srv_request injected url ≡ ok req
      → process_request ms ha net tvf web numbers posts f (sent_message req)
        ≡ err (protocol_error "Invalid request content")
  unfolding process_request service_message
  process_request-injected a url req h asked =
      let (agent, text) = injected_request a url req h asked in
      simp
        (
          agent,
          text,
          tvf.get_string-put_string,
          tvf.get_string-put_string_ne 2 1 "Hello, ProSA Hyper! This is an injected message"
              (tvf.put_string 2 (product_version_header f) tvf.default) (λ e. omega (arith, e)),
        )
        (refused_agent f)
