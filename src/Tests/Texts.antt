-- ===== src/Tests/Texts.antt =====
-- The texts of errors and responses at concrete values.
use pro_sa_hyper.Common.{ℕ, ◌≡◌, refl, String, [], ◌∷◌, err}
use pro_sa_hyper.Http.{
  http, srv_req, debug, display_http, HyperProcError, from_send_error, display_proc,
}
use pro_sa_hyper.Samples.{sample_messages, sample_http}

abbrev closed : HyperProcError String ℕ String
closed = from_send_error (λ s. s) "channel closed"

display-from_send_error :
    display_proc (λ s. s) (λ n. "hyper") (λ s. s) closed
    ≡ "Internal bus error: Failed to send message: channel closed"
unfolding display_proc from_send_error
display-from_send_error = refl

display-hyper :
    display_proc {Io = String} {Bus = String}
      (λ s. s)
      (λ (n : ℕ). "gone")
      (λ s. s)
      (HyperProcError.hyper 4 "host:80")
    ≡ "Hyper error[host:80]: `gone`"
unfolding display_proc
display-hyper = refl

display-http :
    display_http sample_http (λ e. "hyper") (λ e. "bad name") (http 3) ≡ "HTTP error: `bad name`"
unfolding display_http
display-http = refl

debug-srv_req :
    debug sample_messages sample_http ℕ
      (λ s. s)
      (λ m. "5")
      (λ r. "reply")
      (λ e. "error")
      (srv_req "SRV_TEST" 5 (λ a x. err (http 3)))
    ≡ ("SrvReq", "SRV_TEST" ∷ "5" ∷ "<handler>" ∷ [])
unfolding debug
debug-srv_req = refl
