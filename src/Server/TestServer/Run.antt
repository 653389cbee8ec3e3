-- ===== src/Server/TestServer/Run.antt =====
-- The loop of `run_test` of src/server.rs, against the server of the tests.
use pro_sa_hyper.Common.{
  ℕ, zero, suc, ◌≡◌, refl, ap, Option, none, some, true, Result, ok, err, arith,
}
use pro_sa_hyper.Prosa.{Messages}
use pro_sa_hyper.Http.{
  Family, unix, windows, other_family, product_version_header, HttpApi, HttpError, Version,
}
use pro_sa_hyper.Server.Adaptor.Answers.{IsAnswer, response_builder-IsAnswer}
use pro_sa_hyper.Server.Service.{Call, process_call}
use pro_sa_hyper.Server.Service.Counted.{process_call-from_result}
use pro_sa_hyper.Server.TestServer.{
  resp_msg, test_process, test_adaptor, is_ours, asserts, requests, run_test,
}

is_ours-header : (f : Family) → is_ours (some (product_version_header f)) ≡ true
is_ours-header unix = refl
is_ours-header windows = refl
is_ours-header other_family = refl

module _ (ha : HttpApi) where
  -- The response of a call, if it is one.
  abbrev pub responded : Result ha.Response (HttpError ha) → Option ha.Response
  responded (ok r) = some r
  responded (err e) = none

  asserts-IsAnswer : (f : Family) (r : ha.Response) → IsAnswer ha f 200 r → asserts ha r ≡ true
  unfolding asserts
  asserts-IsAnswer f r a = simp (a.status, a.server, is_ours-header f) refl

  requests_pass :
      (get : ℕ → Option ha.Response)
      → ((i : ℕ) → (r : ha.Response) × (get i ≡ some r) × (asserts ha r ≡ true))
      → (n i : ℕ) → requests ha get n i ≡ some tt
  unfolding requests
  requests_pass get h zero i = refl
  requests_pass get h (suc n) i =
      let (r, e, a) = h i in rw (requests, e, a) (requests_pass get h n (suc i))

module _ {M : Type 0} (ms : Messages M) (ha : HttpApi) (version : ha.Request → Version)
    (f : Family) where
  -- The test passes: none of its twenty requests, whatever they are and whatever the processor does,
  -- makes it panic, if each is answered as the server of the tests answers it.
  pub run_test_passes :
      (calls : ℕ → Call ms ha (test_adaptor ms ha version f)) (reqs : ℕ → ha.Request)
      → run_test ha (λ i.
        responded ha (process_call ms ha (test_adaptor ms ha version f) (calls i) (reqs i)).0)
        ≡ some tt
  unfolding run_test test_adaptor test_process
  run_test_passes calls reqs =
      requests_pass ha
        (λ i. responded ha (process_call ms ha (test_adaptor ms ha version f) (calls i) (reqs i)).0)
        (λ i.
          let (r, e, a, b) =
            response_builder-IsAnswer ms ha f 200 (ha.full (resp_msg (version (reqs i))))
              (omega arith) (omega arith) in
          (
            r,
            ap (responded ha) (
                process_call-from_result ms ha (test_adaptor ms ha version f) (calls i) (reqs i)
                  (ok r) (rw e refl)),
            asserts-IsAnswer ha f r a,
          ))
        20 0
