-- ===== src/Prosa.antt =====
-- What src/ uses of the `prosa` crate, which is not part of the repository: the two enumerations
-- that the code matches on (their constructors are those of the matches in src/server/adaptor.rs
-- and src/server/proc.rs), and an interface of the message types.
pub mod Pending
use pro_sa_hyper.Common.{ℕ, String, ◌≡◌, Option, none, some}

-- `prosa::core::service::ServiceError`.
pub data ServiceError : Type 0 where
  no_error : String → ServiceError
  unable_to_reach_service : String → ServiceError
  timeout : String → ℕ → ServiceError
  protocol_error : String → ServiceError

-- The messages of `prosa::core::msg` over the payload type `M`, and the service table.
-- A method that takes `&mut self` returns the changed message beside its result.
pub record Messages (M : Type 0) : Type 1 where
  pub RequestMsg : Type 0
  pub ResponseMsg : Type 0
  pub ErrorMsg : Type 0
  -- Where the answer to a request is sent.
  pub Sender : Type 0
  pub ServiceTable : Type 0
  pub ProcService : Type 0
  -- `RequestMsg::new`; the number is the identifier that the crate's counter gives.
  pub new_request : ℕ → String → M → Sender → RequestMsg
  pub get_id : RequestMsg → ℕ
  pub get_service : RequestMsg → String
  pub take_data : RequestMsg → Option M × RequestMsg
  pub sender : RequestMsg → Sender
  pub response_id : ResponseMsg → ℕ
  pub response_data : ResponseMsg → Option M
  pub error_id : ErrorMsg → ℕ
  pub error_data : ErrorMsg → Option M
  pub get_err : ErrorMsg → ServiceError
  pub into_err : ErrorMsg → ServiceError
  pub get_proc_service : ServiceTable → String → Option ProcService
  -- What `return_to_sender` and `return_error_to_sender` send.
  pub to_response : RequestMsg → M → ResponseMsg
  pub to_error : RequestMsg → Option M → ServiceError → ErrorMsg
  -- A new request carries what it was made of.
  pub get_id-new_request :
      (i : ℕ) (s : String) (m : M) (q : Sender) → get_id (new_request i s m q) ≡ i
  pub get_service-new_request :
      (i : ℕ) (s : String) (m : M) (q : Sender) → get_service (new_request i s m q) ≡ s
  pub take_data-new_request :
      (i : ℕ) (s : String) (m : M) (q : Sender) → (take_data (new_request i s m q)).0 ≡ some m
  pub sender-new_request :
      (i : ℕ) (s : String) (m : M) (q : Sender) → sender (new_request i s m q) ≡ q
  -- Taking the payload leaves the rest of the message, and no payload.
  pub get_service-take_data : (r : RequestMsg) → get_service (take_data r).1 ≡ get_service r
  pub sender-take_data : (r : RequestMsg) → sender (take_data r).1 ≡ sender r
  pub take_data_twice : (r : RequestMsg) → (take_data (take_data r).1).0 ≡ none
  -- An answer carries what it was made of, under the identifier of its request.
  pub response_id-to_response : (r : RequestMsg) (m : M) → response_id (to_response r m) ≡ get_id r
  pub response_data-to_response :
      (r : RequestMsg) (m : M) → response_data (to_response r m) ≡ some m
  pub error_id-to_error :
      (r : RequestMsg) (m : Option M) (e : ServiceError) → error_id (to_error r m e) ≡ get_id r
  pub error_data-to_error :
      (r : RequestMsg) (m : Option M) (e : ServiceError) → error_data (to_error r m e) ≡ m
  pub get_err-to_error :
      (r : RequestMsg) (m : Option M) (e : ServiceError) → get_err (to_error r m e) ≡ e
  pub into_err-to_error :
      (r : RequestMsg) (m : Option M) (e : ServiceError) → into_err (to_error r m e) ≡ e

-- `prosa::core::msg::InternalMsg`.
pub data InternalMsg {M : Type 0} (ms : Messages M) : Type 0 where
  request : ms.RequestMsg → InternalMsg ms
  response : ms.ResponseMsg → InternalMsg ms
  error : ms.ErrorMsg → InternalMsg ms
  command : InternalMsg ms
  config : InternalMsg ms
  service : ms.ServiceTable → InternalMsg ms
  shutdown : InternalMsg ms
