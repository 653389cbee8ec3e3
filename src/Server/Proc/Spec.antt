-- ===== src/Server/Proc/Spec.antt =====
-- What the server's processor promises, apart from how it keeps the pending requests: they are a
-- map from identifiers, and which request that waits expires, and when, is left open.
use pro_sa_hyper.Common.{
  ℕ, ◌≡◌, ◌≢◌, ◌==◌, if◌then◌else◌, Option, none, some, List, [], ◌∷◌, ◌++◌, Bool, true, false,
}
use pro_sa_hyper.Prosa.{
  Messages, request, response, error, command, config, service, shutdown, unable_to_reach_service,
  timeout,
}
use pro_sa_hyper.Server.Proc.{
  Effect, returned, returned_error, sent, dropped, spawned, terminated, removed, Status, running,
  finished, failed, panicked, Event, internal, http, accept, expire,
}

module _ {M : Type 0} (ms : Messages M) where
  -- The requests that wait, by identifier.
  abbrev pub Waits : Type 0
  Waits = ℕ → Option ms.RequestMsg

  abbrev pub without : ℕ → Waits → Waits
  without i w j = if j == i then none else w j

  abbrev pub holding : ℕ → ms.RequestMsg → Waits → Waits
  holding i m w j = if j == i then some m else w j

  -- One step, with the timeout that is reported, in milliseconds, and the sender that is given to
  -- the services: from a table and the waiting requests, by an event, to those after it, with the
  -- effects and the status.
  pub data Step (timeout_ms : ℕ) (queue : ms.Sender) (table : ms.ServiceTable) (w : Waits)
      : Event ms → ms.ServiceTable → Waits → List (Effect ms) → Status → Type 0 where
    response_answers :
        {m : ms.ResponseMsg} {ok? : Bool} {r : ms.RequestMsg} {d : M}
        → w (ms.response_id m) ≡ some r
        → ms.response_data m ≡ some d
        → Step timeout_ms queue table w
            (internal (response m) ok?)
            table
            (without (ms.response_id m) w)
            (returned r d ∷ [])
            running
    response_empty :
        {m : ms.ResponseMsg} {ok? : Bool} {r : ms.RequestMsg}
        → w (ms.response_id m) ≡ some r
        → ms.response_data m ≡ none
        → Step timeout_ms queue table w
            (internal (response m) ok?)
            table
            (without (ms.response_id m) w)
            (dropped r ∷ [])
            running
    response_late :
        {m : ms.ResponseMsg} {ok? : Bool}
        → w (ms.response_id m) ≡ none
        → Step timeout_ms queue table w (internal (response m) ok?) table w [] running
    error_answers :
        {m : ms.ErrorMsg} {ok? : Bool} {r : ms.RequestMsg}
        → w (ms.error_id m) ≡ some r
        → Step timeout_ms queue table w
            (internal (error m) ok?)
            table
            (without (ms.error_id m) w)
            (returned_error r (ms.error_data m) (ms.into_err m) ∷ [])
            running
    error_late :
        {m : ms.ErrorMsg} {ok? : Bool}
        → w (ms.error_id m) ≡ none
        → Step timeout_ms queue table w (internal (error m) ok?) table w [] running
    table_changes :
        {next : ms.ServiceTable} {ok? : Bool}
        → Step timeout_ms queue table w (internal (service next) ok?) next w [] running
    request_panics :
        {m : ms.RequestMsg} {ok? : Bool}
        → Step timeout_ms queue table w (internal (request m) ok?) table w [] panicked
    command_panics :
        {ok? : Bool} → Step timeout_ms queue table w (internal command ok?) table w [] panicked
    config_panics :
        {ok? : Bool} → Step timeout_ms queue table w (internal config ok?) table w [] panicked
    stops :
        Step timeout_ms queue table w
          (internal shutdown true)
          table
          w
          (terminated ∷ removed ∷ [])
          finished
    stop_fails :
        Step timeout_ms queue table w (internal shutdown false) table w (terminated ∷ []) failed
    forwards :
        {m : ms.RequestMsg} {i : ℕ} {svc : ms.ProcService} {d : M}
        → ms.get_proc_service table (ms.get_service m) ≡ some svc
        → (ms.take_data m).0 ≡ some d
        → Step timeout_ms queue table w
            (http m i true)
            table
            (holding i (ms.take_data m).1 w)
            (sent svc (ms.new_request i (ms.get_service m) d queue) ∷ [])
            running
    forward_fails :
        {m : ms.RequestMsg} {i : ℕ} {svc : ms.ProcService} {d : M}
        → ms.get_proc_service table (ms.get_service m) ≡ some svc
        → (ms.take_data m).0 ≡ some d
        → Step timeout_ms queue table w
            (http m i false)
            table
            w
            (dropped (ms.take_data m).1 ∷ [])
            failed
    rejects_unknown :
        {m : ms.RequestMsg} {i : ℕ} {ok? : Bool}
        → ms.get_proc_service table (ms.get_service m) ≡ none
        → Step timeout_ms queue table w
            (http m i ok?)
            table
            w
            (returned_error
                (ms.take_data m).1
                (ms.take_data m).0
                (unable_to_reach_service (ms.get_service m))
              ∷ [])
            running
    rejects_empty :
        {m : ms.RequestMsg} {i : ℕ} {ok? : Bool} {svc : ms.ProcService}
        → ms.get_proc_service table (ms.get_service m) ≡ some svc
        → (ms.take_data m).0 ≡ none
        → Step timeout_ms queue table w
            (http m i ok?)
            table
            w
            (returned_error
                (ms.take_data (ms.take_data m).1).1
                none
                (unable_to_reach_service (ms.get_service m))
              ∷ [])
            running
    accepts : Step timeout_ms queue table w (accept true) table w (spawned ∷ []) running
    accept_fails : Step timeout_ms queue table w (accept false) table w [] failed
    nothing_expires : {now : ℕ} → Step timeout_ms queue table w (expire now) table w [] running
    expires :
        {now i : ℕ} {r : ms.RequestMsg}
        → w i ≡ some r
        → Step timeout_ms queue table w
            (expire now)
            table
            (without i w)
            (returned_error
                (ms.take_data r).1
                (ms.take_data r).0
                (timeout (ms.get_service r) timeout_ms)
              ∷ [])
            running

  -- A sequence of steps, which a step that is not `running` ends.
  pub data Steps (timeout_ms : ℕ) (queue : ms.Sender)
      : ms.ServiceTable
        → Waits
        → List (Event ms)
        → ms.ServiceTable
        → Waits
        → List (Effect ms)
        → Status
        → Type 0 where
    done :
        {table : ms.ServiceTable} {w : Waits} → Steps timeout_ms queue table w [] table w [] running
    ends :
        {e : Event ms} {es : List (Event ms)} {table table' : ms.ServiceTable} {w w' : Waits}
        {fs : List (Effect ms)} {s : Status}
        → Step timeout_ms queue table w e table' w' fs s
        → s ≢ running
        → Steps timeout_ms queue table w (e ∷ es) table' w' fs s
    goes_on :
        {e : Event ms} {es : List (Event ms)} {table table' table'' : ms.ServiceTable}
        {w w' w'' : Waits} {fs gs : List (Effect ms)} {s : Status}
        → Step timeout_ms queue table w e table' w' fs running
        → Steps timeout_ms queue table' w' es table'' w'' gs s
        → Steps timeout_ms queue table w (e ∷ es) table'' w'' (fs ++ gs) s
