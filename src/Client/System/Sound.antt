-- ===== src/Client/System/Sound.antt =====
-- What the tasks of the client's sockets are for, and how many there are.
use pro_sa_hyper.Common.{
  ℕ, suc, ◌==◌, ◌≡◌, ◌∙◌, refl, sym, ap, inl, inr, String, Option, none, some, List, [], ◌∷◌, ◌++◌,
  Bool, true, false, Result, ok, err, All, arith, length, Bool-cases,
}
use pro_sa_hyper.Prosa.{
  Messages, InternalMsg, request, response, error, command, config, service, shutdown,
}
use pro_sa_hyper.Http.{HttpApi}
use pro_sa_hyper.Net.{Net, TargetSetting}
use pro_sa_hyper.Client.Socket.{Socket, ClientAdaptor}
use pro_sa_hyper.Client.Proc
use pro_sa_hyper.Client.Proc.{Settings, create_sockets, spawn_all, gauge, halt, continue}
use pro_sa_hyper.Client.Proc.Targets.{IsBacked, create_sockets-IsBacked}
use pro_sa_hyper.Client.Task.{Task, opening, open1, open2, over, Orphan, TaskEvent}
use pro_sa_hyper.Client.System.{
  Event, at, join, internal, orphaned, System, new_tasks, abort, after_turn, on_turn, on_join,
  on_task, on_orphan, open_turn, closed_turn, turn, run, start,
}
use pro_sa_hyper.Client.System.Picks.{OfPick, pick-OfPick}
use pro_sa_hyper.Client.Task.Backed

module _ {M : Type 0} (ms : Messages M) (ha : HttpApi) (net : Net) (ad : ClientAdaptor ms ha net)
    (Io Bus : Type 0) (to_string : TargetSetting net → String) (s : Settings net) where
  abbrev IsTaskBacked : Task ms ha net ad Io Bus to_string → Type 0
  IsTaskBacked = Backed.IsTaskBacked ms ha net ad Io Bus to_string s

  -- How many tasks there are: as many as the processor counts, and none once it has ended.
  abbrev pub expected : Proc.Status → ℕ → ℕ
  expected Proc.Status.running n = n
  expected Proc.Status.finished n = 0
  expected Proc.Status.failed n = 0
  expected Proc.Status.panicked n = 0

  pub record IsSound (sys : System ms ha net ad Io Bus to_string) : Type 0 where
    pub counted : length sys.tasks ≡ expected sys.status sys.proc.live
    pub backed : All IsTaskBacked sys.tasks

  module _ (sys : System ms ha net ad Io Bus to_string) (i : IsSound sys) where
    running_counted : sys.status ≡ Proc.Status.running → length sys.tasks ≡ sys.proc.live
    running_counted r = i.counted ∙ ap (λ x. expected x sys.proc.live) r

    on_task-IsSound :
        (o : Option
          (Task ms ha net ad Io Bus to_string × List (Task ms ha net ad Io Bus to_string)))
        (e : TaskEvent ms ha net ad Io Bus to_string)
        → OfPick IsTaskBacked (length sys.tasks) o
        → IsSound (on_task ms ha net ad Io Bus to_string s sys o e).state
    unfolding on_task
    on_task-IsSound none e h = i
    on_task-IsSound (some (t, rest)) e h = record {
      counted = sym h.2 ∙ i.counted;
      backed = (Backed.step-IsTaskBacked ms ha net ad Io Bus to_string s t e h.0, h.1);
    }

    on_orphan-IsSound :
        (o : Option
          (Orphan ms ha net ad Io Bus to_string × List (Orphan ms ha net ad Io Bus to_string)))
        (x : Option (Result ha.Response ha.HyperCrateError))
        → IsSound (on_orphan ms ha net ad Io Bus to_string sys o x).state
    unfolding on_orphan
    on_orphan-IsSound none x = i
    on_orphan-IsSound (some ((su, (m, d)), rest)) x = record {
      counted = i.counted;
      backed = i.backed;
    }

    on_join-IsSound :
        (o : Option
          (Task ms ha net ad Io Bus to_string × List (Task ms ha net ad Io Bus to_string)))
        → sys.status ≡ Proc.Status.running
        → OfPick IsTaskBacked (length sys.tasks) o
        → IsSound (on_join ms ha net ad Io Bus to_string sys o).state
    unfolding on_join on_turn after_turn abort new_tasks Proc.turn
    on_join-IsSound none r h = i
    on_join-IsSound (some (opening k, rest)) r h = i
    on_join-IsSound (some (open1 su st, rest)) r h = i
    on_join-IsSound (some (open2 su st, rest)) r h = i
    on_join-IsSound (some (over (err j), rest)) r h = elim (Bool-cases (sys.proc.live == 0)) [
      | inl z ↦ rw z i
      | inr z ↦ rw z (record { counted = refl; backed = tt })
    ]
    on_join-IsSound (some (over (ok (err e)), rest)) r h = elim (Bool-cases (sys.proc.live == 0)) [
      | inl z ↦ rw z i
      | inr z ↦ rw z (record { counted = omega (arith, running_counted r, h.2); backed = h.1 })
    ]
    on_join-IsSound (some (over (ok (ok k)), rest)) r h = elim (Bool-cases (sys.proc.live == 0)) [
      | inl z ↦ rw z i
      | inr z ↦
          rw z (record { counted = ground (arith, running_counted r, h.2); backed = (h.0, h.1) })
    ]

    on_internal-IsSound :
        (m : InternalMsg ms) (ok? : Bool)
        → sys.status ≡ Proc.Status.running
        → IsSound
            (on_turn ms ha net ad Io Bus to_string sys sys.tasks
              (Proc.turn ms net (Unit {0}) (Unit {0}) sys.proc (Proc.Event.internal m ok?))).state
    unfolding on_turn after_turn abort new_tasks Proc.turn
    on_internal-IsSound (service table) ok? r = record {
      counted = running_counted r;
      backed = i.backed;
    }
    on_internal-IsSound shutdown true r = record { counted = refl; backed = tt }
    on_internal-IsSound shutdown false r = record { counted = refl; backed = tt }
    on_internal-IsSound (request m) ok? r = record { counted = refl; backed = tt }
    on_internal-IsSound (response m) ok? r = record { counted = refl; backed = tt }
    on_internal-IsSound (error m) ok? r = record { counted = refl; backed = tt }
    on_internal-IsSound command ok? r = record { counted = refl; backed = tt }
    on_internal-IsSound config ok? r = record { counted = refl; backed = tt }

    open_turn-IsSound :
        (e : Event ms ha net ad Io Bus to_string)
        → sys.status ≡ Proc.Status.running
        → IsSound (open_turn ms ha net ad Io Bus to_string s sys e).state
    unfolding open_turn
    open_turn-IsSound (at n e) r =
        on_task-IsSound _ e (pick-OfPick IsTaskBacked n sys.tasks i.backed)
    open_turn-IsSound (join n) r =
        on_join-IsSound _ r (pick-OfPick IsTaskBacked n sys.tasks i.backed)
    open_turn-IsSound (internal m ok?) r = on_internal-IsSound m ok? r
    open_turn-IsSound (orphaned k x) r = on_orphan-IsSound _ x

    closed_turn-IsSound :
        (e : Event ms ha net ad Io Bus to_string)
        → IsSound (closed_turn ms ha net ad Io Bus to_string sys e).state
    unfolding closed_turn
    closed_turn-IsSound (orphaned k x) = on_orphan-IsSound _ x
    closed_turn-IsSound (at n e) = i
    closed_turn-IsSound (join n) = i
    closed_turn-IsSound (internal m ok?) = i

    turn-IsSound :
        (e : Event ms ha net ad Io Bus to_string) (u : Proc.Status)
        → sys.status ≡ u
        → IsSound (turn ms ha net ad Io Bus to_string s sys e).state
    unfolding turn
    turn-IsSound e Proc.Status.running r = simp (r, turn) (open_turn-IsSound e r)
    turn-IsSound e Proc.Status.finished r = simp (r, turn) (closed_turn-IsSound e)
    turn-IsSound e Proc.Status.failed r = simp (r, turn) (closed_turn-IsSound e)
    turn-IsSound e Proc.Status.panicked r = simp (r, turn) (closed_turn-IsSound e)

  run-IsSound_from :
      (sys : System ms ha net ad Io Bus to_string) (es : List (Event ms ha net ad Io Bus to_string))
      → IsSound sys
      → IsSound (run ms ha net ad Io Bus to_string s sys es).state
  unfolding run
  run-IsSound_from sys [] i = i
  run-IsSound_from sys (e ∷ es) i =
      run-IsSound_from (turn ms ha net ad Io Bus to_string s sys e).state es
        (turn-IsSound sys i e sys.status refl)

  new_tasks-IsTaskBacked :
      (ks : List (Socket net)) (n : ℕ)
      → All (IsBacked net s) ks
      → All IsTaskBacked (
          new_tasks ms ha net ad Io Bus to_string
            (spawn_all ms net (Unit {0}) (Unit {0}) ks ++ gauge n ∷ [])
          ++ [])
  unfolding new_tasks spawn_all
  new_tasks-IsTaskBacked [] n a = tt
  new_tasks-IsTaskBacked (k ∷ ks) n a = (a.0, new_tasks-IsTaskBacked ks n a.1)

  length-new_tasks :
      (ks : List (Socket net)) (n : ℕ)
      → length (
          new_tasks ms ha net ad Io Bus to_string
            (spawn_all ms net (Unit {0}) (Unit {0}) ks ++ gauge n ∷ [])
          ++ [])
        ≡ length ks
  unfolding new_tasks spawn_all
  length-new_tasks [] n = refl
  length-new_tasks (k ∷ ks) n = ap suc (length-new_tasks ks n)

  start-IsSound :
      (adapted? added? : Bool) (st : Proc.State ms net (Unit {0}) (Unit {0}))
      → IsSound (start ms ha net ad Io Bus to_string s adapted? added? st).state
  unfolding start after_turn abort Proc.start
  start-IsSound false added? st = record { counted = refl; backed = tt }
  start-IsSound true false st = record { counted = refl; backed = tt }
  start-IsSound true true st = by_backends s.backends
    where
      ks : List (Socket net)
      ks = create_sockets net s.backends s.min_socket s.http_timeout

      by_backends :
          (ts : List (TargetSetting net))
          → IsSound
              (after_turn ms ha net ad Io Bus to_string [] [] (elim ts [
                | [] ↦ halt ms net (Unit {0}) (Unit {0}) st [] Proc.Status.failed
                | t ∷ us ↦
                    continue ms net
                      (Unit {0})
                      (Unit {0})
                      (record st { live = length ks })
                      (spawn_all ms net (Unit {0}) (Unit {0}) ks ++ gauge (length ks) ∷ [])
              ])).state
      by_backends [] = record { counted = refl; backed = tt }
      by_backends (t ∷ us) = record {
        counted = length-new_tasks ks (length ks);
        backed =
            new_tasks-IsTaskBacked ks (length ks)
              (create_sockets-IsBacked net s s.backends s.min_socket (λ u h. h));
      }

  -- From the start, through any interleaving of the processor, its sockets' tasks and their requests,
  -- there are as many tasks as the processor counts while it runs, and none once it has ended; each
  -- task is for a backend of the settings, with the target and the timeout that a new socket for it has, or has ended with such a
  -- socket or an error.
  pub run-IsSound :
      (adapted? added? : Bool) (st : Proc.State ms net (Unit {0}) (Unit {0}))
      (es : List (Event ms ha net ad Io Bus to_string))
      → IsSound
          (run ms ha net ad Io Bus to_string s
            (start ms ha net ad Io Bus to_string s adapted? added? st).state
            es).state
  run-IsSound adapted? added? st es = run-IsSound_from _ es (start-IsSound adapted? added? st)
