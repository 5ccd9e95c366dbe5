-- ===== src/Work/Controller/Examples.antt =====
-- A controller over a queue of tasks, and the theorems about it.
use gaudere_agent.Prelude.{
  ℕ, zero, suc, ◌≤◌, ◌<◌, ◌≡◌, refl, arith, Bool, true, false, Option, none, some, List, [], ◌∷◌,
}
use gaudere_agent.Text.{Text, text, eqb}
use gaudere_agent.Effects.{ok, pure, ◌>>=◌, catch}
use gaudere_agent.Effects.Logged.{logged, World, quiet, note, Post}
use gaudere_agent.Work.Task.{Task, running, HandlerOutcome, handler_result}
use gaudere_agent.Work.Runtime.{Runtime, finished}
use gaudere_agent.Work.Executor.{
  requires_review, Event, Handler, execute, after_find, run_handler, after_handler, record_outcome,
  conclude, review,
}
use gaudere_agent.Work.Dispatcher.{
  dispatched, dispatch_one, dispatch_task, run_found, lookup, accepted_kinds,
}
use gaudere_agent.Work.Controller.{
  due, worked, stopped, Shared, Scheduler, Controller, load_stopping, load_started, enter_draining,
  conclude_drain, after_dispatch, drain, after_wait, after_block, wait_and_run,
  schedule_next_deadline, reconcile_wakes, request_deadline, schedule_wake, polled,
}
use gaudere_agent.Work.Controller.Drain.{Anywhere, Drains, Ended, drain-ends}
use gaudere_agent.Work.Controller.Stopping.{wait_and_run-drains, Told}

record Queue : Type 0 where
  pub waiting : ℕ
  pub draining : Bool

abbrev kind : Text
kind = b'k' ∷ []

abbrev task : Task
task = record {
  id = [];
  idempotency_key = [];
  kind = kind;
  status = running;
  input_content_type = [];
  input = [];
  max_output_bytes = 100;
  max_runtime = 10;
}

abbrev next_task : ℕ → Option Task
next_task zero = none
next_task (suc n) = some task

abbrev fewer : ℕ → ℕ
fewer zero = zero
fewer (suc n) = n

abbrev queue : Runtime (Shared Queue)
queue = record {
  is_running = pure true;
  start = λ id worker s. (
    ok true,
    record s { ext = record { waiting = fewer s.ext.waiting; draining = s.ext.draining } },
  );
  find = λ id. pure (some task);
  succeed = λ i o c mc m. pure finished;
  fail = λ i c m mc md. pure true;
  mark_cancelled = λ i. pure true;
  request_cancel = λ i r. pure true;
  require_manual_review = λ i c m mc md. pure true;
  find_pending_for = λ kinds s. (ok (next_task s.ext.waiting), s);
  recover_expired = pure tt;
  request_shutdown =
      λ s. (ok tt, record s { ext = record { waiting = s.ext.waiting; draining = true } });
  next_recovery_at = pure none;
}

abbrev echo : Handler (Shared Queue)
echo context = pure (handler_result HandlerOutcome.succeeded [] kind [] [])

abbrev quiet_scheduler : Scheduler (Shared Queue)
quiet_scheduler = record {
  wait = pure (some due);
  request_now = pure tt;
  request_at = λ t. pure tt;
  interrupt = pure tt;
  stop = pure tt;
}

abbrev controller : Controller Queue
controller = record {
  scheduler = quiet_scheduler;
  runtime = queue;
  handlers = (kind, echo) ∷ [];
  worker = kind;
  wake_runtime = none;
}

-- Two tasks wait; another thread stops the controller before the load that is given.
abbrev with_two : List Bool → World (Shared Queue) Event
with_two arrivals = record {
  ext = record {
    ext = record { waiting = 2; draining = false };
    started = true;
    stopping = false;
    arrivals = arrivals;
  };
  log = [];
}

abbrev waiting_of : World (Shared Queue) Event → ℕ
waiting_of s = s.ext.ext.waiting

polled_waiting :
    (arrivals : List Bool) (s : Shared Queue) → (polled arrivals s).1.ext.waiting ≤ s.ext.waiting
polled_waiting [] s = omega arith
polled_waiting (a ∷ rest) s = omega arith

dispatch-falls :
    (n : ℕ) (b started stopping : Bool) (arrivals : List Bool) (log : List Event)
    → (dispatch_one queue controller.handlers kind (some load_stopping) (record {
      ext = record {
        ext = record { waiting = n; draining = b };
        started = started;
        stopping = stopping;
        arrivals = arrivals;
      };
      log = log;
    })).0
      ≡ ok dispatched
    → waiting_of
        (dispatch_one queue controller.handlers kind (some load_stopping) (record {
          ext = record {
            ext = record { waiting = n; draining = b };
            started = started;
            stopping = stopping;
            arrivals = arrivals;
          };
          log = log;
        })).1
      < n
unfolding dispatch_one dispatch_task run_found lookup accepted_kinds execute after_find run_handler
    after_handler record_outcome conclude quiet logged requires_review note catch ◌>>=◌ eqb text
    review
dispatch-falls zero b started stopping arrivals log e = cc
dispatch-falls (suc n) b started stopping arrivals log e = omega arith

queue-Drains : Drains controller waiting_of
unfolding load_stopping quiet
queue-Drains = record {
  polls = λ s. polled_waiting s.ext.arrivals s.ext;
  falls = λ s e.
      dispatch-falls s.ext.ext.waiting s.ext.ext.draining s.ext.started s.ext.stopping
        s.ext.arrivals s.log e;
}

drain-ends_example : Ended (drain controller 3 false (with_two []))
drain-ends_example =
    drain-ends controller waiting_of queue-Drains 3 false (with_two []) (omega arith)

-- Both tasks are dispatched, and on less fuel than the theorem asks for the loop is not done.
both_dispatched :
    ((wait_and_run controller 3 (with_two [])).0 ≡ ok (some worked))
    × ((wait_and_run controller 2 (with_two [])).0 ≡ ok none)
unfolding dispatch_one dispatch_task run_found lookup accepted_kinds execute after_find run_handler
    after_handler record_outcome conclude quiet logged requires_review note catch ◌>>=◌ eqb text
    review load_stopping load_started conclude_drain after_dispatch drain after_wait after_block
    wait_and_run schedule_next_deadline reconcile_wakes request_deadline schedule_wake
both_dispatched = (refl, refl)

-- The stop arrives before the third load of the flag: nothing was dispatched yet.
stopped_early :
    (wait_and_run controller 3 (with_two (false ∷ false ∷ true ∷ []))).0 ≡ ok (some stopped)
unfolding dispatch_one dispatch_task run_found lookup accepted_kinds execute after_find run_handler
    after_handler record_outcome conclude quiet logged requires_review note catch ◌>>=◌ eqb text
    review load_stopping load_started conclude_drain after_dispatch drain after_wait after_block
    wait_and_run schedule_next_deadline reconcile_wakes request_deadline schedule_wake
    enter_draining
stopped_early = refl

wait_and_run-drains_example :
    Post Anywhere
      (Told controller (λ s. s.ext.draining) (λ s. refl))
      (wait_and_run controller 3 (with_two (false ∷ false ∷ true ∷ [])))
wait_and_run-drains_example =
    wait_and_run-drains controller (λ s. s.ext.draining) (λ s. refl) 3
      (with_two (false ∷ false ∷ true ∷ [])) refl
