-- ===== src/Work/Examples.antt =====
-- The executor and the dispatcher on a runtime with one task, and their theorems there.
use gaudere_agent.Prelude.{
  List, Option, is_some, ◌&&◌, ◌||◌, if◌then◌else◌, empty, not, ap, sym, arith, ◌≡◌, refl, Bool,
  true, false, none, some, [], ◌∷◌,
}
use gaudere_agent.Text.Laws.{eqb_iff}
use gaudere_agent.Text.{Text, eqb, text}
use gaudere_agent.Effects.{Result, raised, ok, M, pure, ◌>>=◌, catch}
use gaudere_agent.Effects.Logged.{World, Post, quiet, logged, note}
use gaudere_agent.Work.Task.{Task, running, HandlerOutcome, handler_result}
use gaudere_agent.Work.Runtime.{Runtime, Laws, FinishResult, finished, unavailable}
use gaudere_agent.Work.Executor.{
  Event, ran, returned, closed, manual, requires_review, Handler, execute, after_find, run_handler,
  after_handler, record_outcome, conclude, review,
}
use gaudere_agent.Work.Dispatcher.{
  Registry, lookup, register_handler, accepted_kinds, dispatch_result, dispatch_one,
}
use gaudere_agent.Work.Dispatcher.Routes.{listed, register_handler-lookup, dispatch_one-routes}
use gaudere_agent.Work.Executor.Outcome.{Stopped, Ended, execute_records}

-- The world is whether the task is terminal; every finishing call closes it once.
abbrev close : M Bool Bool
close true = (ok false, true)
close false = (ok true, true)

abbrev finish : M Bool FinishResult
finish true = (ok unavailable, true)
finish false = (ok finished, true)

abbrev task : Task
task = record {
  id = [];
  idempotency_key = [];
  kind = [];
  status = running;
  input_content_type = [];
  input = [];
  max_output_bytes = 100;
  max_runtime = 10;
}

abbrev one_task : Runtime Bool
one_task = record {
  is_running = pure true;
  start = λ id worker. pure true;
  find = λ id. pure (some task);
  succeed = λ i o c mc m. finish;
  fail = λ i c m mc md. close;
  mark_cancelled = λ i. close;
  request_cancel = λ i r. pure true;
  require_manual_review = λ i c m mc md. close;
  find_pending_for = λ kinds. pure none;
  recover_expired = pure tt;
  request_shutdown = pure tt;
  next_recovery_at = pure none;
}

close_ends : (w : Bool) → (close w).1 ≡ true
close_ends true = refl
close_ends false = refl

finish_ends : (w : Bool) → (finish w).1 ≡ true
finish_ends true = refl
finish_ends false = refl

one_task_laws : Laws one_task
one_task_laws = record {
  terminal = λ id w. w;
  succeed_finishes = λ i o c mc m w e. finish_ends w;
  fail_finishes = λ i c m mc md w e. close_ends w;
  cancel_finishes = λ i w e. close_ends w;
  review_finishes = λ i c m mc md w e. close_ends w;
}

-- A handler that succeeds with no content type.
abbrev careless : Handler Bool
careless context = pure (handler_result HandlerOutcome.succeeded [] [] [] [])

abbrev fresh : World Bool Event
fresh = record { ext = false; log = [] }

-- Its success is not recorded as one.
careless_reviewed :
    (execute one_task [] [] careless none fresh).1.log
    ≡ closed [] (
        manual
          (text "invalid_handler_result")
          (text "successful handler result has no content type")
          []
          [])
      ∷ returned [] (ok (handler_result HandlerOutcome.succeeded [] [] [] []))
      ∷ ran []
      ∷ []
unfolding execute after_find run_handler after_handler record_outcome conclude review
    requires_review quiet logged note catch ◌>>=◌ text
careless_reviewed = refl

execute_records_example :
    Post
      (Stopped one_task one_task_laws [] [])
      (Ended one_task one_task_laws [] [])
      (execute one_task [] [] careless none fresh)
execute_records_example = execute_records one_task one_task_laws [] [] careless none fresh

-- A registry with one handler, which the pending task of `waiting` is for.
abbrev kind_a : Text
kind_a = b'a' ∷ []

abbrev kind_b : Text
kind_b = b'b' ∷ []

abbrev registry : Registry Bool
registry = (kind_a, careless) ∷ []

register_handler-lookup_example :
    ((register_handler registry kind_b careless).1
      ≡ not (empty kind_b || is_some (lookup kind_b registry)))
    × (lookup kind_a (register_handler registry kind_b careless).0 ≡ (
        if not (empty kind_b || is_some (lookup kind_b registry)) && eqb kind_a kind_b
        then some careless
        else lookup kind_a registry))
register_handler-lookup_example = register_handler-lookup registry kind_b careless kind_a

-- The first listed kind has a pending task.
abbrev first_kind : List Text → Option Task
first_kind [] = none
first_kind (kind ∷ rest) = some (record task { kind = kind })

abbrev waiting : Runtime Bool
waiting = record one_task { find_pending_for = λ kinds w. (ok (first_kind kinds), w) }

abbrev kind_of : Option Task → Text
kind_of none = []
kind_of (some t) = t.kind

abbrev given : Result (Option Task) → Option Task
given (ok t) = t
given (raised e) = none

first_listed :
    (kinds : List Text) (t : Task) → first_kind kinds ≡ some t → listed t.kind kinds ≡ true
first_listed [] t e = cc
first_listed (kind ∷ rest) t e = ground (arith, (eqb_iff t.kind kind).1 (sym (ap kind_of e)))

waiting_law :
    (kinds : List Text) (w w' : Bool) (t : Task)
    → waiting.find_pending_for kinds w ≡ (ok (some t), w')
    → listed t.kind kinds ≡ true
waiting_law kinds w w' t e = first_listed kinds t (ap (λ out. given out.0) e)

dispatch_one-routes_example :
    (h : Handler Bool) × (lookup kind_a registry ≡ some h)
    × (dispatch_one waiting registry (b'w' ∷ []) none fresh
        ≡ (execute waiting [] (b'w' ∷ []) h none >>= λ result. pure (dispatch_result result))
            (record fresh { ext = false }))
unfolding accepted_kinds
dispatch_one-routes_example =
    dispatch_one-routes waiting waiting_law registry (b'w' ∷ []) none fresh
      (record task { kind = kind_a }) false refl refl
