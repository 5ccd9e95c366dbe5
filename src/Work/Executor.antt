-- ===== src/Work/Executor.antt =====
-- TaskExecutor of src/TaskExecutor.cpp: start one task, run its handler, and record the outcome. The log
-- records the handler's run and the finishing calls that the runtime accepted; the code does not read it.
pub mod Outcome
use gaudere_agent.Prelude.{
  ℕ, ◌≡◌, Bool, true, false, not, ◌&&◌, ◌||◌, Option, none, some, List, [], ◌∷◌, if◌then◌else◌,
  empty, holds,
}
use gaudere_agent.Text.{Text, text}
use gaudere_agent.Effects.{
  Exception, standard, non_standard, Result, ok, raised, M, pure, catch, ◌>>=◌, ◌>>◌,
}
use gaudere_agent.Effects.Logged.{World, quiet, logged, note}
use gaudere_agent.Work.Task.{Task, TaskStatus, HandlerOutcome, HandlerResult}
use gaudere_agent.Work.Runtime.{Runtime, FinishResult, finished, unavailable}

pub data ExecuteResult : Type 0 where
  completed not_startable state_conflict : ExecuteResult

-- A finishing call of the runtime, with its arguments after the task's id.
pub data Closure : Type 0 where
  -- succeed: output, content type, metadata content type, metadata
  success : Text → Text → Text → Text → Closure
  -- fail: code, message, metadata content type, metadata
  failure : Text → Text → Text → Text → Closure
  -- mark_cancelled
  cancellation : Closure
  -- require_manual_review: code, message, metadata content type, metadata
  manual : Text → Text → Text → Text → Closure

pub data Event : Type 0 where
  -- the handler ran on this task
  ran : Text → Event
  -- the handler returned or threw
  returned : Text → Result HandlerResult → Event
  -- the runtime accepted this finishing call for this task
  closed : Text → Closure → Event

-- `value.empty() ? other : value`
abbrev pub or_else : Text → Text → Text
or_else value other = if empty value then other else value

-- `context` of the handler: the task and the cancellation probe, which reads the store and then the
-- worker's stop probe, if there is one.
pub record TaskContext (S : Type 0) : Type 0 where
  pub task : Task
  pub cancellation_requested : M S Bool

abbrev pub Handler : Type 0 → Type 0
Handler W = TaskContext W → M W HandlerResult

abbrev is_cancel_requested : TaskStatus → Bool
is_cancel_requested TaskStatus.cancel_requested = true
is_cancel_requested _ = false

abbrev pub same_emptiness : Text → Text → Bool
same_emptiness a b = if empty a then empty b else not (empty b)

abbrev pub is_finished : FinishResult → Bool
is_finished unavailable = false
is_finished finished = true

-- What the log records of a finishing call, by its answer.
abbrev pub accept_event : Text → Closure → Bool → List Event → List Event
accept_event id c true l = closed id c ∷ l
accept_event id c false l = l

abbrev pub finish_event : Text → Closure → FinishResult → List Event → List Event
finish_event id c finished l = closed id c ∷ l
finish_event id c unavailable l = l

module _ {W : Type 0} (rt : Runtime W) where
  open rt use {start, find, succeed, fail, mark_cancelled, request_cancel, require_manual_review}

  abbrev pub S : Type 0
  S = World W Event

  -- worker_stop_requested && worker_stop_requested()
  unfoldable pub worker_stops : Option (M W Bool) → M W Bool
  worker_stops none = pure false
  worker_stops (some probe) = probe

  unfoldable pub durable_cancellation_requested : Text → M W Bool
  durable_cancellation_requested id = do
    task ← find id
    pure (holds (λ t. is_cancel_requested t.status) task)

  unfoldable pub cancellation_probe : Text → Option (M W Bool) → M W Bool
  unfolding worker_stops durable_cancellation_requested
  cancellation_probe id stop = do
    requested ← durable_cancellation_requested id
    if requested then pure true else worker_stops stop

  -- The finishing calls, recorded where the runtime accepted them.
  unfoldable pub succeeds : Text → Text → Text → Text → Text → M S FinishResult
  succeeds id o c mc m = logged (finish_event id (success o c mc m)) (succeed id o c mc m)

  unfoldable pub fails : Text → Text → Text → Text → Text → M S Bool
  fails id c m mc md = logged (accept_event id (failure c m mc md)) (fail id c m mc md)

  unfoldable pub marks_cancelled : Text → M S Bool
  marks_cancelled id = logged (accept_event id cancellation) (mark_cancelled id)

  unfoldable pub requires_review : Text → Text → Text → Text → Text → M S Bool
  requires_review id c m mc md =
      logged (accept_event id (manual c m mc md)) (require_manual_review id c m mc md)

  unfoldable pub conclude : Bool → M S ExecuteResult
  conclude accepted = if accepted then pure completed else pure state_conflict

  unfoldable pub review : Text → Text → Text → Text → Text → M S ExecuteResult
  review id code message metadata_content_type metadata = do
    accepted ← requires_review id code message metadata_content_type metadata
    conclude accepted

  abbrev pub invalid : Text → Text → M S ExecuteResult
  invalid id message = review id (text "invalid_handler_result") message (text "") (text "")

  -- The second attempt to close a cancelled task, after a request made by the worker's stop.
  unfoldable pub cancel_after_request : Text → M S ExecuteResult
  cancel_after_request id = do
    requested ← quiet (request_cancel id (text "worker shutdown requested"))
    if not requested
        then pure state_conflict
        else (do accepted ← marks_cancelled id; conclude accepted)

  unfoldable pub cancel : Text → Option (M W Bool) → M S ExecuteResult
  cancel id stop = do
    accepted ← marks_cancelled id
    if accepted then pure completed else (do
      stopping ← quiet (worker_stops stop)
      if stopping
          then cancel_after_request id
          else invalid id
              (text "handler returned cancelled without a durable cancellation request"))

  -- The `switch` on the outcome.
  unfoldable pub record_outcome :
      HandlerOutcome → Text → Option (M W Bool) → HandlerResult → M S ExecuteResult
  record_outcome HandlerOutcome.succeeded id stop r =
      if empty r.content_type
      then invalid id (text "successful handler result has no content type")
      else (do
        result ← succeeds id r.output r.content_type r.metadata_content_type r.metadata
        conclude (is_finished result))
  record_outcome HandlerOutcome.failed id stop r = do
    accepted ←
        fails id (or_else r.failure_code (text "handler_failed")) r.failure_message
          r.metadata_content_type r.metadata
    conclude accepted
  record_outcome HandlerOutcome.cancelled id stop r =
      if not (empty r.metadata)
      then invalid id (text "cancelled handler result unexpectedly carries metadata")
      else cancel id stop
  record_outcome HandlerOutcome.manual_review id stop r =
      review id (or_else r.failure_code (text "external_effect_unknown")) r.failure_message
        r.metadata_content_type r.metadata

  unfoldable pub after_handler : Text → Option (M W Bool) → Result HandlerResult → M S ExecuteResult
  after_handler id stop (raised (standard what)) =
      review id (text "handler_exception") what (text "") (text "")
  after_handler id stop (raised non_standard) =
      review id (text "handler_exception") (text "handler threw a non-standard exception") (text "")
        (text "")
  after_handler id stop (ok r) =
      if not (same_emptiness r.metadata_content_type r.metadata)
      then invalid id (text "handler result metadata content type/payload pair is incomplete")
      else record_outcome r.outcome id stop r

  -- try { handler.execute(context) } catch (…)
  unfoldable pub run_handler :
      Handler W → Text → Option (M W Bool) → Task → M S (Result HandlerResult)
  run_handler handler id stop task = do
    note (ran id)
    r ←
        catch
          (quiet (
              handler (record { task = task; cancellation_requested = cancellation_probe id stop }))
            >>= λ r. pure (ok r))
          (λ e. pure (raised e))
    note (returned id r) >> pure r

  unfoldable pub after_find : Handler W → Text → Option (M W Bool) → Option Task → M S ExecuteResult
  after_find handler id stop none = pure state_conflict
  after_find handler id stop (some task) = do
    r ← run_handler handler id stop task
    after_handler id stop r

  unfoldable pub execute : Text → Text → Handler W → Option (M W Bool) → M S ExecuteResult
  execute id worker handler stop = do
    started ← quiet (start id worker)
    if not started
        then pure not_startable
        else (do task ← quiet (find id); after_find handler id stop task)
