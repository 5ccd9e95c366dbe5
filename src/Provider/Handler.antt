-- ===== src/Provider/Handler.antt =====
-- ProviderTaskHandler of src/ProviderTaskHandler.cpp: the outbound call of a task, behind a budget and a
-- durable marker. The log records what the budget and the marker call returned, and the calls of the
-- provider; the code does not read it.
use gaudere_agent.Prelude.{
  ℤ, Bool, true, false, List, ◌∷◌, not, ◌&&◌, ◌||◌, Option, none, some, ◌++◌, if◌then◌else◌, empty,
}
use gaudere_agent.Text.{Text, text}
use gaudere_agent.Effects.{
  Exception, standard, non_standard, Result, ok, raised, M, pure, catch, ◌>>=◌, ◌>>◌,
}
use gaudere_agent.Effects.Logged.{World, quiet, logged, note}
use gaudere_agent.Work.Task.{Task, HandlerOutcome, HandlerResult, handler_result}
use gaudere_agent.Provider.Api.{
  ActionStatus, EffectResult, confirmed, unknown, Action, SubmitResult, ConsumeResult,
  ProviderOutcome, ProviderResult, ProviderRequest, Api,
}

pub data Event : Type 0 where
  -- the budget admitted a call for this idempotency key
  consumed : Text → Event
  -- the effect marker of this action became durable
  marked : Text → Event
  -- the provider was invoked for this action and idempotency key
  invoked : Text → Text → Event

-- What the log records of a call, by the value that the call returned.
abbrev pub budget_event : Text → ConsumeResult → List Event → List Event
budget_event key ConsumeResult.accepted l = consumed key ∷ l
budget_event key ConsumeResult.duplicate l = consumed key ∷ l
budget_event key _ l = l

abbrev pub marker_event : Text → Bool → List Event → List Event
marker_event id false l = l
marker_event id true l = marked id ∷ l

unfoldable pub review : Text → Text → HandlerResult
review code message = handler_result HandlerOutcome.manual_review (text "") (text "") code message

unfoldable pub denied : Text → Text → HandlerResult
denied code message = handler_result HandlerOutcome.failed (text "") (text "") code message

unfoldable pub budget_denied : ConsumeResult → HandlerResult
unfolding review denied
budget_denied ConsumeResult.total_exhausted =
    denied (text "provider_budget_total_exhausted")
      (text "provider lifetime call budget is exhausted")
budget_denied ConsumeResult.window_exhausted =
    denied (text "provider_budget_window_exhausted")
      (text "provider rolling-window call budget is exhausted")
budget_denied ConsumeResult.cooldown =
    denied (text "provider_budget_cooldown") (text "provider minimum call interval has not elapsed")
budget_denied ConsumeResult.clock_rollback =
    review (text "provider_budget_clock_rollback")
      (text "system clock moved backwards relative to the durable provider budget")
budget_denied ConsumeResult.accepted =
    review (text "provider_budget_state_conflict")
      (text "provider budget returned an invalid admission result")
budget_denied ConsumeResult.duplicate =
    review (text "provider_budget_state_conflict")
      (text "provider budget returned an invalid admission result")

abbrev pub admitted : ConsumeResult → Bool
admitted ConsumeResult.accepted = true
admitted ConsumeResult.duplicate = true
admitted _ = false

abbrev is_confirmed : EffectResult → Bool
is_confirmed confirmed = true
is_confirmed _ = false

abbrev is_unknown : EffectResult → Bool
is_unknown unknown = true
is_unknown _ = false

abbrev is_succeeded : ActionStatus → Bool
is_succeeded ActionStatus.succeeded = true
is_succeeded _ = false

abbrev is_manual_review : ActionStatus → Bool
is_manual_review ActionStatus.manual_review = true
is_manual_review _ = false

abbrev is_running : ActionStatus → Bool
is_running ActionStatus.running = true
is_running _ = false

abbrev is_waiting : ActionStatus → Bool
is_waiting ActionStatus.pending = true
is_waiting ActionStatus.retry_wait = true
is_waiting _ = false

unfoldable pub valid_metadata_pair : ProviderResult → Bool
valid_metadata_pair r =
    if empty r.metadata_content_type then empty r.metadata else not (empty r.metadata)

-- `value.empty() ? other : value`
abbrev pub or_else : Text → Text → Text
or_else value other = if empty value then other else value

module _ {W : Type 0} (api : Api W) where
  open api use {
    provider_name, cancellation_requested, find_by_idempotency_key, budget_now, consume, submit,
    start, transition, record_effect_started, record_confirmed_result, record_unknown_result,
    invoke,
  }

  abbrev pub S : Type 0
  S = World W Event

  unfoldable pub budget_scope : Text
  budget_scope = text "provider.call:" ++ provider_name

  unfoldable pub action_id : Task → Text
  action_id task = (text "provider.call:" ++ provider_name) ++ (text ":" ++ task.id)

  unfoldable pub action_key : Task → Text
  action_key task = (text "provider.call:" ++ provider_name) ++ (text ":" ++ task.idempotency_key)

  unfoldable pub existing_action_result : Action → M S HandlerResult
  existing_action_result action =
      if is_succeeded action.status || is_confirmed action.effect_result
      then pure (
          review (text "provider_response_not_durable") (
            text
              "provider call was already confirmed but its response is not available in the task result"))
      else if is_manual_review action.status || is_unknown action.effect_result
      then (if is_running action.status && is_unknown action.effect_result
          then quiet (record_unknown_result action.id)
          else pure true)
        >> pure (
            review (text "provider_effect_unknown") (
              text
                "a previous provider attempt may have produced an external effect; automatic replay is forbidden"))
      else (if is_running action.status
          then quiet (transition action.id ActionStatus.manual_review)
          else if is_waiting action.status
          then quiet (transition action.id ActionStatus.failed_permanent)
          else pure true)
        >> pure (
            review (text "provider_action_already_exists") (
              text
                "a previous provider action exists without a durable task response; operator review is required"))

  -- The `switch` on the outcome of the call.
  unfoldable pub settle_as : ProviderOutcome → Text → ProviderResult → M S HandlerResult
  settle_as ProviderOutcome.succeeded id r = do
    kept ← quiet (record_confirmed_result id)
    pure (
        if not kept
        then review (text "provider_confirmation_persistence_failed")
            (text "provider succeeded but confirmation could not be persisted")
        else if empty r.content_type || not (valid_metadata_pair r)
        then review (text "invalid_provider_result")
            (text "successful provider result is structurally invalid")
        else record {
          outcome = HandlerOutcome.succeeded;
          content_type = r.content_type;
          output = r.output;
          failure_code = text "";
          failure_message = text "";
          metadata_content_type = r.metadata_content_type;
          metadata = r.metadata;
        })
  settle_as ProviderOutcome.rejected id r = do
    kept ← quiet (record_confirmed_result id)
    pure (
        if not kept
        then review (text "provider_confirmation_persistence_failed")
            (text "provider rejection was definite but confirmation could not be persisted")
        else if not (valid_metadata_pair r)
        then review (text "invalid_provider_result")
            (text "provider rejection metadata is structurally invalid")
        else record {
          outcome = HandlerOutcome.failed;
          content_type = text "";
          output = text "";
          failure_code = or_else r.failure_code (text "provider_rejected");
          failure_message = r.failure_message;
          metadata_content_type = r.metadata_content_type;
          metadata = r.metadata;
        })
  settle_as ProviderOutcome.effect_unknown id r = do
    kept ← quiet (record_unknown_result id)
    pure (
        if not kept
        then review (text "provider_unknown_persistence_failed")
            (text "provider result is ambiguous and the action could not be moved to manual review")
        else review (or_else r.failure_code (text "provider_effect_unknown")) (
            or_else r.failure_message
              (text "provider result is ambiguous; automatic replay is forbidden")))

  unfoldable pub settle : Text → ProviderResult → M S HandlerResult
  unfolding settle_as
  settle id r = settle_as r.outcome id r

  -- The exception of `invoke`, whose effect is unknown.
  unfoldable pub provider_threw : Text → Exception → M S HandlerResult
  provider_threw id (standard what) =
      quiet (record_unknown_result id) >> pure (review (text "provider_exception") what)
  provider_threw id non_standard =
      quiet (record_unknown_result id)
      >> pure (review (text "provider_exception") (text "provider threw a non-standard exception"))

  abbrev pub request : Task → ProviderRequest
  request task = record {
    idempotency_key = action_key task;
    content_type = task.input_content_type;
    input = task.input;
    max_output_bytes = task.max_output_bytes;
    max_runtime = task.max_runtime;
  }

  -- budget_.consume and action_runtime_.record_effect_started: recorded by what they returned.
  unfoldable pub consume_budget : Text → Text → ℤ → M S ConsumeResult
  consume_budget scope key now = logged (budget_event key) (consume scope key now)

  unfoldable pub mark_started : Text → M S Bool
  mark_started id = logged (marker_event id) (record_effect_started id)

  -- provider_.invoke: recorded before it runs, for it may throw.
  unfoldable pub invoke_provider : Text → ProviderRequest → M S ProviderResult
  invoke_provider id r = note (invoked id r.idempotency_key) >> quiet (invoke r)

  -- `try` covers the call alone: an exception of the switch leaves the handler.
  abbrev pub outcome_or_throw : M S ProviderResult → M S (Result ProviderResult)
  outcome_or_throw m = catch (m >>= λ r. pure (ok r)) (λ e. pure (raised e))

  unfoldable pub after_call : Task → Result ProviderResult → M S HandlerResult
  after_call task (ok r) = settle (action_id task) r
  after_call task (raised e) = provider_threw (action_id task) e

  -- The durable marker, and only then the call.
  unfoldable pub call_provider : Task → M S HandlerResult
  call_provider task = do
    persisted ← mark_started (action_id task)
    if not persisted
        then pure (
            review (text "provider_effect_marker_failed")
              (text "provider effect uncertainty could not be persisted before invocation"))
        else do
          r ← outcome_or_throw (invoke_provider (action_id task) (request task))
          after_call task r

  -- No external effect yet: a cancellation closes the action without a call.
  unfoldable pub started_action : Task → M S HandlerResult
  started_action task = do
    stop ← quiet (cancellation_requested task)
    if stop
        then (do
          closed ← quiet (transition (action_id task) ActionStatus.failed_permanent)
          pure (
              if not closed
              then review (text "provider_pre_call_cancel_state_conflict") (
                  text
                    "provider call was cancelled before invocation but the action could not be closed")
              else handler_result HandlerOutcome.cancelled (text "") (text "") (text "") (text "")))
        else call_provider task

  abbrev pub lost_duplicate : Option Action → M S HandlerResult
  lost_duplicate (some existing) = existing_action_result existing
  lost_duplicate none = pure (
      review (text "provider_action_state_conflict")
        (text "provider action became duplicate but cannot be reloaded"))

  unfoldable pub after_submit : Task → SubmitResult → M S HandlerResult
  after_submit task SubmitResult.duplicate = do
    existing ← quiet (find_by_idempotency_key (action_key task))
    lost_duplicate existing
  after_submit task SubmitResult.other_submit = pure (
      review (text "provider_action_unavailable")
        (text "provider action cannot be submitted in the current runtime state"))
  after_submit task SubmitResult.accepted = do
    running ← quiet (start (action_id task) (text "provider-handler") task.max_runtime)
    if not running
        then pure (
            review (text "provider_action_start_failed")
              (text "provider action could not enter the running state"))
        else started_action task

  abbrev pub budget_or_throw : Task → M S (Result ConsumeResult)
  budget_or_throw task =
      catch
        (do
          now ← quiet budget_now
          result ← consume_budget budget_scope (action_key task) now
          pure (ok result))
        (λ e. pure (raised e))

  unfoldable pub after_budget : Task → Result ConsumeResult → M S HandlerResult
  after_budget task (raised e) = pure (
      review (text "provider_budget_unavailable")
        (text "provider budget could not be checked and persisted before invocation"))
  after_budget task (ok result) = if not (admitted result) then pure (budget_denied result) else do
    submitted ← quiet (submit (action_id task) (action_key task) true)
    after_submit task submitted

  abbrev pub after_lookup : Task → Option Action → M S HandlerResult
  after_lookup task (some existing) = existing_action_result existing
  after_lookup task none = do result ← budget_or_throw task; after_budget task result

  unfoldable pub execute : Task → M S HandlerResult
  execute task = do
    stop ← quiet (cancellation_requested task)
    if stop
        then pure (handler_result HandlerOutcome.cancelled (text "") (text "") (text "") (text ""))
        else do
          existing ← quiet (find_by_idempotency_key (action_key task))
          after_lookup task existing
