-- ===== src/Pulse/Transition.antt =====
-- Which cursor may replace which (valid_local_activity_pulse_transition of
-- src/LocalActivityPulseStore.cpp).
use gaudere_agent.Prelude.{
  int64_max, ◌+◌, ◌-◌, Bool, false, not, ◌&&◌, ◌||◌, some, ltb, ◌==◌, if◌then◌else◌, is_some, holds,
  same_option, pos, ltb_ℤ, eqb_ℤ, ◌+ℤ◌,
}
use gaudere_agent.Text.{eqb}
use gaudere_agent.Pulse.Cursor.{
  State, idle, preparing, settled, blocked, quiescent, Cursor, cadence_ms, same_state,
  same_opportunity, same_blocked_payload, valid_cursor,
}

-- The conditions of the first `if`; any of them refuses the replacement.
unfoldable pub refused_step : Cursor → Cursor → Bool
refused_step expected replacement =
    not (valid_cursor expected)
    || not (valid_cursor replacement)
    || not (eqb expected.scope replacement.scope)
    || not (eqb expected.anchor_checkpoint_task_id replacement.anchor_checkpoint_task_id)
    || not
        (eqb expected.anchor_checkpoint_result_sha256 replacement.anchor_checkpoint_result_sha256)
    || not (eqb_ℤ expected.anchor_at_ms replacement.anchor_at_ms)
    || expected.revision == int64_max
    || not (replacement.revision == expected.revision + 1)
    || ltb replacement.generation expected.generation
    || ltb (expected.generation + 1) replacement.generation
    || same_state expected.state quiescent

-- A settled cursor either blocks as it is, or admits the next generation at its exact deadline.
unfoldable pub from_settled : Cursor → Cursor → Bool
from_settled expected replacement =
    if same_state replacement.state blocked
    then replacement.generation == expected.generation && same_blocked_payload expected replacement
    else if not (same_state replacement.state preparing)
        || not (replacement.generation == expected.generation + 1)
        || not (is_some expected.captured_at_ms)
        || not (is_some expected.result_sha256)
        || holds (λ captured. ltb_ℤ (pos (int64_max - cadence_ms)) captured) expected.captured_at_ms
    then false
    else holds (λ captured. eqb_ℤ replacement.due_at_ms (captured +ℤ pos cadence_ms))
        expected.captured_at_ms
      && same_option eqb replacement.predecessor_observation_task_id (some expected.task_id)
      && same_option eqb replacement.predecessor_observation_result_sha256 expected.result_sha256
      && not (is_some replacement.result_sha256)

-- The `switch` on the state that is replaced.
unfoldable pub step_from : State → Cursor → Cursor → Bool
step_from idle expected replacement =
    if not (eqb_ℤ replacement.due_at_ms expected.due_at_ms)
    then false
    else same_state replacement.state preparing && replacement.generation == 1
      || same_state replacement.state blocked && replacement.generation == 0
step_from preparing expected replacement =
    if not (replacement.generation == expected.generation)
      || not (same_opportunity expected replacement)
    then false
    else if same_state replacement.state settled || same_state replacement.state quiescent
    then is_some replacement.result_sha256
    else same_state replacement.state blocked
      && same_option eqb replacement.result_sha256 expected.result_sha256
step_from settled expected replacement = from_settled expected replacement
step_from blocked expected replacement =
    same_state replacement.state blocked
    && replacement.generation == expected.generation
    && same_blocked_payload expected replacement
step_from quiescent expected replacement = false

unfoldable pub valid_transition : Cursor → Cursor → Bool
valid_transition expected replacement =
    if refused_step expected replacement
    then false
    else step_from expected.state expected replacement
