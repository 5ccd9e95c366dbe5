-- ===== src/Pulse/Cursor.antt =====
-- The durable cursor of the local activity pulse and its canonical form
-- (src/LocalActivityPulseStore.hpp, src/LocalActivityPulseStore.cpp).
use gaudere_agent.Prelude.{
  int64_max, ℕ, Bool, true, false, not, ◌&&◌, ◌||◌, Option, none, some, ltb, leb, ◌==◌,
  if◌then◌else◌, is_some, holds, same_option, length, empty, ℤ, pos, ltb_ℤ, leb_ℤ, eqb_ℤ,
}
use gaudere_agent.Text.{Text, text, eqb, prefixed_sha256, lowercase_sha256, safe_text}

abbrev pub scope_name : Text
scope_name = text "continuity.local-observation-pulse.v1"

abbrev pub cadence_ms : ℕ
cadence_ms = 86400000

abbrev max_id_bytes : ℕ
max_id_bytes = 1024

abbrev max_blocked_reason_bytes : ℕ
max_blocked_reason_bytes = 1024

abbrev pub checkpoint_prefix : Text
checkpoint_prefix = text "continuity.delta-checkpoint.v1:"

abbrev pub observation_prefix : Text
observation_prefix = text "continuity.local-observation.v1:"

pub data State : Type 0 where
  idle preparing settled blocked quiescent : State

pub record Cursor : Type 0 where
  pub scope : Text
  pub revision : ℕ
  pub generation : ℕ
  pub state : State
  pub anchor_checkpoint_task_id : Text
  pub anchor_checkpoint_result_sha256 : Text
  pub anchor_at_ms : ℤ
  pub due_at_ms : ℤ
  pub captured_at_ms : Option ℤ
  pub task_id : Text
  pub result_sha256 : Option Text
  pub predecessor_observation_task_id : Option Text
  pub predecessor_observation_result_sha256 : Option Text
  pub blocked_reason : Text

unfoldable pub optional_safe_id : Option Text → Bool
optional_safe_id none = true
optional_safe_id (some value) =
    not (empty value) && leb (length value) max_id_bytes && safe_text value

unfoldable pub optional_sha : Option Text → Bool
optional_sha none = true
optional_sha (some value) = lowercase_sha256 value

unfoldable pub predecessor_shape : Cursor → Bool
predecessor_shape cursor =
    if leb cursor.generation 1
    then not (is_some cursor.predecessor_observation_task_id)
      && not (is_some cursor.predecessor_observation_result_sha256)
    else is_some cursor.predecessor_observation_task_id
      && is_some cursor.predecessor_observation_result_sha256
      && holds (λ value. prefixed_sha256 value observation_prefix)
          cursor.predecessor_observation_task_id
      && holds lowercase_sha256 cursor.predecessor_observation_result_sha256

unfoldable pub active_generation_shape : Cursor → Bool → Bool
active_generation_shape cursor result_required =
    leb 1 cursor.generation
    && leb cursor.generation 3
    && holds (λ captured. leb_ℤ cursor.due_at_ms captured) cursor.captured_at_ms
    && leb (length cursor.task_id) max_id_bytes
    && prefixed_sha256 cursor.task_id observation_prefix
    && predecessor_shape cursor
    && optional_sha cursor.result_sha256
    && (if result_required
        then is_some cursor.result_sha256
        else not (is_some cursor.result_sha256))

unfoldable pub same_state : State → State → Bool
same_state idle idle = true
same_state preparing preparing = true
same_state settled settled = true
same_state blocked blocked = true
same_state quiescent quiescent = true
same_state _ _ = false

unfoldable pub same_cursor : Cursor → Cursor → Bool
same_cursor left right =
    eqb left.scope right.scope
    && left.revision == right.revision
    && left.generation == right.generation
    && same_state left.state right.state
    && eqb left.anchor_checkpoint_task_id right.anchor_checkpoint_task_id
    && eqb left.anchor_checkpoint_result_sha256 right.anchor_checkpoint_result_sha256
    && eqb_ℤ left.anchor_at_ms right.anchor_at_ms
    && eqb_ℤ left.due_at_ms right.due_at_ms
    && same_option eqb_ℤ left.captured_at_ms right.captured_at_ms
    && eqb left.task_id right.task_id
    && same_option eqb left.result_sha256 right.result_sha256
    && same_option eqb left.predecessor_observation_task_id right.predecessor_observation_task_id
    && same_option eqb left.predecessor_observation_result_sha256
        right.predecessor_observation_result_sha256
    && eqb left.blocked_reason right.blocked_reason

unfoldable pub same_opportunity : Cursor → Cursor → Bool
same_opportunity left right =
    left.generation == right.generation
    && eqb_ℤ left.due_at_ms right.due_at_ms
    && same_option eqb_ℤ left.captured_at_ms right.captured_at_ms
    && eqb left.task_id right.task_id
    && same_option eqb left.predecessor_observation_task_id right.predecessor_observation_task_id
    && same_option eqb left.predecessor_observation_result_sha256
        right.predecessor_observation_result_sha256

unfoldable pub same_blocked_payload : Cursor → Cursor → Bool
same_blocked_payload left right =
    same_opportunity left right && same_option eqb left.result_sha256 right.result_sha256

-- The conditions of the first `if` of valid_local_activity_pulse_cursor; any of them refuses.
unfoldable pub refused_fields : Cursor → Bool
refused_fields cursor =
    not (eqb cursor.scope scope_name)
    || ltb int64_max cursor.revision
    || ltb 3 cursor.generation
    || not (prefixed_sha256 cursor.anchor_checkpoint_task_id checkpoint_prefix)
    || not (lowercase_sha256 cursor.anchor_checkpoint_result_sha256)
    || ltb_ℤ cursor.anchor_at_ms (pos 0)
    || ltb_ℤ cursor.due_at_ms cursor.anchor_at_ms
    || holds (λ captured. ltb_ℤ captured cursor.due_at_ms) cursor.captured_at_ms
    || ltb max_id_bytes (length cursor.task_id)
    || (not (empty cursor.task_id) && not (safe_text cursor.task_id))
    || not (optional_safe_id cursor.predecessor_observation_task_id)
    || not (optional_sha cursor.result_sha256)
    || not (optional_sha cursor.predecessor_observation_result_sha256)
    || ltb max_blocked_reason_bytes (length cursor.blocked_reason)
    || (not (empty cursor.blocked_reason) && not (safe_text cursor.blocked_reason))

-- The blank payload of a cursor for which no observation has been admitted.
unfoldable pub no_observation : Cursor → Bool
no_observation cursor =
    not (is_some cursor.captured_at_ms)
    && empty cursor.task_id
    && not (is_some cursor.result_sha256)
    && not (is_some cursor.predecessor_observation_task_id)
    && not (is_some cursor.predecessor_observation_result_sha256)

-- The `switch` of valid_local_activity_pulse_cursor.
unfoldable pub valid_in_state : State → Cursor → Bool
valid_in_state idle cursor =
    cursor.generation == 0 && no_observation cursor && empty cursor.blocked_reason
valid_in_state preparing cursor =
    active_generation_shape cursor false && empty cursor.blocked_reason
valid_in_state settled cursor =
    ltb cursor.generation 3 && active_generation_shape cursor true && empty cursor.blocked_reason
valid_in_state quiescent cursor =
    cursor.generation == 3 && active_generation_shape cursor true && empty cursor.blocked_reason
valid_in_state blocked cursor =
    if empty cursor.blocked_reason
    then false
    else if cursor.generation == 0
    then no_observation cursor
    else is_some cursor.captured_at_ms
      && prefixed_sha256 cursor.task_id observation_prefix
      && predecessor_shape cursor
      && optional_sha cursor.result_sha256

unfoldable pub valid_cursor : Cursor → Bool
valid_cursor cursor = if refused_fields cursor then false else valid_in_state cursor.state cursor
