-- ===== src/Pulse/Deadline.antt =====
-- The deadline that the scheduler bridge derives from the durable cursor
-- (inspect_local_activity_pulse_deadline and arm of src/LocalActivityPulseSchedulerBridge.cpp). A time point
-- belongs to the scheduler's clock, which is not modelled: its type, its construction from a number of
-- milliseconds, with what that does at times outside the range of the clock, and the scheduler's
-- request_at are parameters.
use gaudere_agent.Prelude.{
  int64_max, ◌-◌, ◌≡◌, refl, sym, ap, ◌∙◌, Bool, true, false, not, ◌||◌, Option, none, some, arith,
  if◌then◌else◌, is_some, empty, leb, [], ◌∷◌, ℤ, pos, ◌≤ℤ◌, ◌+ℤ◌, ltb_ℤ,
}
use gaudere_agent.Text.{Text, text, prefixed_sha256}
use gaudere_agent.Effects.{M, pure, ◌>>=◌}
use gaudere_agent.Pulse.Cursor.{
  State, idle, preparing, settled, blocked, quiescent, Cursor, cadence_ms, valid_cursor,
  refused_fields, valid_in_state, active_generation_shape, observation_prefix, same_state,
  predecessor_shape, same_blocked_payload, same_opportunity,
}
use gaudere_agent.Pulse.Transition.{valid_transition, step_from, from_settled}
use gaudere_agent.Pulse.Steps.{valid_cursor-Canonical, first, later, stay, step-Change, step_valid}

pub record DeadlineInspection (T : Type 0) : Type 0 where
  pub eligible : Bool
  pub active : Bool
  pub deadline : Option T
  pub detail : Text

-- none is the `false` of add_cadence.
unfoldable pub add_cadence : ℤ → Option ℤ
add_cadence base =
    if ltb_ℤ base (pos 0) || ltb_ℤ (pos (int64_max - cadence_ms)) base
    then none
    else some (base +ℤ pos cadence_ms)

abbrev pub max_ℤ : ℤ → ℤ → ℤ
max_ℤ a b = if ltb_ℤ a b then b else a

-- TimePoint{milliseconds{value}} is `time_point value`.
module _ {T : Type 0} (time_point : ℤ → T) where
  -- value < 0 has no time point.
  unfoldable pub deadline_from_ms : ℤ → Option T
  deadline_from_ms value = if ltb_ℤ value (pos 0) then none else some (time_point value)

  abbrev pub inactive_deadline : DeadlineInspection T
  inactive_deadline = record { eligible = true; active = false; deadline = none; detail = text "" }

  abbrev pub not_eligible : Text → DeadlineInspection T
  not_eligible detail = record {
    eligible = false;
    active = false;
    deadline = none;
    detail = detail;
  }

  -- The end of the `try`: the deadline as a time point.
  unfoldable pub as_deadline : Option T → DeadlineInspection T
  as_deadline none = not_eligible (text "local pulse deadline is outside supported time range")
  as_deadline (some at) = record {
    eligible = true;
    active = true;
    deadline = some at;
    detail = text "";
  }

  unfoldable pub settled_deadline : Option ℤ → DeadlineInspection T
  settled_deadline none = not_eligible (text "next local pulse deadline overflows")
  settled_deadline (some deadline_ms) = as_deadline (deadline_from_ms deadline_ms)

  unfoldable pub after_capture : Option ℤ → (ℤ → DeadlineInspection T) → Text → DeadlineInspection T
  after_capture none k detail = not_eligible detail
  after_capture (some captured) k detail = k captured

  -- The `switch` on the state.
  unfoldable pub deadline_in : State → Cursor → DeadlineInspection T
  deadline_in blocked cursor = inactive_deadline
  deadline_in quiescent cursor = inactive_deadline
  deadline_in idle cursor = as_deadline (deadline_from_ms cursor.due_at_ms)
  deadline_in preparing cursor =
      after_capture cursor.captured_at_ms
        (λ captured. as_deadline (deadline_from_ms (max_ℤ cursor.due_at_ms captured)))
        (text "preparing local pulse cursor has no capture time")
  deadline_in settled cursor =
      if not (is_some cursor.result_sha256) || empty cursor.task_id || leb 3 cursor.generation
      then not_eligible (text "settled local pulse cursor is incomplete")
      else after_capture cursor.captured_at_ms (λ captured. settled_deadline (add_cadence captured))
          (text "settled local pulse cursor is incomplete")

  unfoldable pub inspect_deadline : Option Cursor → Bool → DeadlineInspection T
  inspect_deadline none enabled = inactive_deadline
  inspect_deadline (some cursor) enabled =
      if not enabled
      then inactive_deadline
      else if not (valid_cursor cursor)
      then not_eligible (text "local activity pulse cursor is invalid")
      else deadline_in cursor.state cursor

-- gaudere::scheduling::wake::Update
pub data Update : Type 0 where
  scheduled advanced unchanged : Update

pub data ArmResult : Type 0 where
  inactive scheduled advanced unchanged invalid : ArmResult

unfoldable pub arm_result : Update → ArmResult
arm_result Update.scheduled = ArmResult.scheduled
arm_result Update.advanced = ArmResult.advanced
arm_result Update.unchanged = ArmResult.unchanged

module _ {T W : Type 0} (time_point : ℤ → T) (request_at : T → M W Update) where
  unfoldable pub arm_at : Option T → M W ArmResult
  arm_at none = pure inactive
  arm_at (some deadline) = do update ← request_at deadline; pure (arm_result update)

  unfoldable pub arm : Option Cursor → Bool → M W ArmResult
  arm cursor enabled =
      let inspection = inspect_deadline time_point cursor enabled in
      if not inspection.eligible
      then pure invalid
      else if not inspection.active
      then pure inactive
      else arm_at inspection.deadline

valid_times : (c : Cursor) → valid_cursor c ≡ true → (pos 0 ≤ℤ c.due_at_ms)
unfolding valid_cursor refused_fields
valid_times c v = ground arith

from_ms :
    {T : Type 0} (time_point : ℤ → T) (x : ℤ)
    → pos 0 ≤ℤ x
    → deadline_from_ms time_point x ≡ some (time_point x)
unfolding deadline_from_ms
from_ms time_point x h = ground arith

prefixed_nonempty : (s p : Text) → prefixed_sha256 s p ≡ true → empty s ≡ false
unfolding prefixed_sha256
prefixed_nonempty [] p h = ground arith
prefixed_nonempty (c ∷ s) p h = refl

valid-settled :
    (c : Cursor) → valid_cursor c ≡ true → c.state ≡ settled → valid_in_state settled c ≡ true
unfolding valid_cursor valid_in_state active_generation_shape predecessor_shape
valid-settled c v s = let w : valid_in_state c.state c ≡ true = ground arith in rw s at w

-- A canonical settled cursor has what its deadline needs.
settled_complete :
    (c : Cursor)
    → valid_in_state settled c ≡ true
    → (not (is_some c.result_sha256) || empty c.task_id || leb 3 c.generation) ≡ false
unfolding valid_in_state active_generation_shape
settled_complete c v = ground (arith, prefixed_nonempty c.task_id observation_prefix)

transition-settled :
    (c r : Cursor) → valid_transition c r ≡ true → c.state ≡ settled → from_settled c r ≡ true
unfolding valid_transition step_from from_settled same_blocked_payload same_opportunity
transition-settled c r h s = let w : step_from c.state c r ≡ true = ground arith in rw s at w

capture_room :
    (c r : Cursor) (x : ℤ)
    → from_settled c r ≡ true
    → r.state ≡ preparing
    → c.captured_at_ms ≡ some x
    → ltb_ℤ (pos (int64_max - cadence_ms)) x ≡ false
unfolding from_settled same_state
capture_room c r x h p e = let k = rw (p, e) at h in ground arith

room :
    (x : ℤ)
    → pos 0 ≤ℤ x
    → ltb_ℤ (pos (int64_max - cadence_ms)) x ≡ false
    → add_cadence x ≡ some (x +ℤ pos cadence_ms)
unfolding add_cadence
room x h k = ground arith

later_time : (x : ℤ) → pos 0 ≤ℤ x → pos 0 ≤ℤ x +ℤ pos cadence_ms
unfolding ◌+ℤ◌
later_time x h = ground arith

settled_admits :
    {T : Type 0} (time_point : ℤ → T) (c : Cursor) (x : ℤ)
    → (not (is_some c.result_sha256) || empty c.task_id || leb 3 c.generation) ≡ false
    → c.captured_at_ms ≡ some x
    → pos 0 ≤ℤ x
    → ltb_ℤ (pos (int64_max - cadence_ms)) x ≡ false
    → deadline_in time_point settled c
      ≡ as_deadline time_point (some (time_point (x +ℤ pos cadence_ms)))
unfolding deadline_in after_capture settled_deadline as_deadline
settled_admits time_point c x complete e h k =
    rw (complete, e, room x h k, from_ms time_point (x +ℤ pos cadence_ms) (later_time x h)) refl

idle_admits :
    {T : Type 0} (time_point : ℤ → T) (c : Cursor)
    → pos 0 ≤ℤ c.due_at_ms
    → deadline_in time_point idle c ≡ as_deadline time_point (some (time_point c.due_at_ms))
unfolding deadline_in
idle_admits time_point c h = rw (from_ms time_point c.due_at_ms h) refl

inspect_valid :
    {T : Type 0} (time_point : ℤ → T) (c : Cursor)
    → valid_cursor c ≡ true
    → inspect_deadline time_point (some c) true ≡ deadline_in time_point c.state c
unfolding inspect_deadline
inspect_valid time_point c v = rw v refl

nonnegative :
    (due x y : ℤ) → ◌≡◌ {A = Option ℤ} (some y) (some x) → pos 0 ≤ℤ due → due ≤ℤ y → pos 0 ≤ℤ x
nonnegative due x y e h k = ground arith

settled_capture :
    (c : Cursor) (x : ℤ)
    → valid_cursor c ≡ true
    → c.state ≡ settled
    → c.captured_at_ms ≡ some x
    → pos 0 ≤ℤ x
settled_capture c x v s e =
    let n = valid_cursor-Canonical c v in
    let (y, q, b) = n.captured (n.settled_started s) in
    nonnegative c.due_at_ms x y (sym q ∙ e) (valid_times c v) b

pub inspect_admits :
    {T : Type 0} (time_point : ℤ → T) (c r : Cursor)
    → valid_transition c r ≡ true
    → r.state ≡ preparing
    → inspect_deadline time_point (some c) true
      ≡ as_deadline time_point (some (time_point r.due_at_ms))
inspect_admits time_point c r h p =
    let v = (step_valid c r h).0 in
    inspect_valid time_point c v ∙ elim (step-Change c r h) [
      | first i q g d ↦
          ap (λ s. deadline_in time_point s c) i
          ∙ idle_admits time_point c (valid_times c v)
          ∙ ap (λ t. as_deadline time_point (some (time_point t))) (sym d)
      | later x s q e g d ↦
          ap (λ s. deadline_in time_point s c) s
          ∙ settled_admits time_point c x (settled_complete c (valid-settled c v s)) e
              (settled_capture c x v s e) (capture_room c r x (transition-settled c r h s) p e)
          ∙ ap (λ t. as_deadline time_point (some (time_point t))) (sym d)
      | stay n i g d ↦ absurd (n p)
    ]

-- Whenever the canonical transitions admit a next observation after the durable cursor, arming the enabled
-- bridge asks the scheduler for the time point that its clock makes of exactly the due time of that
-- observation, and reports the scheduler's answer.
pub arm-admits :
    {T W : Type 0} (time_point : ℤ → T) (request_at : T → M W Update) (c r : Cursor) (w : W)
    → valid_transition c r ≡ true
    → r.state ≡ preparing
    → arm time_point request_at (some c) true w
      ≡ (request_at (time_point r.due_at_ms) >>= λ update. pure (arm_result update)) w
unfolding arm as_deadline arm_at
arm-admits time_point request_at c r w h p = rw (inspect_admits time_point c r h p) refl
