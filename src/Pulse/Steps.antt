-- ===== src/Pulse/Steps.antt =====
-- What an accepted replacement of the cursor keeps and what it changes.
use gaudere_agent.Prelude.{
  ◌+◌, ◌≤◌, ◌<◌, ◌≡◌, refl, sym, ◌∙◌, ◌≢◌, ◌⊎◌, inl, inr, true, false, Option, none, some, arith, ℤ,
  pos, ◌≤ℤ◌, ◌+ℤ◌, eqb_ℤ_iff, holds, is_some, ltb_ℤ,
}
use gaudere_agent.Text.Laws.{eqb_iff}
use gaudere_agent.Pulse.Cursor.{
  State, idle, preparing, settled, blocked, quiescent, Cursor, cadence_ms, same_state,
  same_opportunity, same_blocked_payload, valid_cursor, valid_in_state, refused_fields,
  active_generation_shape, no_observation,
}
use gaudere_agent.Pulse.Transition.{refused_step, from_settled, step_from, valid_transition}

-- The state as the transition test reads it.
pub same_state_iff : (s t : State) → same_state s t ≡ true → s ≡ t
unfolding same_state
same_state_iff s t h = ground arith

module _ (e r : Cursor) (h : valid_transition e r ≡ true) where
  pub step_valid : (valid_cursor e ≡ true) × (valid_cursor r ≡ true)
  unfolding valid_transition refused_step
  step_valid = ground arith

  pub step_identity :
      (e.scope ≡ r.scope)
      × (e.anchor_checkpoint_task_id ≡ r.anchor_checkpoint_task_id)
      × (e.anchor_checkpoint_result_sha256 ≡ r.anchor_checkpoint_result_sha256)
      × (e.anchor_at_ms ≡ r.anchor_at_ms)
  unfolding valid_transition refused_step
  step_identity = ground (
    arith,
    eqb_iff e.scope r.scope,
    eqb_iff e.anchor_checkpoint_task_id r.anchor_checkpoint_task_id,
    eqb_iff e.anchor_checkpoint_result_sha256 r.anchor_checkpoint_result_sha256,
  )

  pub step_revision : r.revision ≡ e.revision + 1
  unfolding valid_transition refused_step
  step_revision = ground arith

  pub step_cases : step_from e.state e r ≡ true
  unfolding valid_transition
  step_cases = ground arith

-- A canonical cursor has a frozen capture, not before its deadline, exactly from the first
-- generation on, and no more than three generations.
pub record Canonical (c : Cursor) : Type 0 where
  pub bounded : c.generation ≤ 3
  pub fresh : c.generation ≡ 0 → c.captured_at_ms ≡ none
  pub captured : 0 < c.generation → (x : ℤ) × (c.captured_at_ms ≡ some x) × (c.due_at_ms ≤ℤ x)
  pub idle_fresh : c.state ≡ idle → c.generation ≡ 0
  pub settled_started : c.state ≡ settled → 0 < c.generation
  pub preparing_started : c.state ≡ preparing → 0 < c.generation
  pub quiescent_last : c.state ≡ quiescent → c.generation ≡ 3

not_before :
    (o : Option ℤ) (due : ℤ)
    → is_some o ≡ true
    → holds (λ x. ltb_ℤ x due) o ≡ false
    → (x : ℤ) × (o ≡ some x) × (due ≤ℤ x)
not_before none due h k = cc
not_before (some x) due h k = (x, refl, ground arith)

valid_started :
    (c : Cursor) → valid_cursor c ≡ true → 0 < c.generation → is_some c.captured_at_ms ≡ true
unfolding valid_cursor valid_in_state active_generation_shape no_observation
valid_started c h z = ground arith

valid_not_before :
    (c : Cursor) → valid_cursor c ≡ true → holds (λ x. ltb_ℤ x c.due_at_ms) c.captured_at_ms ≡ false
unfolding valid_cursor refused_fields
valid_not_before c h = ground arith

pub valid_cursor-Canonical : (c : Cursor) → valid_cursor c ≡ true → Canonical c
unfolding valid_cursor refused_fields valid_in_state active_generation_shape no_observation
valid_cursor-Canonical c h = record {
  bounded = ground arith;
  fresh = λ z. ground arith;
  captured =
      λ z. not_before c.captured_at_ms c.due_at_ms (valid_started c h z) (valid_not_before c h);
  idle_fresh = λ z. ground arith;
  settled_started = λ z. ground arith;
  preparing_started = λ z. ground arith;
  quiescent_last = λ z. ground arith;
}

-- What one replacement does to the generation, the deadline and the capture.
pub data Change (e r : Cursor) : Type 0 where
  -- The first observation is admitted at the seeded deadline.
  first :
      e.state ≡ idle
      → r.state ≡ preparing
      → r.generation ≡ 1
      → r.due_at_ms ≡ e.due_at_ms
      → Change e r
  -- The next observation is admitted one cadence after the previous capture.
  later :
      (x : ℤ)
      → e.state ≡ settled
      → r.state ≡ preparing
      → e.captured_at_ms ≡ some x
      → r.generation ≡ e.generation + 1
      → r.due_at_ms ≡ x +ℤ pos cadence_ms
      → Change e r
  -- No admission: the observation, if any, is finished or blocked.
  stay :
      r.state ≢ preparing
      → r.state ≢ idle
      → r.generation ≡ e.generation
      → r.due_at_ms ≡ e.due_at_ms
      → Change e r

started : (e r : Cursor) → Canonical e → e.state ≡ settled → (x : ℤ) × (e.captured_at_ms ≡ some x)
started e r c s = let (x, p, q) = c.captured (c.settled_started s) in (x, p)

from_idle :
    (e r : Cursor)
    → step_from idle e r ≡ true
    → (r.due_at_ms ≡ e.due_at_ms)
      × (((r.state ≡ preparing) × (r.generation ≡ 1)) ⊎ ((r.state ≡ blocked) × (r.generation ≡ 0)))
unfolding step_from
from_idle e r h = ground (
  arith,
  same_state_iff r.state preparing,
  same_state_iff r.state blocked,
  eqb_ℤ_iff r.due_at_ms e.due_at_ms,
)

kept_opportunity :
    (e r : Cursor)
    → same_opportunity e r ≡ true
    → (r.generation ≡ e.generation) × (r.due_at_ms ≡ e.due_at_ms)
unfolding same_opportunity
kept_opportunity e r h = ground (arith, eqb_ℤ_iff e.due_at_ms r.due_at_ms)

from_preparing :
    (e r : Cursor)
    → step_from preparing e r ≡ true
    → (same_opportunity e r ≡ true) × (r.state ≢ preparing) × (r.state ≢ idle)
unfolding step_from
from_preparing e r h = ground (
  arith,
  same_state_iff r.state settled,
  same_state_iff r.state quiescent,
  same_state_iff r.state blocked,
)

from_blocked :
    (e r : Cursor)
    → step_from blocked e r ≡ true
    → (same_opportunity e r ≡ true) × (r.state ≡ blocked)
unfolding step_from same_blocked_payload
from_blocked e r h = ground (arith, same_state_iff r.state blocked)

from_settled_cases :
    (e r : Cursor) (x : ℤ)
    → e.captured_at_ms ≡ some x
    → from_settled e r ≡ true
    → ((same_opportunity e r ≡ true) × (r.state ≡ blocked))
      ⊎ ((r.state ≡ preparing)
          × (r.generation ≡ e.generation + 1)
          × (r.due_at_ms ≡ x +ℤ pos cadence_ms))
unfolding from_settled same_blocked_payload
from_settled_cases e r x c h = ground (
  arith,
  same_state_iff r.state preparing,
  same_state_iff r.state blocked,
  eqb_ℤ_iff r.due_at_ms (x +ℤ pos cadence_ms),
)

Change-at :
    (s : State) (e r : Cursor) → e.state ≡ s → Canonical e → step_from s e r ≡ true → Change e r
unfolding step_from
Change-at idle e r s c h = elim (from_idle e r h).1 [
  | inl (p, g) ↦ first s p g (from_idle e r h).0
  | inr (p, g) ↦ stay (cc) (cc) (g ∙ sym (c.idle_fresh s)) (from_idle e r h).0
]
Change-at preparing e r s c h =
    let k = kept_opportunity e r (from_preparing e r h).0 in
    stay (from_preparing e r h).1 (from_preparing e r h).2 k.0 k.1
Change-at settled e r s c h =
    let (x, p) = started e r c s in
    elim (from_settled_cases e r x p h) [
      | inl (k, b) ↦ let q = kept_opportunity e r k in stay (λ z. cc) (λ z. cc) q.0 q.1
      | inr (b, g, d) ↦ later x s b p g d
    ]
Change-at blocked e r s c h =
    let k = kept_opportunity e r (from_blocked e r h).0 in
    let b = (from_blocked e r h).1 in stay (λ z. cc b) (λ z. cc b) k.0 k.1
Change-at quiescent e r s c h = cc

-- Every accepted replacement is an admission or leaves the opportunity alone.
pub step-Change : (e r : Cursor) → valid_transition e r ≡ true → Change e r
step-Change e r h =
    Change-at e.state e r refl (valid_cursor-Canonical e (step_valid e r h).0) (step_cases e r h)
