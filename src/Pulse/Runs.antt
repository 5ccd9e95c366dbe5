-- ===== src/Pulse/Runs.antt =====
-- Histories of the durable cursor: any number of accepted replacements, one after another.
use gaudere_agent.Prelude.{
  ℕ, ◌+◌, ◌-◌, ◌*◌, ◌≤◌, ◌<◌, ◌≡◌, refl, sym, ap, ◌∙◌, true, Option, some, arith, if◌then◌else◌, ℤ,
  pos, ◌≤ℤ◌, ◌+ℤ◌, +ℤ_parts,
}
use gaudere_agent.Pulse.Cursor.{
  idle, preparing, blocked, quiescent, Cursor, cadence_ms, same_state, valid_cursor,
}
use gaudere_agent.Pulse.Transition.{step_from, valid_transition}
use gaudere_agent.Pulse.Steps.{
  Canonical, valid_cursor-Canonical, Change, first, later, stay, step-Change, step_valid,
  step_identity, step_revision, same_state_iff, step_cases,
}

pub data Run (s : Cursor) : Cursor → Type 0 where
  here : Run s s
  next : {t u : Cursor} → Run s t → valid_transition t u ≡ true → Run s u

-- The number of replacements.
pub steps : {s t : Cursor} → Run s t → ℕ
steps here = 0
steps (next r h) = steps r + 1

-- The number of observations that were admitted: replacements that enter `preparing`.
unfoldable pub admissions : {s t : Cursor} → Run s t → ℕ
admissions here = 0
admissions (next {u = u} r h) = admissions r + (if same_state u.state preparing then 1 else 0)

pub Run-valid : {s t : Cursor} → valid_cursor s ≡ true → Run s t → valid_cursor t ≡ true
Run-valid v here = v
Run-valid v (next {t} {u} r h) = (step_valid t u h).1

pub Run-revision : {s t : Cursor} (r : Run s t) → t.revision ≡ s.revision + steps r
unfolding steps
Run-revision here = omega arith
Run-revision (next {t} {u} r h) = omega (arith, Run-revision r, step_revision t u h)

pub Run-identity :
    {s t : Cursor}
    → Run s t
    → (s.scope ≡ t.scope)
      × (s.anchor_checkpoint_task_id ≡ t.anchor_checkpoint_task_id)
      × (s.anchor_checkpoint_result_sha256 ≡ t.anchor_checkpoint_result_sha256)
      × (s.anchor_at_ms ≡ t.anchor_at_ms)
Run-identity here = (refl, refl, refl, refl)
Run-identity (next {t} {u} r h) =
    let a = Run-identity r in
    let b = step_identity t u h in (a.0 ∙ b.0, a.1 ∙ b.1, a.2 ∙ b.2, a.3 ∙ b.3)

step_admits :
    (t u : Cursor)
    → Canonical t
    → Change t u
    → u.generation ≡ t.generation + (if same_state u.state preparing then 1 else 0)
unfolding same_state
step_admits t u c (first i p g d) = rw p (omega (arith, c.idle_fresh i))
step_admits t u c (later x s p q g d) = rw p (omega arith)
step_admits t u c (stay p i g d) = ground arith

pub Run-generation : {s t : Cursor} (r : Run s t) → t.generation ≡ s.generation + admissions r
unfolding admissions
Run-generation here = omega arith
Run-generation (next {t} {u} r h) = omega (
  arith,
  Run-generation r,
  step_admits t u (valid_cursor-Canonical t (step_valid t u h).0) (step-Change t u h),
)

-- In any history of accepted replacements from a canonical cursor at most three observations are
-- admitted, counting those that the first cursor has behind it.
pub Run-admissions_bounded :
    {s t : Cursor} (r : Run s t) → valid_cursor s ≡ true → s.generation + admissions r ≤ 3
Run-admissions_bounded {s} {t} r v =
    omega (arith, Run-generation r, (valid_cursor-Canonical t (Run-valid v r)).bounded)

abbrev Paced : ℕ → Cursor → Type 0
Paced d c = pos (d + (c.generation - 1) * cadence_ms) ≤ℤ c.due_at_ms

same_capture : (due x y : ℤ) → ◌≡◌ {A = Option ℤ} (some x) (some y) → due ≤ℤ x → due ≤ℤ y
same_capture due x y e h = ground arith

later-Paced :
    (d : ℕ) (t u : Cursor) (x : ℤ)
    → 0 < t.generation
    → t.due_at_ms ≤ℤ x
    → u.generation ≡ t.generation + 1
    → u.due_at_ms ≡ x +ℤ pos cadence_ms
    → Paced d t
    → Paced d u
later-Paced d t u x g c e q p = rw (e, q) (omega (arith, +ℤ_parts x (pos cadence_ms)))

step-Paced : (d : ℕ) (t u : Cursor) → Canonical t → Change t u → Paced d t → Paced d u
step-Paced d t u c (first i p g e) h = rw (g, e) (omega (arith, c.idle_fresh i, h))
step-Paced d t u c (later x s p q g e) h =
    let (y, a, b) = c.captured (c.settled_started s) in
    later-Paced d t u x (c.settled_started s) (same_capture t.due_at_ms y x (sym a ∙ q) b) g e h
step-Paced d t u c (stay p i g e) h = rw (g, e) h

Run-Paced : {s t : Cursor} (d : ℕ) → Paced d s → Run s t → Paced d t
Run-Paced d p here = p
Run-Paced d p (next {t} {u} r h) =
    step-Paced d t u (valid_cursor-Canonical t (step_valid t u h).0) (step-Change t u h)
      (Run-Paced d p r)

-- From a canonical idle cursor whose deadline is not before d, a cursor of generation g >= 1 that
-- any history of accepted replacements reaches is due at d + (g - 1) cadences or later, and has
-- frozen its capture no earlier than it was due.
pub Run-paced :
    {s t : Cursor} (d : ℕ) (r : Run s t)
    → valid_cursor s ≡ true
    → s.state ≡ idle
    → pos d ≤ℤ s.due_at_ms
    → 0 < t.generation
    → (pos (d + (t.generation - 1) * cadence_ms) ≤ℤ t.due_at_ms)
      × ((x : ℤ) × (t.captured_at_ms ≡ some x) × (t.due_at_ms ≤ℤ x))
Run-paced {s} {t} d r v i h g =
    let c = valid_cursor-Canonical s v in
    (
      Run-Paced d (rw (c.idle_fresh i) (omega arith)) r,
      (valid_cursor-Canonical t (Run-valid v r)).captured g,
    )

quiescent_stuck : (e r : Cursor) → e.state ≡ quiescent → valid_transition e r ≡ true → ⊥
unfolding step_from
quiescent_stuck e r q h = ground (arith, rw q at (step_cases e r h))

blocked_step : (e r : Cursor) → e.state ≡ blocked → valid_transition e r ≡ true → r.state ≡ blocked
unfolding step_from
blocked_step e r q h = ground (arith, rw q at (step_cases e r h), same_state_iff r.state blocked)

blocked-Change :
    (e r : Cursor)
    → e.state ≡ blocked
    → Change e r
    → (r.generation ≡ e.generation) × (r.due_at_ms ≡ e.due_at_ms)
blocked-Change e r q (first i p g d) = cc
blocked-Change e r q (later x s p c g d) = cc
blocked-Change e r q (stay p i g d) = (g, d)

-- A quiescent cursor is final: no history of accepted replacements leaves it. A blocked cursor stays
-- blocked, and keeps its generation and its deadline.
pub Run-final :
    {s t : Cursor}
    → Run s t
    → (s.state ≡ quiescent → t ≡ s)
      × (s.state ≡ blocked
          → (t.state ≡ blocked) × (t.generation ≡ s.generation) × (t.due_at_ms ≡ s.due_at_ms))
Run-final here = (λ q. refl, λ b. (b, refl, refl))
Run-final {s} (next {t} {u} r h) =
    let (f, k) = Run-final r in
    (
      λ q. absurd (quiescent_stuck t u (ap (λ c. c.state) (f q) ∙ q) h),
      λ b.
          let (tb, g, d) = k b in
          let z = blocked-Change t u tb (step-Change t u h) in
          (blocked_step t u tb h, z.0 ∙ g, z.1 ∙ d),
    )
