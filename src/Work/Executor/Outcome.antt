-- ===== src/Work/Executor/Outcome.antt =====
-- What the executor records (src/TaskExecutor.cpp).
use gaudere_agent.Prelude.{
  ◌≡◌, refl, ◌⊎◌, inl, inr, Bool, true, false, not, Option, none, some, List, ◌∷◌, arith,
  if◌then◌else◌, empty,
}
use gaudere_agent.Text.{Text, text}
use gaudere_agent.Effects.{standard, non_standard, Result, ok, raised, M, pure, ◌>>=◌}
use gaudere_agent.Effects.Logged.{
  World, quiet, logged, enter_value, note, enter, Post, Triple, Triple-pure, Triple-bind,
  Triple-catch, Triple-if, Triple-weaken, Triple-raise,
}
use gaudere_agent.Work.Task.{Task, HandlerOutcome, HandlerResult}
use gaudere_agent.Work.Runtime.{Runtime, Laws, FinishResult, finished, unavailable}
use gaudere_agent.Work.Executor.{
  Closure, success, failure, cancellation, manual, accept_event, finish_event, succeeds, fails,
  marks_cancelled, requires_review, or_else, Event, ran, returned, closed, ExecuteResult, completed,
  not_startable, state_conflict, Handler, conclude, review, invalid, worker_stops,
  cancel_after_request, cancel, is_finished, record_outcome, after_handler, run_handler, after_find,
  execute, same_emptiness,
}

abbrev pub Paired : HandlerResult → Type 0
Paired r = empty r.metadata_content_type ≡ empty r.metadata

-- A result that the executor does not record as it stands: incomplete metadata, a success with no content
-- type, or a cancellation, which may carry metadata or lack a durable request.
abbrev pub Unsound : HandlerResult → Type 0
Unsound r =
    ((empty r.metadata_content_type ≡ empty r.metadata) → ⊥)
    ⊎ ((r.outcome ≡ HandlerOutcome.succeeded) × (empty r.content_type ≡ true))
    ⊎ (r.outcome ≡ HandlerOutcome.cancelled)

-- The finishing call that the handler's result permits, with its arguments. An exception goes to an
-- operator, and so does a result that is not sound.
abbrev pub Permits : Result HandlerResult → Closure → Type 0
Permits (raised (standard what)) c = c ≡ manual (text "handler_exception") what (text "") (text "")
Permits (raised non_standard) c =
    c
    ≡ manual (text "handler_exception") (text "handler threw a non-standard exception") (text "")
        (text "")
Permits (ok r) (success o c mc m) =
    (r.outcome ≡ HandlerOutcome.succeeded)
    × Paired r
    × (empty r.content_type ≡ false)
    × ((o ≡ r.output) × (c ≡ r.content_type) × (mc ≡ r.metadata_content_type) × (m ≡ r.metadata))
Permits (ok r) (failure c m mc md) =
    (r.outcome ≡ HandlerOutcome.failed)
    × Paired r
    × ((c ≡ or_else r.failure_code (text "handler_failed"))
        × (m ≡ r.failure_message)
        × (mc ≡ r.metadata_content_type)
        × (md ≡ r.metadata))
Permits (ok r) cancellation =
    (r.outcome ≡ HandlerOutcome.cancelled) × Paired r × (empty r.metadata ≡ true)
Permits (ok r) (manual c m mc md) =
    ((r.outcome ≡ HandlerOutcome.manual_review)
      × Paired r
      × ((c ≡ or_else r.failure_code (text "external_effect_unknown"))
          × (m ≡ r.failure_message)
          × (mc ≡ r.metadata_content_type)
          × (md ≡ r.metadata)))
    ⊎ (Unsound r × (c ≡ text "invalid_handler_result"))

branch :
    {S A : Type 0} {X P : S → Type 0} {Q : A → S → Type 0} (b : Bool) (m n : M S A)
    → (b ≡ true → Triple X P m Q)
    → (b ≡ false → Triple X P n Q)
    → Triple X P (if b then m else n) Q
branch true m n k h = k refl
branch false m n k h = h refl

other_pair :
    (r : HandlerResult)
    → not (same_emptiness r.metadata_content_type r.metadata) ≡ true
    → (empty r.metadata_content_type ≡ empty r.metadata)
    → ⊥
other_pair r f e = ground arith

same_pair :
    (r : HandlerResult)
    → not (same_emptiness r.metadata_content_type r.metadata) ≡ false
    → empty r.metadata_content_type ≡ empty r.metadata
same_pair r f = ground arith

module _ {W : Type 0} (rt : Runtime W) (laws : Laws rt) (id : Text) where
  abbrev Log : List Event → World W Event → Type 0
  Log l s = s.log ≡ l

  -- How an execution ends, from the log l.
  abbrev pub Recorded : Result HandlerResult → List Event → ExecuteResult → World W Event → Type 0
  Recorded r l completed s =
      (c : Closure) × (s.log ≡ closed id c ∷ l) × Permits r c × (laws.terminal id s.ext ≡ true)
  Recorded r l not_startable s = ⊥
  Recorded r l state_conflict s = s.log ≡ l

  -- A finishing call: if it was accepted, it is recorded and the task is terminal.
  abbrev Closed : Closure → List Event → Bool → World W Event → Type 0
  Closed c l true s = (s.log ≡ closed id c ∷ l) × (laws.terminal id s.ext ≡ true)
  Closed c l false s = s.log ≡ l

  enter-Log :
      {A : Type 0} (l : List Event) (out : Result A × W) → Post (Log l) (λ _. Log l) (enter out l)
  enter-Log l (ok a, w) = refl
  enter-Log l (raised e, w) = refl

  Log-quiet :
      {A : Type 0} (l : List Event) (m : M W A) → Triple (Log l) (Log l) (quiet m) (λ _. Log l)
  unfolding quiet
  Log-quiet l m = record { at = λ s p. rw p (enter-Log l (m s.ext)) }

  accept-Closed :
      (c : Closure) (l : List Event) (out : Result Bool × W)
      → (out.0 ≡ ok true → laws.terminal id out.1 ≡ true)
      → Post (Log l) (Closed c l) (enter_value (accept_event id c) out l)
  accept-Closed c l (ok true, w) h = (refl, h refl)
  accept-Closed c l (ok false, w) h = refl
  accept-Closed c l (raised e, w) h = refl

  Accept :
      (c : Closure) (l : List Event) (m : M W Bool)
      → ((w : W) → (m w).0 ≡ ok true → laws.terminal id (m w).1 ≡ true)
      → Triple (Log l) (Log l) (logged (accept_event id c) m) (Closed c l)
  unfolding logged
  Accept c l m h = record { at = λ s p. rw p (accept-Closed c l (m s.ext) (h s.ext)) }

  conclude-Recorded :
      (r : Result HandlerResult) (l : List Event) (c : Closure) (b : Bool)
      → Permits r c
      → Triple (Log l) (Closed c l b) (conclude rt b) (Recorded r l)
  unfolding conclude
  conclude-Recorded r l c true h = Triple-pure completed (λ s p. (c, p.0, h, p.1))
  conclude-Recorded r l c false h = Triple-pure state_conflict (λ s p. p)

  review-Recorded :
      (r : Result HandlerResult) (l : List Event) (c m mc md : Text)
      → Permits r (manual c m mc md)
      → Triple (Log l) (Log l) (review rt id c m mc md) (Recorded r l)
  unfolding review requires_review
  review-Recorded r l c m mc md h =
      Triple-bind _ _ (Accept (manual c m mc md) l _ (laws.review_finishes id c m mc md))
        (λ b. conclude-Recorded r l (manual c m mc md) b h)

  invalid-Recorded :
      (r : HandlerResult) (l : List Event) (message : Text)
      → Unsound r
      → Triple (Log l) (Log l) (invalid rt id message) (Recorded (ok r) l)
  invalid-Recorded r l message u = review-Recorded (ok r) l _ _ _ _ (inr (u, refl))

  finish-Closed :
      (c : Closure) (l : List Event) (out : Result FinishResult × W)
      → (out.0 ≡ ok finished → laws.terminal id out.1 ≡ true)
      → Post (Log l) (λ f. Closed c l (is_finished f)) (enter_value (finish_event id c) out l)
  finish-Closed c l (ok finished, w) h = (refl, h refl)
  finish-Closed c l (ok unavailable, w) h = refl
  finish-Closed c l (raised e, w) h = refl

  Finish :
      (c : Closure) (l : List Event) (m : M W FinishResult)
      → ((w : W) → (m w).0 ≡ ok finished → laws.terminal id (m w).1 ≡ true)
      → Triple (Log l) (Log l) (logged (finish_event id c) m) (λ f. Closed c l (is_finished f))
  unfolding logged
  Finish c l m h = record { at = λ s p. rw p (finish-Closed c l (m s.ext) (h s.ext)) }

  -- A cancelled result without metadata may be recorded as a cancellation.
  module _ (r : HandlerResult) (l : List Event) (c : r.outcome ≡ HandlerOutcome.cancelled)
      (pair : empty r.metadata_content_type ≡ empty r.metadata)
      (bare : empty r.metadata ≡ true) where
    Permits-cancel : Permits (ok r) cancellation
    Permits-cancel = (c, pair, bare)

    after_request-Recorded : Triple (Log l) (Log l) (cancel_after_request rt id) (Recorded (ok r) l)
    unfolding cancel_after_request marks_cancelled
    after_request-Recorded = Triple-bind _ _ (Log-quiet l _) (λ b.
        Triple-if (not b) _ _ (Triple-pure _ (λ s p. p)) (
          Triple-bind _ _ (Accept cancellation l _ (laws.cancel_finishes id))
            (λ a. conclude-Recorded (ok r) l cancellation a Permits-cancel)))

    not_requested :
        (stop : Option (M W Bool)) (message : Text)
        → Triple
            (Log l)
            (Log l)
            (quiet (worker_stops rt stop) >>= λ stopping.
              if stopping then cancel_after_request rt id else invalid rt id message)
            (Recorded (ok r) l)
    not_requested stop message =
        Triple-bind _ _ (Log-quiet l (worker_stops rt stop))
          (λ b. Triple-if b _ _ after_request-Recorded (invalid-Recorded r l message (inr (inr c))))

    cancelled-Recorded :
        (a : Bool) (rest : M (World W Event) ExecuteResult)
        → Triple (Log l) (Log l) rest (Recorded (ok r) l)
        → Triple
            (Log l)
            (Closed cancellation l a)
            (if a then pure completed else rest)
            (Recorded (ok r) l)
    cancelled-Recorded true rest k =
        Triple-pure completed (λ s p. (cancellation, p.0, Permits-cancel, p.1))
    cancelled-Recorded false rest k = k

    cancel-Recorded :
        (stop : Option (M W Bool)) → Triple (Log l) (Log l) (cancel rt id stop) (Recorded (ok r) l)
    unfolding cancel marks_cancelled
    cancel-Recorded stop =
        Triple-bind _ _ (Accept cancellation l _ (laws.cancel_finishes id))
          (λ a. cancelled-Recorded a _ (not_requested stop _))

  module _ (r : HandlerResult) (l : List Event) (stop : Option (M W Bool))
      (pair : empty r.metadata_content_type ≡ empty r.metadata) where
    outcome-Recorded :
        (o : HandlerOutcome)
        → r.outcome ≡ o
        → Triple (Log l) (Log l) (record_outcome rt o id stop r) (Recorded (ok r) l)
    unfolding record_outcome succeeds fails
    outcome-Recorded HandlerOutcome.succeeded e =
        branch (empty r.content_type) _ _ (λ t. invalid-Recorded r l _ (inr (inl (e, t))))
          (λ f. Triple-bind _ _ (Finish _ l _ (laws.succeed_finishes id _ _ _ _)) (λ x.
            conclude-Recorded (ok r) l _ (is_finished x) (e, pair, f, (refl, refl, refl, refl))))
    outcome-Recorded HandlerOutcome.failed e =
        Triple-bind _ _ (Accept _ l _ (laws.fail_finishes id _ _ _ _))
          (λ a. conclude-Recorded (ok r) l _ a (e, pair, (refl, refl, refl, refl)))
    outcome-Recorded HandlerOutcome.cancelled e =
        branch (not (empty r.metadata)) _ _ (λ t. invalid-Recorded r l _ (inr (inr e)))
          (λ f. cancel-Recorded r l e pair (ground arith) stop)
    outcome-Recorded HandlerOutcome.manual_review e =
        review-Recorded (ok r) l _ _ _ _ (inl (e, pair, (refl, refl, refl, refl)))

  after_handler-Recorded :
      (r : Result HandlerResult) (l : List Event) (stop : Option (M W Bool))
      → Triple (Log l) (Log l) (after_handler rt id stop r) (Recorded r l)
  unfolding after_handler
  after_handler-Recorded (raised (standard what)) l stop =
      review-Recorded (raised (standard what)) l _ _ _ _ refl
  after_handler-Recorded (raised non_standard) l stop =
      review-Recorded (raised non_standard) l _ _ _ _ refl
  after_handler-Recorded (ok r) l stop =
      branch (not (same_emptiness r.metadata_content_type r.metadata)) _ _
        (λ t. invalid-Recorded r l _ (inl (other_pair r t)))
        (λ f. outcome-Recorded r l stop (same_pair r f) r.outcome refl)

  -- What an execution leaves in the log: nothing where the handler did not run, and else its run and
  -- its result, and above them one outcome exactly where the execution completed.
  abbrev pub after_run : Result HandlerResult → List Event → List Event
  after_run r l = returned id r ∷ ran id ∷ l

  abbrev pub Stopped : List Event → World W Event → Type 0
  Stopped l s = (s.log ≡ l) ⊎ ((r : Result HandlerResult) × (s.log ≡ after_run r l))

  abbrev pub Ended : List Event → ExecuteResult → World W Event → Type 0
  Ended l completed s = (r : Result HandlerResult) × Recorded r (after_run r l) completed s
  Ended l not_startable s = s.log ≡ l
  Ended l state_conflict s = Stopped l s

  note-Log : (l : List Event) (e : Event) → Triple (Stopped l) (Log l) (note e) (λ _. Log (e ∷ l))
  unfolding note
  note-Log l e = record { at = λ s p. rw p refl }

  note_returned :
      (l : List Event) (r : Result HandlerResult)
      → Triple
          (Stopped l)
          (Log (ran id ∷ l))
          (note (returned id r) >>= λ _. pure r)
          (λ q. Log (after_run q l))
  unfolding note ◌>>=◌
  note_returned l r = record { at = λ s p. rw p refl }

  run_handler-Ran :
      (h : Handler W) (l : List Event) (stop : Option (M W Bool)) (t : Task)
      → Triple (Stopped l) (Log l) (run_handler rt h id stop t) (λ r. Log (after_run r l))
  unfolding run_handler
  run_handler-Ran h l stop t = Triple-bind (note (ran id)) _ (note-Log l (ran id)) (λ _.
      Triple-bind _ _
        (Triple-catch {Y = Log (ran id ∷ l)} _ _
          (Triple-bind _ _ (Log-quiet (ran id ∷ l) _) (λ r. Triple-pure (ok r) (λ s p. p)))
          (λ e. Triple-pure (raised e) (λ s p. p)))
        (note_returned l))

  record_end :
      (r : Result HandlerResult) (l : List Event) (x : ExecuteResult) (s : World W Event)
      → Recorded r (after_run r l) x s
      → Ended l x s
  record_end r l completed s p = (r, p)
  record_end r l not_startable s p = elim p [ ]
  record_end r l state_conflict s p = inr (r, p)

  after_find-Ended :
      (h : Handler W) (l : List Event) (stop : Option (M W Bool)) (t : Option Task)
      → Triple (Stopped l) (Log l) (after_find rt h id stop t) (Ended l)
  unfolding after_find
  after_find-Ended h l stop none = Triple-pure state_conflict (λ s p. inl p)
  after_find-Ended h l stop (some t) = Triple-bind _ _ (run_handler-Ran h l stop t) (λ r.
      Triple-raise _ (λ s p. inr (r, p))
        (Triple-weaken _ (λ s p. p) (record_end r l)
          (after_handler-Recorded r (after_run r l) stop)))

  pub execute-Ended :
      (worker : Text) (h : Handler W) (stop : Option (M W Bool)) (l : List Event)
      → Triple (Stopped l) (Log l) (execute rt id worker h stop) (Ended l)
  unfolding execute
  execute-Ended worker h stop l =
      Triple-bind _ _ (Triple-raise _ (λ s p. inl p) (Log-quiet l _)) (λ b.
        Triple-if (not b) _ _ (Triple-pure not_startable (λ s p. p)) (
          Triple-bind _ _ (Triple-raise _ (λ s p. inl p) (Log-quiet l _))
            (after_find-Ended h l stop)))

-- Where the runtime's finishing calls make a task terminal when they are accepted: an execution runs the
-- handler at most once. If it completes, the handler ran, exactly one finishing call was accepted, the
-- one that the handler's result permits with the result's own arguments, and the task is terminal: an
-- exception, a success with no content type and incomplete metadata go to an operator. If it is
-- not startable nothing happened; on a state conflict, or an exception that leaves it, no finishing
-- call was accepted.
pub execute_records :
    {W : Type 0} (rt : Runtime W) (laws : Laws rt) (id worker : Text) (h : Handler W)
    (stop : Option (M W Bool)) (s : World W Event)
    → Post (Stopped rt laws id s.log) (Ended rt laws id s.log) (execute rt id worker h stop s)
execute_records rt laws id worker h stop s =
    (execute-Ended rt laws id worker h stop s.log).at s refl
