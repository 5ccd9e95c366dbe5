-- ===== src/Provider/AtMostOnce.antt =====
-- The invariant of Once, through each block of the handler (src/ProviderTaskHandler.cpp).
use gaudere_agent.Prelude.{Bool, true, false, not, Option, none, some, if◌then◌else◌}
use gaudere_agent.Text.{Text, text}
use gaudere_agent.Effects.{standard, non_standard, Result, ok, raised, M, pure, ◌>>=◌}
use gaudere_agent.Effects.Logged.{
  World, quiet, note, Triple, Triple-pure, Triple-bind, Triple-catch, Triple-if, Triple-weaken,
}
use gaudere_agent.Work.Task.{Task, HandlerResult}
use gaudere_agent.Provider.Api.{
  Api, Laws, Keeps, Action, ActionStatus, SubmitResult, ProviderResult, ProviderOutcome,
  ConsumeResult,
}
use gaudere_agent.Provider.Handler.{
  Event, consume_budget, mark_started, invoked, invoke_provider, existing_action_result, settle,
  settle_as, provider_threw, after_call, call_provider, started_action, lost_duplicate,
  after_submit, after_budget, after_lookup, execute, action_key, action_id, outcome_or_throw,
  budget_or_throw, request, budget_scope,
}
use gaudere_agent.Provider.Once.{
  Inv, Fresh, Ready, Inv-Stable, Fresh-Stable, Ready-Stable, Triple-quiet, Found, Submitted,
  Triple-find, Triple-submit, Paid, Granted, Armed, Persisted, Triple-consume, Triple-mark,
  Triple-note_invoked,
}

module _ {W : Type 0} (api : Api W) (laws : Laws api) where
  abbrev I : World W Event → Type 0
  I = Inv laws.known

  -- An action of the handler that keeps the invariant, whether it returns or throws.
  abbrev Safe : {A : Type 0} → M (World W Event) A → Type 0
  Safe m = Triple I I m (λ _. I)

  Safe-pure : {A : Type 0} (a : A) → Safe (pure a)
  Safe-pure a = Triple-pure a (λ s p. p)

  Safe-quiet : {A : Type 0} (m : M W A) → Keeps laws.known m → Safe (quiet m)
  Safe-quiet m k = Triple-quiet laws.known m k (Inv-Stable laws.known) (λ s p. p)

  Safe-bind :
      {A B : Type 0} (m : M (World W Event) A) (f : A → M (World W Event) B)
      → Safe m
      → ((a : A) → Safe (f a))
      → Safe (m >>= f)
  Safe-bind m f k h = Triple-bind m f k h

  Safe-if :
      {A : Type 0} (b : Bool) (m n : M (World W Event) A)
      → Safe m
      → Safe n
      → Safe (if b then m else n)
  Safe-if b m n k l = Triple-if b m n k l

  ruleset safe_rules = (Safe-pure, Safe-quiet, Safe-bind, Safe-if)

  existing-Safe : (a : Action) → Safe (existing_action_result api a)
  unfolding existing_action_result
  existing-Safe a = search (safe_rules, laws.unknown_keeps, laws.transition_keeps) depth 9

  settle_as-Safe :
      (o : ProviderOutcome) (i : Text) (r : ProviderResult) → Safe (settle_as api o i r)
  unfolding settle_as
  settle_as-Safe ProviderOutcome.effect_unknown i r = search (safe_rules, laws.unknown_keeps)
  settle_as-Safe _ i r = search (safe_rules, laws.confirmed_keeps)

  after_call-Safe : (t : Task) (r : Result ProviderResult) → Safe (after_call api t r)
  unfolding after_call settle provider_threw
  after_call-Safe t (ok r) = settle_as-Safe r.outcome (action_id api t) r
  after_call-Safe t (raised (standard what)) = search (safe_rules, laws.unknown_keeps)
  after_call-Safe t (raised non_standard) = search (safe_rules, laws.unknown_keeps)

  -- The call itself, that the marker call has announced.
  invoke-Safe :
      (t : Task)
      → Triple I
          (Armed laws.known (action_id api t) (action_key api t))
          (outcome_or_throw api (invoke_provider api (action_id api t) (request api t)))
          (λ _. I)
  unfolding invoke_provider
  invoke-Safe t =
      Triple-catch (invoke_provider api (action_id api t) (request api t) >>= λ r. pure (ok r))
        (λ e. pure (raised e))
        (Triple-bind (invoke_provider api (action_id api t) (request api t)) _
          (Triple-bind (note (invoked (action_id api t) (action_key api t))) _
            (Triple-note_invoked laws.known (action_id api t) (action_key api t))
            (λ _. Safe-quiet _ (laws.invoke_keeps (request api t))))
          (λ r. Safe-pure (ok r)))
        (λ e. Safe-pure (raised e))

  fresh_inv : (k : Text) (s : World W Event) → Ready laws.known k s → I s
  fresh_inv k s p = p.is_paid.fresh.inv

  after_mark-Safe :
      (t : Task) (b : Bool) (refused : HandlerResult)
      → Triple I
          (Persisted laws.known (action_id api t) (action_key api t) b)
          (if not b
            then pure refused
            else (outcome_or_throw api (invoke_provider api (action_id api t) (request api t))
                >>= λ r. after_call api t r))
          (λ _. I)
  after_mark-Safe t false refused = Triple-pure _ (fresh_inv (action_key api t))
  after_mark-Safe t true refused = Triple-bind _ _ (invoke-Safe t) (after_call-Safe t)

  call_provider-Safe :
      (t : Task) → Triple I (Ready laws.known (action_key api t)) (call_provider api t) (λ _. I)
  unfolding call_provider mark_started
  call_provider-Safe t =
      let i = action_id api t in
      let k = action_key api t in
      Triple-bind (mark_started api i) _ (Triple-mark laws.known i k _ (laws.started_keeps i))
        (λ b. after_mark-Safe t b _)

  started_action-Safe :
      (t : Task) → Triple I (Ready laws.known (action_key api t)) (started_action api t) (λ _. I)
  unfolding started_action
  started_action-Safe t =
      let k = action_key api t in
      Triple-bind (quiet (api.cancellation_requested t)) _
        (Triple-quiet laws.known _ (laws.cancellation_keeps t) (Ready-Stable laws.known k)
          (fresh_inv k))
        (λ b.
          Triple-if b _ _
            (Triple-weaken _ (fresh_inv k) (λ a s p. p)
              (Safe-bind _ _
                (Safe-quiet _
                  (laws.transition_keeps (action_id api t) ActionStatus.failed_permanent))
                (λ c. Safe-pure _)))
            (call_provider-Safe t))

  lost_duplicate-Safe : (o : Option Action) → Safe (lost_duplicate api o)
  lost_duplicate-Safe none = Safe-pure _
  lost_duplicate-Safe (some a) = existing-Safe a

  after_submit-Safe :
      (t : Task) (r : SubmitResult)
      → Triple I (Submitted laws.known (action_key api t) r) (after_submit api t r) (λ _. I)
  unfolding after_submit
  after_submit-Safe t SubmitResult.duplicate =
      Safe-bind _ _ (Safe-quiet _ (laws.find_keeps (action_key api t))) lost_duplicate-Safe
  after_submit-Safe t SubmitResult.other_submit = Safe-pure _
  after_submit-Safe t SubmitResult.accepted =
      let k = action_key api t in
      Triple-bind (quiet (api.start (action_id api t) (text "provider-handler") t.max_runtime)) _
        (Triple-quiet laws.known _ (laws.start_keeps _ _ _) (Ready-Stable laws.known k)
          (fresh_inv k))
        (λ b. Triple-if (not b) _ _ (Triple-pure _ (fresh_inv k)) (started_action-Safe t))

  abbrev Admission : Text → Result ConsumeResult → World W Event → Type 0
  Admission k (ok r) = Granted laws.known k r
  Admission k (raised e) = Fresh laws.known k

  budget-Admission :
      (t : Task)
      → Triple I
          (Fresh laws.known (action_key api t))
          (budget_or_throw api t)
          (Admission (action_key api t))
  unfolding consume_budget
  budget-Admission t =
      let k = action_key api t in
      Triple-catch {Y = Fresh laws.known k} _ _
        (Triple-bind (quiet api.budget_now) _
          (Triple-quiet laws.known _ laws.now_keeps (Fresh-Stable laws.known k) (λ s p. p))
          (λ now.
            Triple-bind (consume_budget api (budget_scope api) k now) _
              (Triple-consume laws.known k _ (laws.consume_keeps _ _ _))
              (λ r. Triple-pure (ok r) (λ s p. p))))
        (λ e. Triple-pure (raised e) (λ s p. p))

  submission-Safe :
      (t : Task)
      → Triple I
          (Paid laws.known (action_key api t))
          (quiet (api.submit (action_id api t) (action_key api t) true) >>= λ submitted.
            after_submit api t submitted)
          (λ _. I)
  submission-Safe t =
      Triple-bind _ _ (Triple-submit api laws (action_id api t) (action_key api t))
        (after_submit-Safe t)

  after_budget-Safe :
      (t : Task) (r : Result ConsumeResult)
      → Triple I (Admission (action_key api t) r) (after_budget api t r) (λ _. I)
  unfolding after_budget
  after_budget-Safe t (raised e) = Triple-pure _ (λ s p. p.inv)
  after_budget-Safe t (ok ConsumeResult.accepted) = submission-Safe t
  after_budget-Safe t (ok ConsumeResult.duplicate) = submission-Safe t
  after_budget-Safe t (ok _) = Triple-pure _ (λ s p. p.inv)

  after_lookup-Safe :
      (t : Task) (o : Option Action)
      → Triple I (Found laws.known (action_key api t) o) (after_lookup api t o) (λ _. I)
  after_lookup-Safe t (some a) = existing-Safe a
  after_lookup-Safe t none =
      Triple-bind (budget_or_throw api t) _ (budget-Admission t) (after_budget-Safe t)

  pub execute-Safe : (t : Task) → Safe (execute api t)
  unfolding execute
  execute-Safe t = Safe-bind _ _ (Safe-quiet _ (laws.cancellation_keeps t)) (λ b.
      Safe-if b _ _ (Safe-pure _) (
        Triple-bind (quiet (api.find_by_idempotency_key (action_key api t))) _
          (Triple-find api laws (action_key api t)) (after_lookup-Safe t)))
