-- ===== src/Provider/Examples.antt =====
-- A concrete action store, budget and provider, and instances of the theorems.
use gaudere_agent.Prelude.{
  ◌≤◌, ◌<◌, ◌≡◌, refl, Bool, true, false, ◌||◌, none, some, List, [], ◌∷◌, arith, if◌then◌else◌,
  pos, Bool-cases, inl, inr,
}
use gaudere_agent.Text.{Text, text, eqb}
use gaudere_agent.Text.Laws.{eqb_refl}
use gaudere_agent.Effects.{ok, M, catch, ◌>>=◌}
use gaudere_agent.Effects.Logged.{World, quiet, logged, note}
use gaudere_agent.Work.Task.{Task, TaskStatus}
use gaudere_agent.Provider.Api.{
  Api, Laws, Action, ActionStatus, EffectResult, SubmitResult, ConsumeResult, ProviderOutcome,
  ProviderResult,
}
use gaudere_agent.Provider.Handler.{
  Event, execute, action_key, action_id, call_provider, started_action, after_submit, after_budget,
  existing_action_result, after_call, settle, budget_scope, valid_metadata_pair, invoke_provider,
  consume_budget, mark_started,
}
use gaudere_agent.Provider.Once.{calls, Ordered}
use gaudere_agent.Provider.History.{begin, handled, History-calls, fresh_log}

abbrev holds_key : Text → List Text → Bool
holds_key k [] = false
holds_key k (j ∷ w) = eqb k j || holds_key k w

abbrev stored : Text → Action
stored k = record {
  id = k;
  idempotency_key = k;
  critical = true;
  status = ActionStatus.running;
  effect_result = EffectResult.other_effect;
}

abbrev always : {A : Type 0} → A → M (List Text) A
always a w = (ok a, w)

abbrev answer : ProviderResult
answer = record {
  outcome = ProviderOutcome.succeeded;
  content_type = text "text/plain";
  output = text "hello";
  failure_code = [];
  failure_message = [];
  metadata_content_type = [];
  metadata = [];
}

abbrev demo : Api (List Text)
demo = record {
  provider_name = text "openai";
  cancellation_requested = λ t. always false;
  find_by_idempotency_key = λ k w. (ok (if holds_key k w then some (stored k) else none), w);
  budget_now = always (pos 0);
  consume = λ s k n. always ConsumeResult.accepted;
  submit = λ i k c w. (ok SubmitResult.accepted, k ∷ w);
  start = λ i w n. always true;
  transition = λ i s. always true;
  record_effect_started = λ i. always true;
  record_confirmed_result = λ i. always true;
  record_unknown_result = λ i. always true;
  invoke = λ r. always answer;
}

demo_find_none :
    (k : Text) (w : List Text)
    → (demo.find_by_idempotency_key k w).0 ≡ ok none
    → holds_key k w ≡ false
demo_find_none k w e = elim (Bool-cases (holds_key k w)) [ inl h ↦ ground arith | inr n ↦ n ]

demo_laws : Laws demo
demo_laws = record {
  known = holds_key;
  find_none = demo_find_none;
  submit_accepted = λ i k c w e. rw (eqb_refl k);
  cancellation_keeps = λ t w k h. h;
  find_keeps = λ j w k h. h;
  now_keeps = λ w k h. h;
  consume_keeps = λ s j n w k h. h;
  submit_keeps = λ i j c w k h. ground arith;
  start_keeps = λ i v n w k h. h;
  transition_keeps = λ i s w k h. h;
  started_keeps = λ i w k h. h;
  confirmed_keeps = λ i w k h. h;
  unknown_keeps = λ i w k h. h;
  invoke_keeps = λ r w k h. h;
}

abbrev task : Task
task = record {
  id = text "t1";
  idempotency_key = text "key1";
  kind = text "openai.response";
  status = TaskStatus.running;
  input_content_type = text "text/plain";
  input = text "hi";
  max_output_bytes = 4096;
  max_runtime = 60;
}

abbrev after_one : World (List Text) Event
after_one = (execute demo task (fresh_log [])).1

abbrev after_two : World (List Text) Event
after_two = (execute demo task after_one).1

-- The first execution calls the provider; the second one does not.
calls_it : calls (action_key demo task) after_one.log ≡ 1
unfolding execute calls quiet logged invoke_provider consume_budget mark_started note catch ◌>>=◌
    action_key action_id call_provider started_action after_submit after_budget after_call settle
    budget_scope valid_metadata_pair text eqb
calls_it = refl

calls_it_once : calls (action_key demo task) after_two.log ≡ 1
unfolding execute calls quiet logged invoke_provider consume_budget mark_started note catch ◌>>=◌
    action_key action_id call_provider started_action after_submit after_budget after_call settle
    budget_scope valid_metadata_pair existing_action_result text eqb
calls_it_once = refl

History-calls_example :
    ((k : Text) → calls k after_two.log ≤ 1)
    × ((k : Text) → 0 < calls k after_two.log → demo_laws.known k after_two.ext ≡ true)
    × Ordered after_two.log
History-calls_example = History-calls demo demo_laws (handled (handled begin task) task)
