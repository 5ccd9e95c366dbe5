-- ===== src/Provider/Api.antt =====
-- What the provider handler calls: the action runtime and store, the budget store and its clock of the
-- Gaudere library, and the provider (src/Provider.hpp). None of them is modelled; `Laws` states what
-- the handler relies on: the action store is durable.
use gaudere_agent.Prelude.{ℕ, ◌≡◌, Bool, true, false, Option, none, ℤ}
use gaudere_agent.Text.{Text}
use gaudere_agent.Effects.{Result, ok, M}
use gaudere_agent.Work.Task.{Task}

-- The enumerators that the handler names, and the others.
pub data ActionStatus : Type 0 where
  pending running retry_wait succeeded failed_permanent manual_review other_status : ActionStatus

pub data EffectResult : Type 0 where
  confirmed unknown other_effect : EffectResult

pub record Action : Type 0 where
  pub id : Text
  pub idempotency_key : Text
  pub critical : Bool
  pub status : ActionStatus
  pub effect_result : EffectResult

pub data SubmitResult : Type 0 where
  accepted duplicate other_submit : SubmitResult

pub data ConsumeResult : Type 0 where
  accepted duplicate total_exhausted window_exhausted cooldown clock_rollback : ConsumeResult

pub data ProviderOutcome : Type 0 where
  succeeded rejected effect_unknown : ProviderOutcome

pub record ProviderRequest : Type 0 where
  pub idempotency_key : Text
  pub content_type : Text
  pub input : Text
  pub max_output_bytes : ℕ
  pub max_runtime : ℕ

pub record ProviderResult : Type 0 where
  pub outcome : ProviderOutcome
  pub content_type : Text
  pub output : Text
  pub failure_code : Text
  pub failure_message : Text
  pub metadata_content_type : Text
  pub metadata : Text

-- `submit` takes the fields that the handler sets: the id, the key and `critical`.
pub record Api (W : Type 0) : Type 0 where
  pub provider_name : Text
  pub cancellation_requested : Task → M W Bool
  pub find_by_idempotency_key : Text → M W (Option Action)
  pub budget_now : M W ℤ
  pub consume : Text → Text → ℤ → M W ConsumeResult
  pub submit : Text → Text → Bool → M W SubmitResult
  pub start : Text → Text → ℕ → M W Bool
  pub transition : Text → ActionStatus → M W Bool
  pub record_effect_started : Text → M W Bool
  pub record_confirmed_result : Text → M W Bool
  pub record_unknown_result : Text → M W Bool
  pub invoke : ProviderRequest → M W ProviderResult

-- A call that never loses an action, also where it raises.
abbrev pub Keeps {ℓ} : {W : Type 0} {A : Type ℓ} → (Text → W → Bool) → (W → Result A × W) → Type 0
Keeps {W} known m = (w : W) (key : Text) → known key w ≡ true → known key (m w).1 ≡ true

-- `known key` says that the store holds an action with that idempotency key.
pub record Laws {W : Type 0} (api : Api W) : Type 0 where
  pub known : Text → W → Bool
  pub find_none :
      (key : Text) (w : W)
      → (api.find_by_idempotency_key key w).0 ≡ ok none
      → known key (api.find_by_idempotency_key key w).1 ≡ false
  pub submit_accepted :
      (id key : Text) (critical : Bool) (w : W)
      → (api.submit id key critical w).0 ≡ ok accepted
      → known key (api.submit id key critical w).1 ≡ true
  pub cancellation_keeps : (t : Task) → Keeps known (api.cancellation_requested t)
  pub find_keeps : (k : Text) → Keeps known (api.find_by_idempotency_key k)
  pub now_keeps : Keeps known api.budget_now
  pub consume_keeps : (s k : Text) (now : ℤ) → Keeps known (api.consume s k now)
  pub submit_keeps : (i k : Text) (c : Bool) → Keeps known (api.submit i k c)
  pub start_keeps : (i w : Text) (n : ℕ) → Keeps known (api.start i w n)
  pub transition_keeps : (i : Text) (s : ActionStatus) → Keeps known (api.transition i s)
  pub started_keeps : (i : Text) → Keeps known (api.record_effect_started i)
  pub confirmed_keeps : (i : Text) → Keeps known (api.record_confirmed_result i)
  pub unknown_keeps : (i : Text) → Keeps known (api.record_unknown_result i)
  pub invoke_keeps : (r : ProviderRequest) → Keeps known (api.invoke r)
