-- ===== src/Control/Command.antt =====
-- Operations and commands of the live control protocol, and the names of the operations on the wire.
use gaudere_agent.Prelude.{ℕ, Option, List, [], ◌∷◌, ℤ, if◌then◌else◌}
use gaudere_agent.Text.{Text, text, eqb}
use gaudere_agent.Effects.{Result, ok, raised, standard}

pub data Operation : Type 0 where
  submit_echo : Operation
  submit_openai : Operation
  submit_reflection : Operation
  submit_local_goose_dialogue : Operation
  submit_local_goose_dialogue_v2_root : Operation
  submit_local_goose_dialogue_v2_next : Operation
  submit_local_goose_dialogue_v3_root : Operation
  submit_local_goose_dialogue_v3_next : Operation
  bind_local_goose_dialogue_thread_head : Operation
  inspect_local_goose_dialogue_thread_head : Operation
  submit_local_goose_dialogue_v3_preferred_next : Operation
  inspect_local_goose_dialogue_completion : Operation
  acknowledge_local_goose_dialogue_completion : Operation
  create_local_goose_dialogue_responder_lease : Operation
  revoke_local_goose_dialogue_responder_lease : Operation
  inspect_local_goose_dialogue_responder_lease : Operation
  prepare_local_goose_dialogue_responder_intent : Operation
  dispatch_local_goose_dialogue_responder_intent : Operation
  inspect_local_goose_dialogue_responder_intent : Operation
  inspect_task : Operation
  inspect_budget : Operation
  accept_wake : Operation
  revoke_wake : Operation
  inspect_wake : Operation
  inspect_wake_status : Operation
  stimulate_local_goose_cycle : Operation

pub record Command : Type 0 where
  pub operation : Operation
  pub id : Text
  pub text : Text
  pub predecessor_task_id : Text
  pub speaker_kind : Text
  pub speaker_id : Text
  pub message_kind : Text
  pub thread_alias : Text
  pub expected_thread_revision : Option ℕ
  pub responder_completion_sequence : Option ℕ
  pub responder_max_system_turns : Option ℕ
  pub responder_ttl_ms : Option ℤ
  pub responder_min_interval_ms : Option ℤ

unfoldable pub operation_name : Operation → Text
operation_name submit_echo = text "submit_echo"
operation_name submit_openai = text "submit_openai"
operation_name submit_reflection = text "submit_reflection"
operation_name submit_local_goose_dialogue = text "submit_local_goose_dialogue"
operation_name submit_local_goose_dialogue_v2_root = text "submit_local_goose_dialogue_v2_root"
operation_name submit_local_goose_dialogue_v2_next = text "submit_local_goose_dialogue_v2_next"
operation_name submit_local_goose_dialogue_v3_root = text "submit_local_goose_dialogue_v3_root"
operation_name submit_local_goose_dialogue_v3_next = text "submit_local_goose_dialogue_v3_next"
operation_name bind_local_goose_dialogue_thread_head = text "bind_local_goose_dialogue_thread_head"
operation_name inspect_local_goose_dialogue_thread_head =
    text "inspect_local_goose_dialogue_thread_head"
operation_name submit_local_goose_dialogue_v3_preferred_next =
    text "submit_local_goose_dialogue_v3_preferred_next"
operation_name inspect_local_goose_dialogue_completion =
    text "inspect_local_goose_dialogue_completion"
operation_name acknowledge_local_goose_dialogue_completion =
    text "acknowledge_local_goose_dialogue_completion"
operation_name create_local_goose_dialogue_responder_lease =
    text "create_local_goose_dialogue_responder_lease"
operation_name revoke_local_goose_dialogue_responder_lease =
    text "revoke_local_goose_dialogue_responder_lease"
operation_name inspect_local_goose_dialogue_responder_lease =
    text "inspect_local_goose_dialogue_responder_lease"
operation_name prepare_local_goose_dialogue_responder_intent =
    text "prepare_local_goose_dialogue_responder_intent"
operation_name dispatch_local_goose_dialogue_responder_intent =
    text "dispatch_local_goose_dialogue_responder_intent"
operation_name inspect_local_goose_dialogue_responder_intent =
    text "inspect_local_goose_dialogue_responder_intent"
operation_name inspect_task = text "inspect_task"
operation_name inspect_budget = text "inspect_budget"
operation_name accept_wake = text "accept_wake"
operation_name revoke_wake = text "revoke_wake"
operation_name inspect_wake = text "inspect_wake"
operation_name inspect_wake_status = text "inspect_wake_status"
operation_name stimulate_local_goose_cycle = text "stimulate_local_goose_cycle"

-- The chain of comparisons of parse_operation, in its order.
unfoldable pub comparisons : List (Text × Operation)
comparisons =
    (text "submit_echo", submit_echo)
    ∷ (text "submit_openai", submit_openai)
    ∷ (text "submit_reflection", submit_reflection)
    ∷ (text "submit_local_goose_dialogue", submit_local_goose_dialogue)
    ∷ (text "submit_local_goose_dialogue_v2_root", submit_local_goose_dialogue_v2_root)
    ∷ (text "submit_local_goose_dialogue_v2_next", submit_local_goose_dialogue_v2_next)
    ∷ (text "submit_local_goose_dialogue_v3_root", submit_local_goose_dialogue_v3_root)
    ∷ (text "submit_local_goose_dialogue_v3_next", submit_local_goose_dialogue_v3_next)
    ∷ (text "bind_local_goose_dialogue_thread_head", bind_local_goose_dialogue_thread_head)
    ∷ (text "inspect_local_goose_dialogue_thread_head", inspect_local_goose_dialogue_thread_head)
    ∷ (
      text "submit_local_goose_dialogue_v3_preferred_next",
      submit_local_goose_dialogue_v3_preferred_next,
    )
    ∷ (text "inspect_local_goose_dialogue_completion", inspect_local_goose_dialogue_completion)
    ∷ (
      text "acknowledge_local_goose_dialogue_completion",
      acknowledge_local_goose_dialogue_completion,
    )
    ∷ (
      text "create_local_goose_dialogue_responder_lease",
      create_local_goose_dialogue_responder_lease,
    )
    ∷ (
      text "revoke_local_goose_dialogue_responder_lease",
      revoke_local_goose_dialogue_responder_lease,
    )
    ∷ (
      text "inspect_local_goose_dialogue_responder_lease",
      inspect_local_goose_dialogue_responder_lease,
    )
    ∷ (
      text "prepare_local_goose_dialogue_responder_intent",
      prepare_local_goose_dialogue_responder_intent,
    )
    ∷ (
      text "dispatch_local_goose_dialogue_responder_intent",
      dispatch_local_goose_dialogue_responder_intent,
    )
    ∷ (
      text "inspect_local_goose_dialogue_responder_intent",
      inspect_local_goose_dialogue_responder_intent,
    )
    ∷ (text "inspect_task", inspect_task)
    ∷ (text "inspect_budget", inspect_budget)
    ∷ (text "accept_wake", accept_wake)
    ∷ (text "revoke_wake", revoke_wake)
    ∷ (text "inspect_wake", inspect_wake)
    ∷ (text "inspect_wake_status", inspect_wake_status)
    ∷ (text "stimulate_local_goose_cycle", stimulate_local_goose_cycle)
    ∷ []

-- The first comparison that succeeds decides.
unfoldable pub first_match : Text → List (Text × Operation) → Result Operation
first_match value [] = raised (standard (text "unsupported live control operation"))
first_match value ((name, operation) ∷ rest) =
    if eqb value name then ok operation else first_match value rest

unfoldable pub parse_operation : Text → Result Operation
unfolding comparisons first_match
parse_operation value = first_match value comparisons
