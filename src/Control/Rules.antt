-- ===== src/Control/Rules.antt =====
-- Which fields each operation of the control protocol takes: a table that is independent of the checks of
-- validate_command (src/LiveControl.cpp).
use gaudere_agent.Prelude.{◌≡◌, Bool, true, not, is_some, empty}
use gaudere_agent.Control.Command.{
  Operation, Command, submit_echo, submit_openai, submit_reflection, submit_local_goose_dialogue,
  submit_local_goose_dialogue_v2_root, submit_local_goose_dialogue_v2_next,
  submit_local_goose_dialogue_v3_root, submit_local_goose_dialogue_v3_next,
  bind_local_goose_dialogue_thread_head, submit_local_goose_dialogue_v3_preferred_next,
  acknowledge_local_goose_dialogue_completion, create_local_goose_dialogue_responder_lease,
  revoke_local_goose_dialogue_responder_lease, prepare_local_goose_dialogue_responder_intent,
  revoke_wake,
}

pub data Presence : Type 0 where
  required forbidden optional : Presence

abbrev pub fits : Presence → Bool → Bool
fits required present = present
fits forbidden present = not present
fits optional present = true

abbrev pub text_rule : Operation → Presence
text_rule submit_echo = optional
text_rule submit_openai = required
text_rule submit_reflection = required
text_rule submit_local_goose_dialogue = required
text_rule submit_local_goose_dialogue_v2_root = required
text_rule submit_local_goose_dialogue_v2_next = required
text_rule submit_local_goose_dialogue_v3_root = required
text_rule submit_local_goose_dialogue_v3_next = required
text_rule submit_local_goose_dialogue_v3_preferred_next = required
text_rule acknowledge_local_goose_dialogue_completion = required
text_rule create_local_goose_dialogue_responder_lease = required
text_rule revoke_local_goose_dialogue_responder_lease = required
text_rule prepare_local_goose_dialogue_responder_intent = required
text_rule revoke_wake = required
text_rule _ = forbidden

abbrev pub predecessor_rule : Operation → Presence
predecessor_rule submit_local_goose_dialogue_v2_next = required
predecessor_rule submit_local_goose_dialogue_v3_next = required
predecessor_rule bind_local_goose_dialogue_thread_head = required
predecessor_rule _ = forbidden

abbrev pub speaker_kind_rule : Operation → Presence
speaker_kind_rule submit_local_goose_dialogue_v3_root = required
speaker_kind_rule submit_local_goose_dialogue_v3_next = required
speaker_kind_rule submit_local_goose_dialogue_v3_preferred_next = required
speaker_kind_rule _ = forbidden

abbrev pub speaker_id_rule : Operation → Presence
speaker_id_rule create_local_goose_dialogue_responder_lease = required
speaker_id_rule o = speaker_kind_rule o

abbrev pub message_kind_rule : Operation → Presence
message_kind_rule prepare_local_goose_dialogue_responder_intent = required
message_kind_rule o = speaker_id_rule o

abbrev pub alias_rule : Operation → Presence
alias_rule submit_local_goose_dialogue_v3_preferred_next = required
alias_rule create_local_goose_dialogue_responder_lease = required
alias_rule _ = forbidden

abbrev pub revision_rule : Operation → Presence
revision_rule submit_local_goose_dialogue_v3_preferred_next = required
revision_rule _ = forbidden

abbrev pub sequence_rule : Operation → Presence
sequence_rule prepare_local_goose_dialogue_responder_intent = required
sequence_rule _ = forbidden

abbrev pub lease_rule : Operation → Presence
lease_rule create_local_goose_dialogue_responder_lease = required
lease_rule _ = forbidden

abbrev pub ttl_rule : Operation → Presence
ttl_rule create_local_goose_dialogue_responder_lease = required
ttl_rule prepare_local_goose_dialogue_responder_intent = required
ttl_rule _ = forbidden

-- The fields of c are present and absent as the table says for operation o.
abbrev pub Carries : Operation → Command → Type 0
Carries o c =
    (fits (text_rule o) (not (empty c.text)) ≡ true)
    × (fits (predecessor_rule o) (not (empty c.predecessor_task_id)) ≡ true)
    × (fits (speaker_kind_rule o) (not (empty c.speaker_kind)) ≡ true)
    × (fits (speaker_id_rule o) (not (empty c.speaker_id)) ≡ true)
    × (fits (message_kind_rule o) (not (empty c.message_kind)) ≡ true)
    × (fits (alias_rule o) (not (empty c.thread_alias)) ≡ true)
    × (fits (revision_rule o) (is_some c.expected_thread_revision) ≡ true)
    × (fits (sequence_rule o) (is_some c.responder_completion_sequence) ≡ true)
    × (fits (lease_rule o) (is_some c.responder_max_system_turns) ≡ true)
    × (fits (ttl_rule o) (is_some c.responder_ttl_ms) ≡ true)
    × (fits (lease_rule o) (is_some c.responder_min_interval_ms) ≡ true)
