-- ===== src/Control/Fields.antt =====
-- The fields of an accepted command, against the table of Rules (validate_command of src/LiveControl.cpp).
use gaudere_agent.Prelude.{◌≡◌, true, false, not, arith, is_some, empty}
use gaudere_agent.Text.{Text}
use gaudere_agent.Effects.{ok}
use gaudere_agent.Control.Command.{
  Operation, Command, submit_local_goose_dialogue_v2_next, submit_local_goose_dialogue_v3_root,
  submit_local_goose_dialogue_v3_next, bind_local_goose_dialogue_thread_head,
  submit_local_goose_dialogue_v3_preferred_next, create_local_goose_dialogue_responder_lease,
  prepare_local_goose_dialogue_responder_intent,
}
use gaudere_agent.Control.Validate.{
  refuse_if, check_root, check_v3_text, check_operation, validate_command,
}
use gaudere_agent.Control.Rules.{
  fits, text_rule, predecessor_rule, speaker_kind_rule, speaker_id_rule, message_kind_rule,
  alias_rule, revision_rule, sequence_rule, lease_rule, ttl_rule, Carries,
}
use gaudere_agent.Control.Checks.{
  reason_nonempty, sequence_nonempty, Passed, refuse_ok, or_false, identifier_given, both_ok,
  absent, no_provenance, no_thread, no_responder, lease_fields, intent_fields, provenance_fields,
  create_ok, prepare_ok, root_ok, next_ok, preferred_ok,
}

present : (s : Text) → empty s ≡ false → not (empty s) ≡ true
present s h = ground arith

predecessor_fits :
    (o : Operation) (c : Command)
    → Passed o c
    → fits (predecessor_rule o) (not (empty c.predecessor_task_id)) ≡ true
unfolding check_operation
predecessor_fits submit_local_goose_dialogue_v3_next c h = rw (next_ok c h.0).1
predecessor_fits submit_local_goose_dialogue_v2_next c h =
    present _ (identifier_given _ (refuse_ok _ _ (both_ok _ _ h.0).1))
predecessor_fits bind_local_goose_dialogue_thread_head c h =
    present _ (identifier_given _ (or_false _ _ (refuse_ok _ _ h.0)).1)
predecessor_fits o c h = rw (absent o c h.1).0

speaker_kind_fits :
    (o : Operation) (c : Command)
    → Passed o c
    → fits (speaker_kind_rule o) (not (empty c.speaker_kind)) ≡ true
speaker_kind_fits submit_local_goose_dialogue_v3_root c h =
    rw (provenance_fields c (root_ok c h.0)).0
speaker_kind_fits submit_local_goose_dialogue_v3_next c h =
    rw (provenance_fields c (next_ok c h.0).0).0
speaker_kind_fits submit_local_goose_dialogue_v3_preferred_next c h =
    rw (provenance_fields c (preferred_ok c h.0).0).0
speaker_kind_fits create_local_goose_dialogue_responder_lease c h =
    rw (lease_fields c (create_ok c h.0)).1
speaker_kind_fits prepare_local_goose_dialogue_responder_intent c h =
    rw (intent_fields c (prepare_ok c h.0)).1
speaker_kind_fits o c h = (no_provenance c (absent o c h.1).1).0

speaker_id_fits :
    (o : Operation) (c : Command)
    → Passed o c
    → fits (speaker_id_rule o) (not (empty c.speaker_id)) ≡ true
speaker_id_fits submit_local_goose_dialogue_v3_root c h = rw (provenance_fields c (root_ok c h.0)).1
speaker_id_fits submit_local_goose_dialogue_v3_next c h =
    rw (provenance_fields c (next_ok c h.0).0).1
speaker_id_fits submit_local_goose_dialogue_v3_preferred_next c h =
    rw (provenance_fields c (preferred_ok c h.0).0).1
speaker_id_fits create_local_goose_dialogue_responder_lease c h =
    rw (lease_fields c (create_ok c h.0)).2
speaker_id_fits prepare_local_goose_dialogue_responder_intent c h =
    rw (intent_fields c (prepare_ok c h.0)).2
speaker_id_fits o c h = (no_provenance c (absent o c h.1).1).1

message_kind_fits :
    (o : Operation) (c : Command)
    → Passed o c
    → fits (message_kind_rule o) (not (empty c.message_kind)) ≡ true
message_kind_fits submit_local_goose_dialogue_v3_root c h =
    rw (provenance_fields c (root_ok c h.0)).2
message_kind_fits submit_local_goose_dialogue_v3_next c h =
    rw (provenance_fields c (next_ok c h.0).0).2
message_kind_fits submit_local_goose_dialogue_v3_preferred_next c h =
    rw (provenance_fields c (preferred_ok c h.0).0).2
message_kind_fits create_local_goose_dialogue_responder_lease c h =
    rw (lease_fields c (create_ok c h.0)).3
message_kind_fits prepare_local_goose_dialogue_responder_intent c h =
    rw (intent_fields c (prepare_ok c h.0)).3
message_kind_fits o c h = (no_provenance c (absent o c h.1).1).2

alias_fits :
    (o : Operation) (c : Command)
    → Passed o c
    → fits (alias_rule o) (not (empty c.thread_alias)) ≡ true
alias_fits submit_local_goose_dialogue_v3_preferred_next c h = rw (preferred_ok c h.0).1
alias_fits create_local_goose_dialogue_responder_lease c h = rw (lease_fields c (create_ok c h.0)).4
alias_fits o c h = (no_thread c (absent o c h.1).2).0

revision_fits :
    (o : Operation) (c : Command)
    → Passed o c
    → fits (revision_rule o) (is_some c.expected_thread_revision) ≡ true
revision_fits submit_local_goose_dialogue_v3_preferred_next c h = rw (preferred_ok c h.0).2
revision_fits create_local_goose_dialogue_responder_lease c h =
    rw (lease_fields c (create_ok c h.0)).5
revision_fits o c h = (no_thread c (absent o c h.1).2).1

sequence_fits :
    (o : Operation) (c : Command)
    → Passed o c
    → fits (sequence_rule o) (is_some c.responder_completion_sequence) ≡ true
sequence_fits create_local_goose_dialogue_responder_lease c h =
    rw (lease_fields c (create_ok c h.0)).6
sequence_fits prepare_local_goose_dialogue_responder_intent c h =
    rw (intent_fields c (prepare_ok c h.0)).4
sequence_fits o c h = (no_responder c (absent o c h.1).3).0

turns_fits :
    (o : Operation) (c : Command)
    → Passed o c
    → fits (lease_rule o) (is_some c.responder_max_system_turns) ≡ true
turns_fits create_local_goose_dialogue_responder_lease c h = rw (lease_fields c (create_ok c h.0)).7
turns_fits prepare_local_goose_dialogue_responder_intent c h =
    rw (intent_fields c (prepare_ok c h.0)).5
turns_fits o c h = (no_responder c (absent o c h.1).3).1

ttl_fits :
    (o : Operation) (c : Command)
    → Passed o c
    → fits (ttl_rule o) (is_some c.responder_ttl_ms) ≡ true
ttl_fits create_local_goose_dialogue_responder_lease c h = rw (lease_fields c (create_ok c h.0)).8
ttl_fits prepare_local_goose_dialogue_responder_intent c h =
    rw (intent_fields c (prepare_ok c h.0)).6
ttl_fits o c h = (no_responder c (absent o c h.1).3).2

interval_fits :
    (o : Operation) (c : Command)
    → Passed o c
    → fits (lease_rule o) (is_some c.responder_min_interval_ms) ≡ true
interval_fits create_local_goose_dialogue_responder_lease c h =
    rw (lease_fields c (create_ok c h.0)).9
interval_fits prepare_local_goose_dialogue_responder_intent c h =
    rw (intent_fields c (prepare_ok c h.0)).7
interval_fits o c h = (no_responder c (absent o c h.1).3).3

text_fits :
    (o : Operation) (c : Command) → Passed o c → fits (text_rule o) (not (empty c.text)) ≡ true
unfolding check_operation refuse_if check_root check_v3_text
text_fits create_local_goose_dialogue_responder_lease c h = rw (lease_fields c (create_ok c h.0)).0
text_fits prepare_local_goose_dialogue_responder_intent c h =
    rw (intent_fields c (prepare_ok c h.0)).0
text_fits _ c h = ground (arith, reason_nonempty c.text, sequence_nonempty c.text)

validate-Passed : (c : Command) → validate_command c ≡ ok tt → Passed c.operation c
unfolding validate_command
validate-Passed c h = ((both_ok _ _ (both_ok _ _ h).0).1, (both_ok _ _ h).1)

-- A command that validate_command accepts carries exactly the fields that the table gives for its
-- operation: every required field is present and every forbidden one is absent.
pub validate_command-Carries : (c : Command) → validate_command c ≡ ok tt → Carries c.operation c
validate_command-Carries c h =
    let o = c.operation in
    let p = validate-Passed c h in
    (
      text_fits o c p,
      predecessor_fits o c p,
      speaker_kind_fits o c p,
      speaker_id_fits o c p,
      message_kind_fits o c p,
      alias_fits o c p,
      revision_fits o c p,
      sequence_fits o c p,
      turns_fits o c p,
      ttl_fits o c p,
      interval_fits o c p,
    )
