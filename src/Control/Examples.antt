-- ===== src/Control/Examples.antt =====
-- Tests of the live control protocol and instances of its theorems at concrete commands.
use gaudere_agent.Prelude.{
  int64_max, ◌≡◌, refl, ◌↔◌, false, not, ◌&&◌, none, [], length, empty, all, leb,
}
use gaudere_agent.Text.{Text, text, safe_identifier, identifier_byte}
use gaudere_agent.Effects.{ok}
use gaudere_agent.Control.Command.{
  Command, submit_local_goose_dialogue_v2_next, inspect_wake, operation_name, parse_operation,
}
use gaudere_agent.Control.Names.{parse_operation_iff}
use gaudere_agent.Control.Validate.{
  starts_with_zero, sequence_loop, positive_sequence_text, refuse_if, check_operation, check_fields,
  validate_command, has_v3_provenance, has_thread_fields, has_responder_fields,
}
use gaudere_agent.Control.Sequence.{decimal, digit_byte, positive_sequence_text_lem}
use gaudere_agent.Control.Rules.{Carries}
use gaudere_agent.Control.Fields.{validate_command-Carries}

parse_operation_iff_example :
    (parse_operation (text "inspect_wake") ≡ ok inspect_wake)
    ↔ (text "inspect_wake" ≡ operation_name inspect_wake)
parse_operation_iff_example = parse_operation_iff (text "inspect_wake") inspect_wake

-- 2^63 is one more than an acknowledgement may name.
abbrev two_to_63 : Text
unfolding text
two_to_63 = text "9223372036854775808"

positive_sequence_text_lem_example : positive_sequence_text two_to_63 ≡ (
    not (empty two_to_63)
    && leb (length two_to_63) 19
    && not (starts_with_zero two_to_63)
    && all digit_byte two_to_63
    && leb 1 (decimal 0 two_to_63)
    && leb (decimal 0 two_to_63) int64_max)
positive_sequence_text_lem_example = positive_sequence_text_lem two_to_63

two_to_63_refused : positive_sequence_text two_to_63 ≡ false
unfolding positive_sequence_text sequence_loop two_to_63 text
two_to_63_refused = refl

abbrev next_message : Command
unfolding text
next_message = record {
  operation = submit_local_goose_dialogue_v2_next;
  id = text "task-2";
  text = text "go on";
  predecessor_task_id = text "task-1";
  speaker_kind = [];
  speaker_id = [];
  message_kind = [];
  thread_alias = [];
  expected_thread_revision = none;
  responder_completion_sequence = none;
  responder_max_system_turns = none;
  responder_ttl_ms = none;
  responder_min_interval_ms = none;
}

next_message_valid : validate_command next_message ≡ ok tt
unfolding validate_command check_operation check_fields refuse_if safe_identifier identifier_byte
    all has_v3_provenance has_thread_fields has_responder_fields next_message text
next_message_valid = refl

validate_command-Carries_example : Carries submit_local_goose_dialogue_v2_next next_message
unfolding next_message
validate_command-Carries_example = validate_command-Carries next_message next_message_valid
