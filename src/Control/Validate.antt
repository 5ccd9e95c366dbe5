-- ===== src/Control/Validate.antt =====
-- validate_command of src/LiveControl.cpp: which commands the client may send and the server accepts.
use gaudere_agent.Prelude.{
  int64_max, ℕ, ◌+◌, ◌-◌, ◌*◌, ◌/◌, ◌%◌, ◌^◌, Bool, true, false, not, ◌&&◌, ◌||◌, Option, none,
  some, [], ◌∷◌, ltb, ◌==◌, if◌then◌else◌, is_some, holds, length, empty, ℤ, pos, ltb_ℤ, leb_ℤ,
  String,
}
use gaudere_agent.Text.{Text, text, eqb, safe_identifier, safe_text}
use gaudere_agent.Effects.{Result, ok, raised, standard}
use gaudere_agent.Control.Command.{
  Operation, Command, submit_echo, submit_openai, submit_reflection, submit_local_goose_dialogue,
  submit_local_goose_dialogue_v2_root, submit_local_goose_dialogue_v2_next,
  submit_local_goose_dialogue_v3_root, submit_local_goose_dialogue_v3_next,
  bind_local_goose_dialogue_thread_head, inspect_local_goose_dialogue_thread_head,
  submit_local_goose_dialogue_v3_preferred_next, inspect_local_goose_dialogue_completion,
  acknowledge_local_goose_dialogue_completion, create_local_goose_dialogue_responder_lease,
  revoke_local_goose_dialogue_responder_lease, inspect_local_goose_dialogue_responder_lease,
  prepare_local_goose_dialogue_responder_intent, dispatch_local_goose_dialogue_responder_intent,
  inspect_local_goose_dialogue_responder_intent, inspect_task, inspect_budget, accept_wake,
  revoke_wake, inspect_wake, inspect_wake_status, stimulate_local_goose_cycle,
}

abbrev pub max_responder_duration_ms : ℕ
max_responder_duration_ms = 86400000

-- The loop of positive_sequence_text, in uint64 arithmetic; none is `return false`.
unfoldable pub sequence_loop : ℕ → Text → Option ℕ
sequence_loop sequence [] = some sequence
sequence_loop sequence (c ∷ rest) =
    let digit = c - b'0' in
    let tail = sequence_loop ((sequence * 10 + digit) % 2 ^ 64) rest in
    if ltb c b'0' || ltb b'9' c
    then none
    else if ltb ((int64_max - digit) / 10) sequence
    then none
    else tail

abbrev pub starts_with_zero : Text → Bool
starts_with_zero [] = false
starts_with_zero (c ∷ rest) = c == b'0'

unfoldable pub positive_sequence_text : Text → Bool
positive_sequence_text value =
    if empty value || ltb 19 (length value) || starts_with_zero value
    then false
    else holds (λ sequence. not (sequence == 0)) (sequence_loop 0 value)

unfoldable pub safe_reason : Text → Bool
safe_reason reason = if empty reason || ltb 1024 (length reason) then false else safe_text reason

unfoldable pub valid_v3_speaker_kind : Text → Bool
valid_v3_speaker_kind value = eqb value (text "human") || eqb value (text "system")

unfoldable pub valid_v3_message_kind : Text → Bool
valid_v3_message_kind value =
    eqb value (text "dialogue")
    || eqb value (text "feedback")
    || eqb value (text "intervention")
    || eqb value (text "observation")

unfoldable pub has_v3_provenance : Command → Bool
has_v3_provenance c =
    not (empty c.speaker_kind) || not (empty c.speaker_id) || not (empty c.message_kind)

unfoldable pub has_thread_fields : Command → Bool
has_thread_fields c = not (empty c.thread_alias) || is_some c.expected_thread_revision

unfoldable pub has_responder_fields : Command → Bool
has_responder_fields c =
    is_some c.responder_completion_sequence
    || is_some c.responder_max_system_turns
    || is_some c.responder_ttl_ms
    || is_some c.responder_min_interval_ms

abbrev pub Check : Type 0
Check = Result (Unit {0})

-- if (condition) throw std::invalid_argument(message)
unfoldable pub refuse_if : Bool → String → Check
refuse_if condition message = if condition then raised (standard (text message)) else ok tt

infixl 5 ◌>>◌
abbrev pub ◌>>◌ : Check → Check → Check
ok a >> next = next
raised e >> next = raised e

-- size() == 0 or more than `limit`
abbrev pub outside : Text → ℕ → Bool
outside value limit = empty value || ltb limit (length value)

abbrev pub bad_provenance : Command → Bool
bad_provenance c =
    not (valid_v3_speaker_kind c.speaker_kind)
    || not (safe_identifier c.speaker_id)
    || not (valid_v3_message_kind c.message_kind)

abbrev pub bad_duration : ℤ → Bool
bad_duration ms = leb_ℤ ms (pos 0) || ltb_ℤ (pos max_responder_duration_ms) ms

abbrev pub bad_interval : ℤ → Bool
bad_interval ms = ltb_ℤ ms (pos 0) || ltb_ℤ (pos max_responder_duration_ms) ms

abbrev pub lacks {ℓ} : {A : Type ℓ} → Option A → (A → Bool) → Bool
lacks none bad = true
lacks (some a) bad = bad a

unfoldable pub check_root : Command → Check
check_root c =
    refuse_if (outside c.text 4096) "Local Goose dialogue message must be 1..4096 bytes"
    >> refuse_if (not (empty c.predecessor_task_id))
        "Local Goose root dialogue does not accept a predecessor"

unfoldable pub check_v3_text : Command → Check
check_v3_text c =
    refuse_if (outside c.text 4096) "Local Goose dialogue v3 message must be 1..4096 bytes"

unfoldable pub check_provenance : Command → Check
check_provenance c = refuse_if (bad_provenance c) "Local Goose dialogue v3 provenance is invalid"

unfoldable pub bad_lease : Command → Bool
bad_lease c =
    not (safe_identifier c.thread_alias)
    || not (safe_identifier c.speaker_id)
    || not (valid_v3_message_kind c.message_kind)
    || not (empty c.speaker_kind)
    || not (empty c.predecessor_task_id)
    || is_some c.expected_thread_revision
    || not (safe_reason c.text)
    || lacks c.responder_max_system_turns (λ turns. turns == 0 || ltb 8 turns)
    || lacks c.responder_ttl_ms bad_duration
    || lacks c.responder_min_interval_ms bad_interval
    || is_some c.responder_completion_sequence

unfoldable pub bad_intent : Command → Bool
bad_intent c =
    outside c.text 4096
    || not (valid_v3_message_kind c.message_kind)
    || not (empty c.speaker_kind)
    || not (empty c.speaker_id)
    || not (empty c.thread_alias)
    || is_some c.expected_thread_revision
    || not (empty c.predecessor_task_id)
    || lacks c.responder_completion_sequence (λ sequence. sequence == 0 || ltb int64_max sequence)
    || lacks c.responder_ttl_ms bad_duration
    || is_some c.responder_max_system_turns
    || is_some c.responder_min_interval_ms

unfoldable pub has_extras : Command → Bool
has_extras c =
    has_responder_fields c
    || has_v3_provenance c
    || has_thread_fields c
    || not (empty c.predecessor_task_id)

-- The `switch` on the operation.
unfoldable pub check_operation : Operation → Command → Check
check_operation submit_echo c =
    refuse_if (ltb 4096 (length c.text)) "local.echo input exceeds 4096 bytes"
check_operation submit_openai c =
    refuse_if (outside c.text 16384) "OpenAI input must be 1..16384 bytes"
check_operation submit_reflection c =
    refuse_if (outside c.text 4096) "bounded reflection objective must be 1..4096 bytes"
check_operation submit_local_goose_dialogue c = check_root c
check_operation submit_local_goose_dialogue_v2_root c = check_root c
check_operation submit_local_goose_dialogue_v2_next c =
    refuse_if (outside c.text 4096) "Local Goose dialogue message must be 1..4096 bytes"
    >> refuse_if (not (safe_identifier c.predecessor_task_id))
        "Local Goose dialogue predecessor Task id is invalid"
check_operation submit_local_goose_dialogue_v3_root c =
    check_v3_text c
    >> refuse_if (not (empty c.predecessor_task_id))
        "Local Goose dialogue v3 root does not accept a predecessor"
    >> check_provenance c
check_operation submit_local_goose_dialogue_v3_next c =
    check_v3_text c
    >> refuse_if (not (safe_identifier c.predecessor_task_id))
        "Local Goose dialogue v3 predecessor Task id is invalid"
    >> check_provenance c
check_operation bind_local_goose_dialogue_thread_head c =
    refuse_if (not (empty c.text) || not (safe_identifier c.predecessor_task_id))
      "dialogue thread bind requires alias id and canonical head Task id"
check_operation inspect_local_goose_dialogue_thread_head c =
    refuse_if (not (empty c.text) || not (empty c.predecessor_task_id))
      "dialogue thread inspection accepts only an alias id"
check_operation submit_local_goose_dialogue_v3_preferred_next c =
    refuse_if (outside c.text 4096)
      "Local Goose dialogue v3 preferred message must be 1..4096 bytes"
    >> refuse_if (not (empty c.predecessor_task_id))
        "preferred dialogue submission derives predecessor from thread head"
    >> refuse_if
        (bad_provenance c
          || not (safe_identifier c.thread_alias)
          || lacks c.expected_thread_revision (λ revision. ltb int64_max revision))
        "Local Goose preferred dialogue provenance/thread revision is invalid"
check_operation inspect_local_goose_dialogue_completion c =
    refuse_if (not (empty c.text)) "dialogue completion inspection accepts only a consumer id"
check_operation acknowledge_local_goose_dialogue_completion c =
    refuse_if (not (positive_sequence_text c.text))
      "dialogue completion acknowledgement requires a positive sequence"
check_operation create_local_goose_dialogue_responder_lease c =
    refuse_if (bad_lease c)
      "responder lease requires alias, system speaker id, message kind, purpose, 1..8 turns, ttl and minimum interval"
check_operation revoke_local_goose_dialogue_responder_lease c =
    refuse_if (not (safe_reason c.text) || has_extras c)
      "responder lease revocation accepts only lease id and reason"
check_operation inspect_local_goose_dialogue_responder_lease c =
    refuse_if (not (empty c.text) || has_extras c)
      "responder inspection/dispatch accepts only an id"
check_operation dispatch_local_goose_dialogue_responder_intent c =
    refuse_if (not (empty c.text) || has_extras c)
      "responder inspection/dispatch accepts only an id"
check_operation inspect_local_goose_dialogue_responder_intent c =
    refuse_if (not (empty c.text) || has_extras c)
      "responder inspection/dispatch accepts only an id"
check_operation prepare_local_goose_dialogue_responder_intent c =
    refuse_if (bad_intent c)
      "responder intent prepare requires lease id, next sequence, message kind, message and ttl"
check_operation inspect_task c = refuse_if (not (empty c.text)) "inspect_task does not accept text"
check_operation inspect_budget c =
    refuse_if (not (eqb c.id (text "openai")) || not (empty c.text))
      "inspect_budget accepts only id 'openai' and no text"
check_operation accept_wake c =
    refuse_if (not (empty c.text)) "accept_wake accepts only a source task id"
check_operation revoke_wake c =
    refuse_if (not (safe_reason c.text))
      "wake revocation reason must be 1..1024 bytes without control characters"
check_operation inspect_wake c = refuse_if (not (empty c.text)) "inspect_wake does not accept text"
check_operation inspect_wake_status c =
    refuse_if (not (eqb c.id (text "current")) || not (empty c.text))
      "inspect_wake_status accepts only id 'current' and no text"
check_operation stimulate_local_goose_cycle c =
    refuse_if (not (empty c.text)) "stimulate_local_goose_cycle accepts only a bounded request id"

abbrev pub predecessor_operation : Operation → Bool
predecessor_operation submit_local_goose_dialogue_v2_next = true
predecessor_operation submit_local_goose_dialogue_v3_next = true
predecessor_operation bind_local_goose_dialogue_thread_head = true
predecessor_operation _ = false

abbrev pub v3_operation : Operation → Bool
v3_operation submit_local_goose_dialogue_v3_root = true
v3_operation submit_local_goose_dialogue_v3_next = true
v3_operation submit_local_goose_dialogue_v3_preferred_next = true
v3_operation _ = false

abbrev pub responder_provenance_operation : Operation → Bool
responder_provenance_operation create_local_goose_dialogue_responder_lease = true
responder_provenance_operation prepare_local_goose_dialogue_responder_intent = true
responder_provenance_operation _ = false

abbrev pub preferred_operation : Operation → Bool
preferred_operation submit_local_goose_dialogue_v3_preferred_next = true
preferred_operation _ = false

abbrev pub responder_thread_operation : Operation → Bool
responder_thread_operation create_local_goose_dialogue_responder_lease = true
responder_thread_operation _ = false

unfoldable pub check_fields : Operation → Command → Check
check_fields o c =
    refuse_if (not (predecessor_operation o) && not (empty c.predecessor_task_id))
      "live control predecessor Task id is only valid for successor dialogue or thread bind"
    >> refuse_if
        (not (v3_operation o) && not (responder_provenance_operation o) && has_v3_provenance c)
        "live control provenance is only valid for V3 dialogue or responder control"
    >> refuse_if
        (not (preferred_operation o) && not (responder_thread_operation o) && has_thread_fields c)
        "live control thread alias/revision is only valid for preferred V3 dialogue or responder lease creation"
    >> refuse_if (not (responder_provenance_operation o) && has_responder_fields c)
        "live control responder numeric fields are only valid for responder lease/intent creation"

unfoldable pub validate_command : Command → Check
validate_command c =
    refuse_if (not (safe_identifier c.id))
      "task id or wake id must be 1..128 characters using letters, digits, '.', '_', ':', or '-'"
    >> check_operation c.operation c
    >> check_fields c.operation c
