-- ===== src/Authority/Decision.antt =====
-- Decisions (src/LocalGooseDialogueResponderAuthority.cpp).
use gaudere_agent.Prelude.{
  ℕ, Bool, true, false, not, ◌&&◌, ◌||◌, Option, none, some, [], ◌++◌, ltb, ◌==◌, if◌then◌else◌,
  is_some, holds, length, empty, int64_max, ℤ, pos, ltb_ℤ, leb_ℤ,
}
use gaudere_agent.Text.{
  Text, text, eqb, safe_identifier, bounded_nonempty, lowercase_sha256, prefixed_sha256,
}
use gaudere_agent.Responder.Canonical.{append_text, append_number}
use gaudere_agent.Responder.Lease.{
  max_reason_bytes, max_duration_ms, message_kind_bit, completion_event_prefix, v3_task_prefix,
}
use gaudere_agent.Responder.Intent.{intent_prefix, max_message_bytes}
use gaudere_agent.Authority.Grant.{grant_prefix, uint64_of}

abbrev pub decision_prefix : Text
unfolding text
decision_prefix = text "cognition.local-goose-dialogue.responder-decision.v1:"

pub data DecisionState : Type 0 where
  prepared intent_bound completed conflict expired manual_review : DecisionState

pub record Decision : Type 0 where
  pub decision_id : Text
  pub request_id : Text
  pub authority_source : Text
  pub grant_id : Text
  pub lease_id : Text
  pub consumer_id : Text
  pub completion_sequence : ℕ
  pub event_id : Text
  pub result_sha256 : Text
  pub thread_alias : Text
  pub thread_revision : ℕ
  pub task_id : Text
  pub observed_speaker_kind : Text
  pub observed_speaker_id : Text
  pub expected_head_revision : ℕ
  pub expected_head_task_id : Text
  pub responder_speaker_kind : Text
  pub responder_speaker_id : Text
  pub message_kind : Text
  pub message : Text
  pub intent_ttl_ms : ℤ
  pub created_at_ms : ℤ
  pub state : DecisionState
  pub intent_id : Option Text
  pub bound_at_ms : Option ℤ
  pub completed_at_ms : Option ℤ
  pub terminal_reason : Text
  pub terminal_at_ms : Option ℤ

unfoldable pub decision_canonical : Decision → Text
decision_canonical decision =
    let c0 = text "gaudere.cognition.local-goose-dialogue-responder-decision.v1|" in
    let c1 = append_text c0 decision.request_id in
    let c2 = append_text c1 decision.authority_source in
    let c3 = append_text c2 decision.grant_id in
    let c4 = append_text c3 decision.lease_id in
    let c5 = append_text c4 decision.consumer_id in
    let c6 = append_number c5 decision.completion_sequence in
    let c7 = append_text c6 decision.event_id in
    let c8 = append_text c7 decision.result_sha256 in
    let c9 = append_text c8 decision.thread_alias in
    let c10 = append_number c9 decision.thread_revision in
    let c11 = append_text c10 decision.task_id in
    let c12 = append_text c11 decision.observed_speaker_kind in
    let c13 = append_text c12 decision.observed_speaker_id in
    let c14 = append_number c13 decision.expected_head_revision in
    let c15 = append_text c14 decision.expected_head_task_id in
    let c16 = append_text c15 decision.responder_speaker_kind in
    let c17 = append_text c16 decision.responder_speaker_id in
    let c18 = append_text c17 decision.message_kind in
    let c19 = append_text c18 decision.message in
    append_number c19 (uint64_of decision.intent_ttl_ms)

unfoldable pub valid_decision_state : DecisionState → Bool
valid_decision_state prepared = true
valid_decision_state intent_bound = true
valid_decision_state completed = true
valid_decision_state conflict = true
valid_decision_state expired = true
valid_decision_state manual_review = true

-- The conditions of the first `if`.
unfoldable pub refused_decision : Decision → Bool
refused_decision decision =
    not (prefixed_sha256 decision.decision_id decision_prefix)
    || not (safe_identifier decision.request_id)
    || not (safe_identifier decision.authority_source)
    || not (prefixed_sha256 decision.grant_id grant_prefix)
    || not (safe_identifier decision.lease_id)
    || not (safe_identifier decision.consumer_id)
    || decision.completion_sequence == 0
    || ltb int64_max decision.completion_sequence
    || not (prefixed_sha256 decision.event_id completion_event_prefix)
    || not (lowercase_sha256 decision.result_sha256)
    || not (safe_identifier decision.thread_alias)
    || ltb int64_max decision.thread_revision
    || not (prefixed_sha256 decision.task_id v3_task_prefix)
    || not (eqb decision.observed_speaker_kind (text "human"))
    || not (safe_identifier decision.observed_speaker_id)
    || not (decision.expected_head_revision == decision.thread_revision)
    || not (eqb decision.expected_head_task_id decision.task_id)
    || not (eqb decision.responder_speaker_kind (text "system"))
    || not (safe_identifier decision.responder_speaker_id)
    || message_kind_bit decision.message_kind == 0
    || not (bounded_nonempty decision.message max_message_bytes)
    || leb_ℤ decision.intent_ttl_ms (pos 0)
    || ltb_ℤ max_duration_ms decision.intent_ttl_ms
    || ltb_ℤ decision.created_at_ms (pos 0)
    || not (valid_decision_state decision.state)
    || ltb max_reason_bytes (length decision.terminal_reason)

abbrev pub is_bound : Decision → Bool
is_bound decision = is_some decision.intent_id || is_some decision.bound_at_ms

-- The two checks of the binding.
unfoldable pub refused_bond : Decision → Bool
refused_bond decision =
    (is_some decision.intent_id && not (is_some decision.bound_at_ms))
    || (not (is_some decision.intent_id) && is_some decision.bound_at_ms)
    || holds (λ id. not (prefixed_sha256 id intent_prefix)) decision.intent_id
    || holds (λ at. ltb_ℤ at decision.created_at_ms) decision.bound_at_ms

-- The terminal fields are blank.
abbrev pub decision_open : Decision → Bool
decision_open decision = empty decision.terminal_reason && not (is_some decision.terminal_at_ms)

-- *completed_at_ms >= *bound_at_ms, where both are set
unfoldable pub completed_after : Option ℤ → Option ℤ → Bool
completed_after (some bound_at) (some completed_at) = leb_ℤ bound_at completed_at
completed_after _ _ = false

abbrev pub unfinished_decision : Decision → Bool
unfinished_decision decision =
    is_some decision.completed_at_ms
    || empty decision.terminal_reason
    || not (is_some decision.terminal_at_ms)
    || holds (λ at. ltb_ℤ at decision.created_at_ms) decision.terminal_at_ms

unfoldable pub valid_decision_in : DecisionState → Decision → Bool
valid_decision_in prepared decision =
    not (is_bound decision) && not (is_some decision.completed_at_ms) && decision_open decision
valid_decision_in intent_bound decision =
    is_bound decision && not (is_some decision.completed_at_ms) && decision_open decision
valid_decision_in completed decision =
    is_bound decision
    && completed_after decision.bound_at_ms decision.completed_at_ms
    && decision_open decision
valid_decision_in conflict decision = if unfinished_decision decision then false else true
valid_decision_in expired decision = if unfinished_decision decision then false else true
valid_decision_in manual_review decision = if unfinished_decision decision then false else true

module _ (sha256_hex : Text → Text) where
  unfoldable pub decision_digest : Decision → Text
  decision_digest decision = sha256_hex (decision_canonical decision)

  unfoldable pub valid_decision : Decision → Bool
  valid_decision decision =
      if refused_decision decision
        || not (eqb decision.decision_id (decision_prefix ++ decision_digest decision))
        || refused_bond decision
      then false
      else valid_decision_in decision.state decision

  unfoldable pub make_decision :
      (request_id authority_source grant_id lease_id consumer_id : Text) (completion_sequence : ℕ)
      (event_id result_sha256 thread_alias : Text) (thread_revision : ℕ)
      (task_id observed_speaker_kind observed_speaker_id : Text) (expected_head_revision : ℕ)
      (expected_head_task_id responder_speaker_id message_kind message : Text)
      (intent_ttl_ms created_at_ms : ℤ)
      → Decision
  make_decision request_id authority_source grant_id lease_id consumer_id completion_sequence
        event_id result_sha256 thread_alias thread_revision task_id observed_speaker_kind
        observed_speaker_id expected_head_revision expected_head_task_id responder_speaker_id
        message_kind message intent_ttl_ms created_at_ms =
      let decision : Decision = record {
        decision_id = [];
        request_id = request_id;
        authority_source = authority_source;
        grant_id = grant_id;
        lease_id = lease_id;
        consumer_id = consumer_id;
        completion_sequence = completion_sequence;
        event_id = event_id;
        result_sha256 = result_sha256;
        thread_alias = thread_alias;
        thread_revision = thread_revision;
        task_id = task_id;
        observed_speaker_kind = observed_speaker_kind;
        observed_speaker_id = observed_speaker_id;
        expected_head_revision = expected_head_revision;
        expected_head_task_id = expected_head_task_id;
        responder_speaker_kind = text "system";
        responder_speaker_id = responder_speaker_id;
        message_kind = message_kind;
        message = message;
        intent_ttl_ms = intent_ttl_ms;
        created_at_ms = created_at_ms;
        state = prepared;
        intent_id = none;
        bound_at_ms = none;
        completed_at_ms = none;
        terminal_reason = [];
        terminal_at_ms = none;
      } in
      record decision { decision_id = decision_prefix ++ decision_digest decision }
