-- ===== src/Responder/Intent.antt =====
-- Responder intents (src/LocalGooseDialogueResponder.hpp): their identity, construction and validation.
-- `sha256_hex` is a parameter of what hashes.
use gaudere_agent.Prelude.{
  int64_max, ℕ, ◌+◌, Bool, true, false, not, ◌&&◌, ◌||◌, Option, none, some, [], ◌++◌, ltb, leb,
  ◌==◌, if◌then◌else◌, is_some, holds, length, empty, ℤ, pos, ltb_ℤ, leb_ℤ, ◌-ℤ◌,
}
use gaudere_agent.Text.{
  Text, text, eqb, safe_identifier, bounded_nonempty, lowercase_sha256, prefixed_sha256,
}
use gaudere_agent.Responder.Canonical.{append_text, append_number}
use gaudere_agent.Responder.Lease.{
  max_reason_bytes, max_duration_ms, completion_event_prefix, dialogue_task_id, v3_task_id,
  message_kind_bit,
}

abbrev pub max_message_bytes : ℕ
max_message_bytes = 4096

abbrev pub intent_prefix : Text
unfolding text
intent_prefix = text "cognition.local-goose-dialogue.responder-intent.v1:"

abbrev pub request_prefix : Text
unfolding text
request_prefix = text "responder-v1-"

pub data IntentState : Type 0 where
  prepared submitted completed conflict expired manual_review : IntentState

unfoldable pub valid_intent_state : IntentState → Bool
valid_intent_state prepared = true
valid_intent_state submitted = true
valid_intent_state completed = true
valid_intent_state conflict = true
valid_intent_state expired = true
valid_intent_state manual_review = true

pub record Intent : Type 0 where
  pub intent_id : Text
  pub lease_id : Text
  pub thread_alias : Text
  pub completion_sequence : ℕ
  pub event_id : Text
  pub result_sha256 : Text
  pub triggering_task_id : Text
  pub expected_thread_revision : ℕ
  pub expected_head_task_id : Text
  pub speaker_kind : Text
  pub speaker_id : Text
  pub message_kind : Text
  pub message : Text
  pub request_id : Text
  pub created_at_ms : ℤ
  pub expires_at_ms : ℤ
  pub state : IntentState
  pub submitted_task_id : Text
  pub submitted_thread_revision : Option ℕ
  pub committed_at_ms : Option ℤ
  pub completed_at_ms : Option ℤ
  pub terminal_reason : Text

unfoldable pub intent_canonical : Intent → Text
intent_canonical intent =
    let c0 = text "gaudere.cognition.local-goose-dialogue-responder-intent.v1|" in
    let c1 = append_text c0 intent.lease_id in
    let c2 = append_text c1 intent.thread_alias in
    let c3 = append_number c2 intent.completion_sequence in
    let c4 = append_text c3 intent.event_id in
    let c5 = append_text c4 intent.result_sha256 in
    let c6 = append_text c5 intent.triggering_task_id in
    let c7 = append_number c6 intent.expected_thread_revision in
    let c8 = append_text c7 intent.expected_head_task_id in
    let c9 = append_text c8 intent.speaker_id in
    let c10 = append_text c9 intent.message_kind in append_text c10 intent.message

-- The conditions of the first `if`.
unfoldable pub refused_intent : Intent → Bool
refused_intent intent =
    not (prefixed_sha256 intent.intent_id intent_prefix)
    || not (safe_identifier intent.lease_id)
    || not (safe_identifier intent.thread_alias)
    || intent.completion_sequence == 0
    || ltb int64_max intent.completion_sequence
    || not (prefixed_sha256 intent.event_id completion_event_prefix)
    || not (lowercase_sha256 intent.result_sha256)
    || not (dialogue_task_id intent.triggering_task_id)
    || leb int64_max intent.expected_thread_revision
    || not (dialogue_task_id intent.expected_head_task_id)
    || not (eqb intent.speaker_kind (text "system"))
    || not (safe_identifier intent.speaker_id)
    || message_kind_bit intent.message_kind == 0
    || not (bounded_nonempty intent.message max_message_bytes)
    || not (safe_identifier intent.request_id)
    || ltb_ℤ intent.created_at_ms (pos 0)
    || leb_ℤ intent.expires_at_ms intent.created_at_ms
    || ltb_ℤ max_duration_ms (intent.expires_at_ms -ℤ intent.created_at_ms)
    || not (valid_intent_state intent.state)
    || ltb max_reason_bytes (length intent.terminal_reason)

unfoldable pub any_submission : Intent → Bool
any_submission intent =
    not (empty intent.submitted_task_id)
    || is_some intent.submitted_thread_revision
    || is_some intent.committed_at_ms

unfoldable pub complete_submission : Intent → Bool
complete_submission intent =
    not (empty intent.submitted_task_id)
    && is_some intent.submitted_thread_revision
    && is_some intent.committed_at_ms

-- any_submission != complete_submission, and the checks of a complete one.
unfoldable pub refused_submission : Intent → Bool
refused_submission intent =
    (any_submission intent && not (complete_submission intent))
    || (not (any_submission intent) && complete_submission intent)
    || (complete_submission intent
        && (not (v3_task_id intent.submitted_task_id)
            || not (
                holds (λ revision. revision == intent.expected_thread_revision + 1)
                  intent.submitted_thread_revision)
            || holds (λ committed. ltb_ℤ committed intent.created_at_ms) intent.committed_at_ms))

-- completed_at_ms && *completed_at_ms >= *committed_at_ms
unfoldable pub completed_in_order : Option ℤ → Option ℤ → Bool
completed_in_order (some committed) (some completed_at) = leb_ℤ committed completed_at
completed_in_order _ _ = false

-- The conflict, expired and manual_review states have ended.
unfoldable pub refused_end : Intent → Bool
refused_end intent =
    not (bounded_nonempty intent.terminal_reason max_reason_bytes) || is_some intent.completed_at_ms

unfoldable pub valid_intent_in : IntentState → Intent → Bool
valid_intent_in prepared intent =
    not (complete_submission intent)
    && not (is_some intent.completed_at_ms)
    && empty intent.terminal_reason
valid_intent_in submitted intent =
    complete_submission intent
    && not (is_some intent.completed_at_ms)
    && empty intent.terminal_reason
valid_intent_in completed intent =
    complete_submission intent
    && completed_in_order intent.committed_at_ms intent.completed_at_ms
    && empty intent.terminal_reason
valid_intent_in manual_review intent = if refused_end intent then false else true
valid_intent_in conflict intent =
    if refused_end intent then false else not (complete_submission intent)
valid_intent_in expired intent =
    if refused_end intent then false else not (complete_submission intent)

module _ (sha256_hex : Text → Text) where
  unfoldable pub intent_digest : Intent → Text
  intent_digest intent = sha256_hex (intent_canonical intent)

  -- The identities are not the ones derived from the digest.
  unfoldable pub foreign_intent : Intent → Bool
  foreign_intent intent =
      not (eqb intent.intent_id (intent_prefix ++ intent_digest intent))
      || not (eqb intent.request_id (request_prefix ++ intent_digest intent))

  unfoldable pub valid_intent : Intent → Bool
  valid_intent intent =
      if refused_intent intent || foreign_intent intent || refused_submission intent
      then false
      else valid_intent_in intent.state intent

  unfoldable pub make_intent :
      (lease_id thread_alias : Text) (completion_sequence : ℕ)
      (event_id result_sha256 triggering_task_id : Text) (expected_thread_revision : ℕ)
      (expected_head_task_id speaker_id message_kind message : Text)
      (created_at_ms expires_at_ms : ℤ)
      → Intent
  make_intent lease_id thread_alias completion_sequence event_id result_sha256 triggering_task_id
        expected_thread_revision expected_head_task_id speaker_id message_kind message created_at_ms
        expires_at_ms =
      let intent : Intent = record {
        intent_id = [];
        lease_id = lease_id;
        thread_alias = thread_alias;
        completion_sequence = completion_sequence;
        event_id = event_id;
        result_sha256 = result_sha256;
        triggering_task_id = triggering_task_id;
        expected_thread_revision = expected_thread_revision;
        expected_head_task_id = expected_head_task_id;
        speaker_kind = text "system";
        speaker_id = speaker_id;
        message_kind = message_kind;
        message = message;
        request_id = [];
        created_at_ms = created_at_ms;
        expires_at_ms = expires_at_ms;
        state = prepared;
        submitted_task_id = [];
        submitted_thread_revision = none;
        committed_at_ms = none;
        completed_at_ms = none;
        terminal_reason = [];
      } in
      let digest = intent_digest intent in
      record intent { intent_id = intent_prefix ++ digest; request_id = request_prefix ++ digest }
