-- ===== src/Responder/Disposition.antt =====
-- Responder dispositions (src/LocalGooseDialogueResponder.hpp): their identity, construction and
-- validation.
use gaudere_agent.Prelude.{
  int64_max, ℕ, Bool, true, false, not, ◌&&◌, ◌||◌, Option, none, some, [], ◌++◌, ltb, ◌==◌,
  if◌then◌else◌, is_some, holds, length, empty, ℤ, pos, ltb_ℤ, leb_ℤ,
}
use gaudere_agent.Text.{
  Text, text, eqb, safe_identifier, bounded_nonempty, lowercase_sha256, prefixed_sha256,
}
use gaudere_agent.Responder.Canonical.{append_text, append_number}
use gaudere_agent.Responder.Lease.{max_reason_bytes, completion_event_prefix, dialogue_task_id}
use gaudere_agent.Responder.Intent.{intent_prefix}

abbrev pub disposition_prefix : Text
unfolding text
disposition_prefix = text "cognition.local-goose-dialogue.responder-disposition.v1:"

pub data Kind : Type 0 where
  structural_skip_system structural_skip_stale explicit_decline intervention : Kind

-- static_cast<std::uint64_t>(kind)
unfoldable pub kind_number : Kind → ℕ
kind_number structural_skip_system = 0
kind_number structural_skip_stale = 1
kind_number explicit_decline = 2
kind_number intervention = 3

pub data DispositionState : Type 0 where
  prepared acknowledged intervention_bound completed manual_review : DispositionState

pub record Disposition : Type 0 where
  pub disposition_id : Text
  pub consumer_id : Text
  pub thread_alias : Text
  pub completion_sequence : ℕ
  pub event_id : Text
  pub result_sha256 : Text
  pub thread_revision : ℕ
  pub task_id : Text
  pub speaker_kind : Text
  pub speaker_id : Text
  pub kind : Kind
  pub authority_source : Text
  pub created_at_ms : ℤ
  pub state : DispositionState
  pub intent_id : Option Text
  pub bound_at_ms : Option ℤ
  pub reconciled_at_ms : Option ℤ
  pub terminal_reason : Text
  pub terminal_at_ms : Option ℤ

unfoldable pub disposition_canonical : Disposition → Text
disposition_canonical disposition =
    let c0 = text "gaudere.cognition.local-goose-dialogue-responder-disposition.v1|" in
    let c1 = append_text c0 disposition.consumer_id in
    let c2 = append_text c1 disposition.thread_alias in
    let c3 = append_number c2 disposition.completion_sequence in
    let c4 = append_text c3 disposition.event_id in
    let c5 = append_text c4 disposition.result_sha256 in
    let c6 = append_number c5 disposition.thread_revision in
    let c7 = append_text c6 disposition.task_id in
    let c8 = append_text c7 disposition.speaker_kind in
    let c9 = append_text c8 disposition.speaker_id in
    append_number c9 (kind_number disposition.kind)

unfoldable pub valid_disposition_kind : Kind → Bool
valid_disposition_kind structural_skip_system = true
valid_disposition_kind structural_skip_stale = true
valid_disposition_kind explicit_decline = true
valid_disposition_kind intervention = true

unfoldable pub valid_disposition_state : DispositionState → Bool
valid_disposition_state prepared = true
valid_disposition_state acknowledged = true
valid_disposition_state intervention_bound = true
valid_disposition_state completed = true
valid_disposition_state manual_review = true

abbrev pub human : Text → Bool
human speaker_kind = eqb speaker_kind (text "human")

abbrev pub system : Text → Bool
system speaker_kind = eqb speaker_kind (text "system")

-- The conditions of the first `if`.
unfoldable pub refused_disposition : Disposition → Bool
refused_disposition disposition =
    not (prefixed_sha256 disposition.disposition_id disposition_prefix)
    || not (safe_identifier disposition.consumer_id)
    || not (safe_identifier disposition.thread_alias)
    || disposition.completion_sequence == 0
    || ltb int64_max disposition.completion_sequence
    || not (prefixed_sha256 disposition.event_id completion_event_prefix)
    || not (lowercase_sha256 disposition.result_sha256)
    || ltb int64_max disposition.thread_revision
    || not (dialogue_task_id disposition.task_id)
    || not (human disposition.speaker_kind || system disposition.speaker_kind)
    || not (safe_identifier disposition.speaker_id)
    || not (valid_disposition_kind disposition.kind)
    || not (safe_identifier disposition.authority_source)
    || ltb_ℤ disposition.created_at_ms (pos 0)
    || not (valid_disposition_state disposition.state)
    || ltb max_reason_bytes (length disposition.terminal_reason)

unfoldable pub is_intervention : Kind → Bool
is_intervention intervention = true
is_intervention _ = false

-- A kind and a speaker that do not go together.
unfoldable pub wrong_speaker : Kind → Text → Bool
wrong_speaker structural_skip_system speaker_kind = not (system speaker_kind)
wrong_speaker structural_skip_stale speaker_kind = false
wrong_speaker explicit_decline speaker_kind = not (human speaker_kind)
wrong_speaker intervention speaker_kind = not (human speaker_kind)

-- An optional time before another time; an empty one is not before it.
abbrev pub before : Option ℤ → ℤ → Bool
before at ms = holds (λ t. ltb_ℤ t ms) at

-- has_intent != has_bound, a bad binding, and a binding of what is no intervention.
unfoldable pub refused_binding : Disposition → Bool
refused_binding disposition =
    (is_some disposition.intent_id && not (is_some disposition.bound_at_ms))
    || (not (is_some disposition.intent_id) && is_some disposition.bound_at_ms)
    || holds (λ id. not (prefixed_sha256 id intent_prefix)) disposition.intent_id
    || before disposition.bound_at_ms disposition.created_at_ms
    || (is_some disposition.intent_id && not (is_intervention disposition.kind))
    || before disposition.reconciled_at_ms disposition.created_at_ms
    || before disposition.terminal_at_ms disposition.created_at_ms

-- *later >= *earlier, where both are set.
unfoldable pub ordered : Option ℤ → Option ℤ → Bool
ordered (some earlier) (some later) = leb_ℤ earlier later
ordered _ _ = false

-- The terminal fields are blank.
abbrev pub open_end : Disposition → Bool
open_end disposition = empty disposition.terminal_reason && not (is_some disposition.terminal_at_ms)

unfoldable pub valid_disposition_in : DispositionState → Disposition → Bool
valid_disposition_in prepared disposition =
    not (is_some disposition.intent_id)
    && not (is_some disposition.reconciled_at_ms)
    && open_end disposition
valid_disposition_in acknowledged disposition =
    not (is_intervention disposition.kind)
    && not (is_some disposition.intent_id)
    && is_some disposition.reconciled_at_ms
    && open_end disposition
valid_disposition_in intervention_bound disposition =
    is_intervention disposition.kind
    && is_some disposition.intent_id
    && not (is_some disposition.reconciled_at_ms)
    && open_end disposition
valid_disposition_in completed disposition =
    is_intervention disposition.kind
    && is_some disposition.intent_id
    && ordered disposition.bound_at_ms disposition.reconciled_at_ms
    && open_end disposition
valid_disposition_in manual_review disposition =
    bounded_nonempty disposition.terminal_reason max_reason_bytes
    && is_some disposition.terminal_at_ms
    && not (is_some disposition.reconciled_at_ms)
    && (not (is_some disposition.bound_at_ms)
        || ordered disposition.bound_at_ms disposition.terminal_at_ms)
    && (is_intervention disposition.kind || not (is_some disposition.intent_id))

module _ (sha256_hex : Text → Text) where
  unfoldable pub disposition_digest : Disposition → Text
  disposition_digest disposition = sha256_hex (disposition_canonical disposition)

  unfoldable pub valid_disposition : Disposition → Bool
  valid_disposition disposition =
      if refused_disposition disposition
        || not
            (eqb disposition.disposition_id (disposition_prefix ++ disposition_digest disposition))
        || wrong_speaker disposition.kind disposition.speaker_kind
        || refused_binding disposition
      then false
      else valid_disposition_in disposition.state disposition

  unfoldable pub make_disposition :
      (consumer_id thread_alias : Text) (completion_sequence : ℕ) (event_id result_sha256 : Text)
      (thread_revision : ℕ) (task_id speaker_kind speaker_id : Text) (kind : Kind)
      (authority_source : Text) (created_at_ms : ℤ)
      → Disposition
  make_disposition consumer_id thread_alias completion_sequence event_id result_sha256
        thread_revision task_id speaker_kind speaker_id kind authority_source created_at_ms =
      let disposition : Disposition = record {
        disposition_id = [];
        consumer_id = consumer_id;
        thread_alias = thread_alias;
        completion_sequence = completion_sequence;
        event_id = event_id;
        result_sha256 = result_sha256;
        thread_revision = thread_revision;
        task_id = task_id;
        speaker_kind = speaker_kind;
        speaker_id = speaker_id;
        kind = kind;
        authority_source = authority_source;
        created_at_ms = created_at_ms;
        state = prepared;
        intent_id = none;
        bound_at_ms = none;
        reconciled_at_ms = none;
        terminal_reason = [];
        terminal_at_ms = none;
      } in
      record disposition { disposition_id = disposition_prefix ++ disposition_digest disposition }
