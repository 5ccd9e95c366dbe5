-- ===== src/Responder/Made.antt =====
-- Constructed intents, and valid leases and dispositions (src/LocalGooseDialogueResponder.cpp).
use gaudere_agent.Prelude.{
  int64_max, ℕ, ◌+◌, ◌≡◌, refl, Bool, true, false, ◌&&◌, [], ◌∷◌, ◌++◌, arith, ltb, leb, length,
  empty, all, ℤ, pos, ltb_ℤ, leb_ℤ, ◌-ℤ◌, length-append, is_some,
}
use gaudere_agent.Text.{
  Text, text, eqb, safe_identifier, bounded_nonempty, lowercase_sha256, prefixed_sha256, hex_byte,
  identifier_byte,
}
use gaudere_agent.Text.Laws.{eqb_refl, prefixed_sha256-append, eqb_iff}
use gaudere_agent.Responder.Lease.{
  max_duration_ms, completion_event_prefix, dialogue_task_id, message_kind_bit,
}
use gaudere_agent.Responder.Intent.{
  max_message_bytes, intent_prefix, request_prefix, valid_intent_state, refused_intent,
  any_submission, complete_submission, refused_submission, valid_intent_in, intent_canonical,
  intent_digest, foreign_intent, valid_intent, make_intent,
}
use gaudere_agent.Responder.Disposition.{
  Disposition, Kind, intervention, is_intervention, wrong_speaker, refused_binding,
  valid_disposition,
}

-- The conditions on the arguments of an intent.
abbrev pub acceptable :
    (lease_id thread_alias : Text) (completion_sequence : ℕ)
    (event_id result_sha256 triggering_task_id : Text) (expected_thread_revision : ℕ)
    (expected_head_task_id speaker_id message_kind message : Text) (created_at_ms expires_at_ms : ℤ)
    → Bool
acceptable lease_id thread_alias completion_sequence event_id result_sha256 triggering_task_id
      expected_thread_revision expected_head_task_id speaker_id message_kind message created_at_ms
      expires_at_ms =
    safe_identifier lease_id
    && safe_identifier thread_alias
    && leb 1 completion_sequence
    && leb completion_sequence int64_max
    && prefixed_sha256 event_id completion_event_prefix
    && lowercase_sha256 result_sha256
    && dialogue_task_id triggering_task_id
    && ltb expected_thread_revision int64_max
    && dialogue_task_id expected_head_task_id
    && safe_identifier speaker_id
    && leb 1 (message_kind_bit message_kind)
    && bounded_nonempty message max_message_bytes
    && leb_ℤ (pos 0) created_at_ms
    && ltb_ℤ created_at_ms expires_at_ms
    && leb_ℤ (expires_at_ms -ℤ created_at_ms) max_duration_ms

hex_identifier : (d : Text) → all hex_byte d ≡ true → all identifier_byte d ≡ true
unfolding all hex_byte identifier_byte
hex_identifier [] h = refl
hex_identifier (c ∷ d) h = ground (arith, hex_identifier d)

request_is_safe :
    (d : Text) → lowercase_sha256 d ≡ true → safe_identifier (request_prefix ++ d) ≡ true
unfolding safe_identifier lowercase_sha256 all identifier_byte text
request_is_safe d h =
    let some_bytes : empty (request_prefix ++ d) ≡ false = refl in
    let bytes : all identifier_byte (request_prefix ++ d) ≡ all identifier_byte d = refl in
    let size : length (request_prefix ++ d) ≡ 13 + length d = length-append request_prefix d in
    rw (some_bytes, bytes, size) (ground (arith, hex_identifier d))

-- Where the digest function gives 64 lowercase hexadecimal bytes: a made intent is valid exactly where its
-- arguments are acceptable.
pub make_intent-valid :
    (sha256_hex : Text → Text) (hex : (t : Text) → lowercase_sha256 (sha256_hex t) ≡ true)
    (lease_id thread_alias : Text) (completion_sequence : ℕ)
    (event_id result_sha256 triggering_task_id : Text) (expected_thread_revision : ℕ)
    (expected_head_task_id speaker_id message_kind message : Text) (created_at_ms expires_at_ms : ℤ)
    → valid_intent sha256_hex (
        make_intent sha256_hex lease_id thread_alias completion_sequence event_id result_sha256
          triggering_task_id expected_thread_revision expected_head_task_id speaker_id message_kind
          message created_at_ms expires_at_ms)
      ≡ acceptable lease_id thread_alias completion_sequence event_id result_sha256
          triggering_task_id expected_thread_revision expected_head_task_id speaker_id message_kind
          message created_at_ms expires_at_ms
unfolding valid_intent make_intent refused_intent foreign_intent refused_submission valid_intent_in
    any_submission complete_submission valid_intent_state intent_digest intent_canonical text eqb
make_intent-valid sha256_hex hex l a q e r g v h s k m c x =
    let d = intent_digest sha256_hex (make_intent sha256_hex l a q e r g v h s k m c x) in
    ground (
      arith,
      prefixed_sha256-append intent_prefix d (hex _),
      request_is_safe d (hex _),
      eqb_refl (intent_prefix ++ d),
      eqb_refl (request_prefix ++ d),
    )

is_intervention_inv : (k : Kind) → is_intervention k ≡ true → k ≡ intervention
unfolding is_intervention
is_intervention_inv intervention h = refl
is_intervention_inv _ h = ground arith

speaker_human :
    (k : Kind) (t : Text)
    → is_intervention k ≡ true
    → wrong_speaker k t ≡ false
    → eqb t (text "human") ≡ true
unfolding is_intervention wrong_speaker
speaker_human intervention t h w = ground arith
speaker_human _ t h w = ground arith

-- For any digest function: in a valid disposition an intent is bound exactly where a binding time is, and only
-- for an intervention, whose speaker is human.
pub valid_disposition-binding :
    (sha256_hex : Text → Text) (d : Disposition)
    → valid_disposition sha256_hex d ≡ true
    → (is_some d.intent_id ≡ is_some d.bound_at_ms)
      × (is_some d.intent_id ≡ true → (d.kind ≡ intervention) × (d.speaker_kind ≡ text "human"))
unfolding valid_disposition refused_binding
valid_disposition-binding sha256_hex d h = (
  ground arith,
  λ s. (
    is_intervention_inv d.kind (ground arith),
    (eqb_iff d.speaker_kind (text "human")).0
        (speaker_human d.kind d.speaker_kind (ground arith) (ground arith)),
  ),
)
