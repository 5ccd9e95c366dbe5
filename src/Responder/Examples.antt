-- ===== src/Responder/Examples.antt =====
-- Tests of the responder's records and instances of its theorems.
use gaudere_agent.Prelude.{
  ℕ, zero, suc, ◌≡◌, refl, ◌⊎◌, true, none, some, [], ◌∷◌, ◌++◌, all, pos, ◌-ℤ◌, is_some,
}
use gaudere_agent.Text.{
  Text, text, eqb, safe_identifier, bounded_nonempty, lowercase_sha256, prefixed_sha256, hex_byte,
  identifier_byte, starts_with,
}
use gaudere_agent.Responder.Canonical.{digits, to_string, append_text, append_number}
use gaudere_agent.Responder.Lease.{
  v2_task_prefix, v3_task_prefix, completion_event_prefix, dialogue_task_id, message_kind_bit,
  Lease, active, valid_lease, refused_lease, valid_lease_in, valid_lease_state,
}
use gaudere_agent.Responder.Intent.{
  Intent, intent_prefix, valid_intent_state, refused_intent, any_submission, complete_submission,
  refused_submission, valid_intent_in, intent_canonical, intent_digest, foreign_intent,
  valid_intent, make_intent,
}
use gaudere_agent.Responder.Disposition.{
  Disposition, intervention, intervention_bound, is_intervention, wrong_speaker, refused_binding,
  valid_disposition, valid_disposition_in, refused_disposition, make_disposition,
  disposition_digest, disposition_canonical, valid_disposition_kind, valid_disposition_state,
}
use gaudere_agent.Responder.Identity.{SameCause, Collision, intent_identity}
use gaudere_agent.Responder.Made.{acceptable, make_intent-valid, valid_disposition-binding}

abbrev repeat : ℕ → ℕ → Text
repeat zero c = []
repeat (suc n) c = c ∷ repeat n c

abbrev sixty_four : Text
sixty_four = repeat 64 b'a'

-- A digest function with the shape of SHA-256 output, for which every two texts collide.
abbrev constant_digest : Text → Text
constant_digest t = sixty_four

constant_hex : (t : Text) → lowercase_sha256 (constant_digest t) ≡ true
unfolding lowercase_sha256 all hex_byte
constant_hex t = refl

abbrev ask : Text → Intent
unfolding text
ask message =
    make_intent constant_digest (text "lease-1") (text "main") 7
      (completion_event_prefix ++ sixty_four) sixty_four (v3_task_prefix ++ sixty_four) 3
      (v2_task_prefix ++ sixty_four) (text "goose") (text "dialogue") message (pos 10) (pos 20)

abbrev hello : Text
unfolding text
hello = text "hello"

abbrev again : Text
unfolding text
again = text "again"

ask-hello_valid : valid_intent constant_digest (ask hello) ≡ true
unfolding text eqb safe_identifier bounded_nonempty lowercase_sha256 prefixed_sha256 hex_byte
    identifier_byte starts_with all make_intent intent_digest intent_canonical foreign_intent
    valid_intent refused_intent any_submission complete_submission refused_submission
    valid_intent_in valid_intent_state dialogue_task_id message_kind_bit ◌-ℤ◌
ask-hello_valid = refl

ask-again_valid : valid_intent constant_digest (ask again) ≡ true
unfolding text eqb safe_identifier bounded_nonempty lowercase_sha256 prefixed_sha256 hex_byte
    identifier_byte starts_with all make_intent intent_digest intent_canonical foreign_intent
    valid_intent refused_intent any_submission complete_submission refused_submission
    valid_intent_in valid_intent_state dialogue_task_id message_kind_bit ◌-ℤ◌
ask-again_valid = refl

same_id : (ask hello).intent_id ≡ (ask again).intent_id
unfolding make_intent intent_digest again hello
same_id = refl

intent_identity_example :
    SameCause (ask hello) (ask again)
    ⊎ Collision constant_digest (intent_canonical (ask hello)) (intent_canonical (ask again))
intent_identity_example =
    intent_identity constant_digest (ask hello) (ask again) ask-hello_valid ask-again_valid same_id

make_intent-valid_example :
    valid_intent constant_digest (ask hello)
    ≡ acceptable
        (text "lease-1")
        (text "main")
        7
        (completion_event_prefix ++ sixty_four)
        sixty_four
        (v3_task_prefix ++ sixty_four)
        3
        (v2_task_prefix ++ sixty_four)
        (text "goose")
        (text "dialogue")
        hello
        (pos 10)
        (pos 20)
unfolding ask make_intent
make_intent-valid_example =
    make_intent-valid constant_digest constant_hex (text "lease-1") (text "main") 7
      (completion_event_prefix ++ sixty_four) sixty_four (v3_task_prefix ++ sixty_four) 3
      (v2_task_prefix ++ sixty_four) (text "goose") (text "dialogue") hello (pos 10) (pos 20)

abbrev lease : Lease
unfolding text
lease = record {
  lease_id = text "lease-1";
  thread_alias = text "main";
  speaker_kind = text "system";
  speaker_id = text "goose";
  allowed_message_kinds = 5;
  purpose = text "keep talking";
  max_system_turns = 4;
  turns_committed = 3;
  issued_at_ms = pos 10;
  expires_at_ms = pos 3600010;
  min_interval_ms = pos 1000;
  next_eligible_at_ms = pos 20;
  state = active;
  terminal_reason = [];
  terminal_at_ms = none;
}

lease_valid : valid_lease lease ≡ true
unfolding text eqb safe_identifier bounded_nonempty identifier_byte all valid_lease refused_lease
    valid_lease_in valid_lease_state ◌-ℤ◌
lease_valid = refl

abbrev intervened : Disposition
unfolding text
intervened =
    record (make_disposition constant_digest (text "responder") (text "main") 7
      (completion_event_prefix ++ sixty_four) sixty_four 3 (v3_task_prefix ++ sixty_four)
      (text "human") (text "ana") intervention (text "operator") (pos 10)) {
        state = intervention_bound;
        intent_id = some (intent_prefix ++ sixty_four);
        bound_at_ms = some (pos 15);
      }

intervened_valid : valid_disposition constant_digest intervened ≡ true
unfolding text eqb safe_identifier bounded_nonempty lowercase_sha256 prefixed_sha256 hex_byte
    identifier_byte starts_with all dialogue_task_id is_intervention wrong_speaker refused_binding
    valid_disposition valid_disposition_in refused_disposition make_disposition disposition_digest
    disposition_canonical valid_disposition_kind valid_disposition_state
intervened_valid = refl

valid_disposition-binding_example :
    (is_some intervened.intent_id ≡ is_some intervened.bound_at_ms)
    × (is_some intervened.intent_id ≡ true
        → (intervened.kind ≡ intervention) × (intervened.speaker_kind ≡ text "human"))
valid_disposition-binding_example =
    valid_disposition-binding constant_digest intervened intervened_valid

-- The printed form of a number and of a length-prefixed string.
forty_two : append_text (append_number (text "v1|") 42) (text "goose") ≡ text "v1|42|5:goose|"
unfolding text append_text append_number to_string digits
forty_two = refl
