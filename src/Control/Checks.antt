-- ===== src/Control/Checks.antt =====
-- What each check of validate_command (src/LiveControl.cpp) says of the fields when it passes.
use gaudere_agent.Prelude.{
  ℕ, ◌≡◌, refl, Bool, true, false, not, ◌&&◌, ◌||◌, Option, [], ◌∷◌, arith, is_some, empty, String,
}
use gaudere_agent.Text.{Text, text, eqb, safe_identifier}
use gaudere_agent.Effects.{ok, raised}
use gaudere_agent.Control.Command.{
  Operation, Command, submit_local_goose_dialogue_v3_root, submit_local_goose_dialogue_v3_next,
  submit_local_goose_dialogue_v3_preferred_next, create_local_goose_dialogue_responder_lease,
  prepare_local_goose_dialogue_responder_intent,
}
use gaudere_agent.Control.Validate.{
  Check, lacks, ◌>>◌, bad_provenance, predecessor_operation, v3_operation,
  responder_provenance_operation, preferred_operation, responder_thread_operation, refuse_if,
  check_provenance, bad_lease, bad_intent, has_v3_provenance, has_thread_fields,
  has_responder_fields, check_operation, check_fields, valid_v3_speaker_kind, valid_v3_message_kind,
  safe_reason, positive_sequence_text,
}

identifier_nonempty : (s : Text) → safe_identifier s ≡ true → empty s ≡ false
unfolding safe_identifier
identifier_nonempty s h = ground arith

pub reason_nonempty : (s : Text) → safe_reason s ≡ true → empty s ≡ false
unfolding safe_reason
reason_nonempty s h = ground arith

pub sequence_nonempty : (s : Text) → positive_sequence_text s ≡ true → empty s ≡ false
unfolding positive_sequence_text
sequence_nonempty s h = ground arith

speaker_nonempty : (s : Text) → valid_v3_speaker_kind s ≡ true → empty s ≡ false
unfolding valid_v3_speaker_kind text eqb
speaker_nonempty [] h = cc
speaker_nonempty (c ∷ s) h = refl

message_nonempty : (s : Text) → valid_v3_message_kind s ≡ true → empty s ≡ false
unfolding valid_v3_message_kind text eqb
message_nonempty [] h = cc
message_nonempty (c ∷ s) h = refl

-- What the switch and the checks after it establish for operation o.
abbrev pub Passed : Operation → Command → Type 0
Passed o c = (check_operation o c ≡ ok tt) × (check_fields o c ≡ ok tt)

pub refuse_ok : (b : Bool) (m : String) → refuse_if b m ≡ ok tt → b ≡ false
unfolding refuse_if
refuse_ok b m h = ground arith

pub or_false : (a b : Bool) → (a || b) ≡ false → (a ≡ false) × (b ≡ false)
or_false a b h = ground arith

pub identifier_given : (s : Text) → not (safe_identifier s) ≡ false → empty s ≡ false
identifier_given s h = ground (arith, identifier_nonempty s)

revision_given : (o : Option ℕ) (p : ℕ → Bool) → lacks o p ≡ false → is_some o ≡ true
revision_given o p h = ground arith

pub both_ok : (a b : Check) → (a >> b) ≡ ok tt → (a ≡ ok tt) × (b ≡ ok tt)
both_ok (ok tt) b h = (refl, h)
both_ok (raised e) b h = cc

-- The four checks after the switch: a field that the operation has no use for is absent.
pub absent :
    (o : Operation) (c : Command)
    → check_fields o c ≡ ok tt
    → ((not (predecessor_operation o) && not (empty c.predecessor_task_id)) ≡ false)
      × ((not (v3_operation o) && not (responder_provenance_operation o) && has_v3_provenance c)
          ≡ false)
      × ((not (preferred_operation o) && not (responder_thread_operation o) && has_thread_fields c)
          ≡ false)
      × ((not (responder_provenance_operation o) && has_responder_fields c) ≡ false)
unfolding check_fields
absent o c h =
    let (abc, d) = both_ok _ _ h in
    let (ab, e) = both_ok _ _ abc in
    let (a, b) = both_ok _ _ ab in
    (refuse_ok _ _ a, refuse_ok _ _ b, refuse_ok _ _ e, refuse_ok _ _ d)

pub no_provenance :
    (c : Command)
    → has_v3_provenance c ≡ false
    → (not (not (empty c.speaker_kind)) ≡ true)
      × (not (not (empty c.speaker_id)) ≡ true)
      × (not (not (empty c.message_kind)) ≡ true)
unfolding has_v3_provenance
no_provenance c h = ground arith

pub no_thread :
    (c : Command)
    → has_thread_fields c ≡ false
    → (not (not (empty c.thread_alias)) ≡ true) × (not (is_some c.expected_thread_revision) ≡ true)
unfolding has_thread_fields
no_thread c h = ground arith

pub no_responder :
    (c : Command)
    → has_responder_fields c ≡ false
    → (not (is_some c.responder_completion_sequence) ≡ true)
      × (not (is_some c.responder_max_system_turns) ≡ true)
      × (not (is_some c.responder_ttl_ms) ≡ true)
      × (not (is_some c.responder_min_interval_ms) ≡ true)
unfolding has_responder_fields
no_responder c h = ground arith

pub lease_fields :
    (c : Command)
    → bad_lease c ≡ false
    → (empty c.text ≡ false)
      × (empty c.speaker_kind ≡ true)
      × (empty c.speaker_id ≡ false)
      × (empty c.message_kind ≡ false)
      × (empty c.thread_alias ≡ false)
      × (is_some c.expected_thread_revision ≡ false)
      × (is_some c.responder_completion_sequence ≡ false)
      × (is_some c.responder_max_system_turns ≡ true)
      × (is_some c.responder_ttl_ms ≡ true)
      × (is_some c.responder_min_interval_ms ≡ true)
unfolding bad_lease
lease_fields c h = ground (
  arith,
  reason_nonempty c.text,
  identifier_nonempty c.speaker_id,
  message_nonempty c.message_kind,
  identifier_nonempty c.thread_alias,
)

pub intent_fields :
    (c : Command)
    → bad_intent c ≡ false
    → (empty c.text ≡ false)
      × (empty c.speaker_kind ≡ true)
      × (empty c.speaker_id ≡ true)
      × (empty c.message_kind ≡ false)
      × (is_some c.responder_completion_sequence ≡ true)
      × (is_some c.responder_max_system_turns ≡ false)
      × (is_some c.responder_ttl_ms ≡ true)
      × (is_some c.responder_min_interval_ms ≡ false)
unfolding bad_intent
intent_fields c h = ground (arith, message_nonempty c.message_kind)

pub provenance_fields :
    (c : Command)
    → bad_provenance c ≡ false
    → (empty c.speaker_kind ≡ false) × (empty c.speaker_id ≡ false) × (empty c.message_kind ≡ false)
provenance_fields c h = ground (
  arith,
  speaker_nonempty c.speaker_kind,
  identifier_nonempty c.speaker_id,
  message_nonempty c.message_kind,
)

pub create_ok :
    (c : Command)
    → check_operation create_local_goose_dialogue_responder_lease c ≡ ok tt
    → bad_lease c ≡ false
unfolding check_operation
create_ok c h = refuse_ok _ _ h

pub prepare_ok :
    (c : Command)
    → check_operation prepare_local_goose_dialogue_responder_intent c ≡ ok tt
    → bad_intent c ≡ false
unfolding check_operation
prepare_ok c h = refuse_ok _ _ h

pub root_ok :
    (c : Command)
    → check_operation submit_local_goose_dialogue_v3_root c ≡ ok tt
    → bad_provenance c ≡ false
unfolding check_operation check_provenance
root_ok c h = refuse_ok _ _ (both_ok _ _ h).1

pub next_ok :
    (c : Command)
    → check_operation submit_local_goose_dialogue_v3_next c ≡ ok tt
    → (bad_provenance c ≡ false) × (empty c.predecessor_task_id ≡ false)
unfolding check_operation check_provenance
next_ok c h = (
  refuse_ok _ _ (both_ok _ _ h).1,
  identifier_given _ (refuse_ok _ _ (both_ok _ _ (both_ok _ _ h).0).1),
)

pub preferred_ok :
    (c : Command)
    → check_operation submit_local_goose_dialogue_v3_preferred_next c ≡ ok tt
    → (bad_provenance c ≡ false)
      × (empty c.thread_alias ≡ false)
      × (is_some c.expected_thread_revision ≡ true)
unfolding check_operation
preferred_ok c h =
    let (pa, r) = or_false _ _ (refuse_ok _ _ (both_ok _ _ h).1) in
    let (p, a) = or_false _ _ pa in (p, identifier_given _ a, revision_given _ _ r)
