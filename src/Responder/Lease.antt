-- ===== src/Responder/Lease.antt =====
-- Responder leases (src/LocalGooseDialogueResponder.hpp) and valid_local_goose_dialogue_responder_lease.
use gaudere_agent.Prelude.{
  ℕ, ◌*◌, Bool, true, false, not, ◌&&◌, ◌||◌, Option, ltb, ◌==◌, if◌then◌else◌, is_some, holds,
  length, empty, ℤ, pos, ltb_ℤ, leb_ℤ, ◌-ℤ◌,
}
use gaudere_agent.Text.{Text, text, eqb, safe_identifier, bounded_nonempty, prefixed_sha256}

abbrev pub max_purpose_bytes : ℕ
max_purpose_bytes = 1024

abbrev pub max_reason_bytes : ℕ
max_reason_bytes = 1024

abbrev pub max_duration_ms : ℤ
max_duration_ms = pos (24 * 60 * 60 * 1000)

abbrev pub system_turns_limit : ℕ
system_turns_limit = 8

abbrev pub completion_event_prefix : Text
unfolding text
completion_event_prefix = text "cognition.local-goose-dialogue.completion.v1:"

abbrev pub v2_task_prefix : Text
unfolding text
v2_task_prefix = text "cognition.local-goose-dialogue.v2:"

abbrev pub v3_task_prefix : Text
unfolding text
v3_task_prefix = text "cognition.local-goose-dialogue.v3:"

unfoldable pub dialogue_task_id : Text → Bool
dialogue_task_id value =
    prefixed_sha256 value v2_task_prefix || prefixed_sha256 value v3_task_prefix

unfoldable pub v3_task_id : Text → Bool
v3_task_id value = prefixed_sha256 value v3_task_prefix

-- All four message kinds: 1 << 0 | 1 << 1 | 1 << 2 | 1 << 3.
abbrev pub message_all : ℕ
message_all = 15

unfoldable pub message_kind_bit : Text → ℕ
message_kind_bit message_kind =
    if eqb message_kind (text "dialogue")
    then 1
    else if eqb message_kind (text "feedback")
    then 2
    else if eqb message_kind (text "intervention")
    then 4
    else if eqb message_kind (text "observation")
    then 8
    else 0

pub data LeaseState : Type 0 where
  active exhausted expired revoked manual_review : LeaseState

unfoldable pub valid_lease_state : LeaseState → Bool
valid_lease_state active = true
valid_lease_state exhausted = true
valid_lease_state expired = true
valid_lease_state revoked = true
valid_lease_state manual_review = true

pub record Lease : Type 0 where
  pub lease_id : Text
  pub thread_alias : Text
  pub speaker_kind : Text
  pub speaker_id : Text
  pub allowed_message_kinds : ℕ
  pub purpose : Text
  pub max_system_turns : ℕ
  pub turns_committed : ℕ
  pub issued_at_ms : ℤ
  pub expires_at_ms : ℤ
  pub min_interval_ms : ℤ
  pub next_eligible_at_ms : ℤ
  pub state : LeaseState
  pub terminal_reason : Text
  pub terminal_at_ms : Option ℤ

-- The conditions of the first `if`. A bit outside the mask of the low four is set exactly where the
-- number exceeds the mask.
unfoldable pub refused_lease : Lease → Bool
refused_lease lease =
    not (safe_identifier lease.lease_id)
    || not (safe_identifier lease.thread_alias)
    || not (eqb lease.speaker_kind (text "system"))
    || not (safe_identifier lease.speaker_id)
    || lease.allowed_message_kinds == 0
    || ltb message_all lease.allowed_message_kinds
    || not (bounded_nonempty lease.purpose max_purpose_bytes)
    || lease.max_system_turns == 0
    || ltb system_turns_limit lease.max_system_turns
    || ltb lease.max_system_turns lease.turns_committed
    || ltb_ℤ lease.issued_at_ms (pos 0)
    || leb_ℤ lease.expires_at_ms lease.issued_at_ms
    || ltb_ℤ max_duration_ms (lease.expires_at_ms -ℤ lease.issued_at_ms)
    || ltb_ℤ lease.min_interval_ms (pos 0)
    || ltb_ℤ max_duration_ms lease.min_interval_ms
    || ltb_ℤ lease.next_eligible_at_ms lease.issued_at_ms
    || not (valid_lease_state lease.state)
    || ltb max_reason_bytes (length lease.terminal_reason)

-- !terminal_at_ms || *terminal_at_ms < issued_at_ms || terminal_reason.empty()
unfoldable pub unfinished_lease : Lease → Bool
unfinished_lease lease =
    not (is_some lease.terminal_at_ms)
    || holds (λ at. ltb_ℤ at lease.issued_at_ms) lease.terminal_at_ms
    || empty lease.terminal_reason

unfoldable pub valid_lease_in : LeaseState → Lease → Bool
valid_lease_in active lease =
    ltb lease.turns_committed lease.max_system_turns
    && empty lease.terminal_reason
    && not (is_some lease.terminal_at_ms)
valid_lease_in exhausted lease =
    if unfinished_lease lease then false else lease.turns_committed == lease.max_system_turns
valid_lease_in _ lease = if unfinished_lease lease then false else true

unfoldable pub valid_lease : Lease → Bool
valid_lease lease = if refused_lease lease then false else valid_lease_in lease.state lease
